-- ===== src/Dns/Worker.antt =====
-- `DNSResolver`, `set_resolver` and `main` of the worker.
use secureblue.Base.{ℕ}
use secureblue.Base.{Bool, true, false, not, ◌&&◌, if◌then◌else◌}
use secureblue.Base.{Option, [], ◌∷◌, ◌++◌, String}
use secureblue.Base.{nat_eq, string_eq, list_eq}
use secureblue.Base.Exec.{Exec, pure, gets, or_raise, ◌>>=◌, ◌>>◌}
use secureblue.Base.{Str, codes}
use secureblue.Systemd.{
  Systemctl, disable, disable_now, enable, enable_now, stop, start, mask, unmask,
}
use secureblue.Dns.World.{World, missing, regular, link, Exit, key_error}
use secureblue.Dns.World.{write_conf, unlink, set_resolv_conf, act}
use secureblue.Dns.World.{dnsconfd_manager_path, resolved_resolvconf_path}
use secureblue.Dns.Settings.{set_global_nm_servers, set_trivalent_doh_endpoint, set_dnssec_enabled}

pub data DnsResolver : Type 0 where
  unbound resolved : DnsResolver

abbrev pub service : DnsResolver → String
service unbound = "dnsconfd.service"
service resolved = "systemd-resolved.service"

abbrev pub network_manager : String
network_manager = "NetworkManager.service"

abbrev pub is_unbound : DnsResolver → Bool
is_unbound unbound = true
is_unbound resolved = false

-- The parsed command line; argparse accepts no other.
pub data Command : Type 0 where
  reset : Command
  set_dnssec : Bool → Command
  set_global : (servers : Str) (dnssec_enabled : Bool) (doh_url : Str) → Command
  set_resolver_to : DnsResolver → Command
  set_trivalent_doh : Str → Command

abbrev pub manager_config : Str
manager_config = codes "[main]" ++ (10 ∷ codes "dns=dnsconfd" ++ (10 ∷ []))

-- `dnsconfd_uid` is what `pwd.getpwnam("dnsconfd")` finds; `none` is a KeyError.
module _ (ctl : Systemctl) (dnsconfd_uid : Option ℕ) where
  abbrev pub Action : Type 0
  Action = Exec (World ctl.Units) Exit (Unit {0})

  -- Both or none enabled counts as Unbound, with a warning.
  unfoldable pub get_current : World ctl.Units → DnsResolver
  get_current w =
      let unbound-Enabled = ctl.is_enabled (service unbound) w.units in
      let resolved-Enabled = ctl.is_enabled (service resolved) w.units in
      if unbound-Enabled && resolved-Enabled
      then unbound
      else if not unbound-Enabled && not resolved-Enabled
      then unbound
      else if unbound-Enabled
      then unbound
      else resolved

  -- The file is made anew, for root, and handed to dnsconfd.
  unfoldable pub own_resolv_conf : Action
  unfolding set_resolv_conf
  own_resolv_conf = do
    set_resolv_conf missing
    set_resolv_conf (regular 0o644 0)
    uid ← or_raise key_error dnsconfd_uid
    set_resolv_conf (regular 0o644 uid)

  unfoldable pub set_resolver : DnsResolver → Action
  set_resolver unbound = do
    act ctl (service resolved) mask
    act ctl (service resolved) disable
    write_conf dnsconfd_manager_path manager_config
    own_resolv_conf
    act ctl "unbound.socket" enable_now
    act ctl "unbound-control.socket" enable_now
    act ctl (service unbound) unmask
    act ctl (service unbound) enable
  set_resolver resolved = do
    act ctl (service unbound) disable
    act ctl (service unbound) mask
    act ctl "unbound.socket" disable_now
    act ctl "unbound-control.socket" disable_now
    unlink dnsconfd_manager_path
    set_resolv_conf missing
    set_resolv_conf (link resolved_resolvconf_path)
    act ctl (service resolved) unmask
    act ctl (service resolved) enable

  -- The branches of the command; `true` is the early return of `set-global`.
  unfoldable pub configure : Command → Exec (World ctl.Units) Exit Bool
  configure reset = do
    set_resolver unbound
    set_global_nm_servers []
    set_dnssec_enabled false
    set_trivalent_doh_endpoint []
    pure false
  configure (set_dnssec dnssec_enabled) = do
    set_resolver unbound
    set_dnssec_enabled dnssec_enabled
    pure false
  configure (set_global servers dnssec_enabled doh_url) = do
    current ← gets get_current
    if not (is_unbound current) then pure true else do
      set_global_nm_servers servers
      set_dnssec_enabled dnssec_enabled
      set_trivalent_doh_endpoint doh_url
      pure false
  configure (set_resolver_to resolver) = do
    set_global_nm_servers []
    set_dnssec_enabled false
    set_resolver resolver
    pure false
  configure (set_trivalent_doh doh_url) = pure false

  unfoldable pub restart : Action
  unfolding get_current
  restart = do
    current ← gets get_current
    act ctl (service current) start
    act ctl network_manager start

  unfoldable pub reconfigure : Command → Action
  unfolding get_current
  reconfigure command = do
    act ctl network_manager stop
    current ← gets get_current
    act ctl (service current) stop
    returned ← configure command
    if returned then pure tt else restart

  unfoldable pub main : Command → Action
  unfolding reconfigure
  main (set_trivalent_doh doh_url) = set_trivalent_doh_endpoint doh_url
  main reset = reconfigure reset
  main (set_dnssec d) = reconfigure (set_dnssec d)
  main (set_global s d u) = reconfigure (set_global s d u)
  main (set_resolver_to r) = reconfigure (set_resolver_to r)
