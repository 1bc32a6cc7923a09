-- ===== src/Dns/World.antt =====
-- What the DNS worker acts on: configuration files, /etc/resolv.conf and the units of systemd.
use secureblue.Base.{ℕ}
use secureblue.Base.{List, String}
use secureblue.Base.{nat_eq, string_eq, list_eq}
use secureblue.Base.Dict
use secureblue.Base.Dict.{Dict}
use secureblue.Base.Exec.{ok, Exec}
use secureblue.Base.{Str}
use secureblue.Systemd.{Systemctl, system_service, do_systemctl_action}

pub record ConfFile : Type 0 where
  pub content : Str
  pub mode : ℕ

pub data ResolvConf : Type 0 where
  missing : ResolvConf
  regular : (mode owner : ℕ) → ResolvConf
  link : String → ResolvConf

pub data Exit : Type 0 where
  exit : ℕ → Exit
  key_error : Exit

pub record World (Units : Type 0) : Type 0 where
  pub units : Units
  pub files : Dict String ConfFile
  pub resolv_conf : ResolvConf

abbrev pub dnsconfd_conf_path : String
dnsconfd_conf_path = "/etc/dnsconfd.conf"

abbrev pub dnsconfd_manager_path : String
dnsconfd_manager_path = "/etc/NetworkManager/conf.d/dnsconfd.conf"

abbrev pub nm_globaldns_conf_path : String
nm_globaldns_conf_path = "/etc/NetworkManager/conf.d/global-dns.conf"

abbrev pub resolved_resolvconf_path : String
resolved_resolvconf_path = "/run/systemd/resolve/stub-resolv.conf"

abbrev pub trivalent_policy_path : String
trivalent_policy_path = "/etc/trivalent/policies/managed/10-securedns-browser.json"

module _ {Units : Type 0} where
  -- `path.write_text(content)`, then `path.chmod(0o644)`
  unfoldable pub write_conf : String → Str → Exec (World Units) Exit (Unit {0})
  unfolding Dict.insert
  write_conf path content w = (
    ok tt,
    record w { files = Dict.insert path (record { content = content; mode = 0o644 }) w.files },
  )

  -- `path.unlink(missing_ok=True)`
  unfoldable pub unlink : String → Exec (World Units) Exit (Unit {0})
  unfolding Dict.erase
  unlink path w = (ok tt, record w { files = Dict.erase path w.files })

  unfoldable pub set_resolv_conf : ResolvConf → Exec (World Units) Exit (Unit {0})
  set_resolv_conf r w = (ok tt, record w { resolv_conf = r })

module _ (ctl : Systemctl) where
  -- A method of a service, in this world.
  unfoldable pub act : String → List String → Exec (World ctl.Units) Exit (Unit {0})
  unfolding do_systemctl_action
  act name actions w =
      let (r, u) = do_systemctl_action ctl exit (system_service name) actions w.units in
      (r, record w { units = u })
