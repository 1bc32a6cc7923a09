-- ===== src/Dns/Resolver.antt =====
-- After `set_resolver` the chosen resolver is the current one.
use secureblue.Base.{ℕ, arith}
use secureblue.Base.{◌≡◌, refl, sym, ap, ◌∙◌}
use secureblue.Base.{Bool, true, false}
use secureblue.Base.{Option, List, String}
use secureblue.Base.{nat_eq, string_eq, list_eq}
use secureblue.Base.Exec.{Result, ok, Exec}
use secureblue.Systemd.{Systemctl, disable, enable, mask, unmask, enable_now, disable_now}
use secureblue.Dns.World.{World, missing, link, Exit, act}
use secureblue.Dns.World.{write_conf, unlink, set_resolv_conf}
use secureblue.Dns.World.{dnsconfd_manager_path, resolved_resolvconf_path}
use secureblue.Dns.Worker.{DnsResolver, unbound, resolved, service}
use secureblue.Dns.Worker.{get_current}
use secureblue.Dns.Worker.{set_resolver, own_resolv_conf, manager_config}
use secureblue.Dns.Actions.{act-gives, act-keeps}
use secureblue.Dns.Actions.{Ends, Keeps, Ends-last, Ends-Keeps, Keeps-Keeps, Keeps-untouched}

-- The calls that follow the masking of dnsconfd.service.
pub data LaterCall : Type 0 where
  close_socket close_control unmask_resolved enable_resolved : LaterCall

abbrev pub unit_of : LaterCall → String
unit_of close_socket = "unbound.socket"
unit_of close_control = "unbound-control.socket"
unit_of unmask_resolved = service resolved
unit_of enable_resolved = service resolved

abbrev pub actions_of : LaterCall → List String
actions_of close_socket = disable_now
actions_of close_control = disable_now
actions_of unmask_resolved = unmask
actions_of enable_resolved = enable

-- What systemctl(1) says of the units that are switched: a service that it has enabled is enabled; a
-- masked unit is one whose file is a link to /dev/null, as `mask` leaves it; such a unit is not enabled;
-- and the calls for the sockets and for systemd-resolved do not remove that link.
pub record SwitchesResolver (ctl : Systemctl) : Type 0 where
  pub enable_law :
      (r : DnsResolver) (s : ctl.Units)
      → (ctl.call enable (service r) s).0 ≡ 0
      → ctl.is_enabled (service r) (ctl.call enable (service r) s).1 ≡ true
  pub unbound_masked : ctl.Units → Bool
  pub mask_law :
      (s : ctl.Units)
      → (ctl.call mask (service unbound) s).0 ≡ 0
      → unbound_masked (ctl.call mask (service unbound) s).1 ≡ true
  pub masked_law :
      (s : ctl.Units) → unbound_masked s ≡ true → ctl.is_enabled (service unbound) s ≡ false
  pub keeps_masked :
      (call : LaterCall) (s : ctl.Units)
      → unbound_masked s ≡ true
      → unbound_masked (ctl.call (actions_of call) (unit_of call) s).1 ≡ true

module _ (ctl : Systemctl) (law : SwitchesResolver ctl) (uid : Option ℕ) where
  abbrev Enabled : String → Bool → ctl.Units → Type 0
  Enabled unit b s = ctl.is_enabled unit s ≡ b

  abbrev Masked : ctl.Units → Type 0
  Masked s = law.unbound_masked s ≡ true

  Ends-enable : (r : DnsResolver) → Ends (Enabled (service r) true) (act ctl (service r) enable)
  Ends-enable r w t a e =
      ap (λ (x : Result Exit (Unit {0}) × World ctl.Units). ctl.is_enabled (service r) x.1.units)
        (sym e)
      ∙ act-gives ctl (service r) enable (Enabled (service r) true) (law.enable_law r) w
          (ap (λ (x : Result Exit (Unit {0}) × World ctl.Units). x.0) e)

  Ends-mask : Ends Masked (act ctl (service unbound) mask)
  Ends-mask w t a e =
      ap (λ (x : Result Exit (Unit {0}) × World ctl.Units). law.unbound_masked x.1.units) (sym e)
      ∙ act-gives ctl (service unbound) mask Masked law.mask_law w
          (ap (λ (x : Result Exit (Unit {0}) × World ctl.Units). x.0) e)

  Keeps-Masked : (call : LaterCall) → Keeps Masked (act ctl (unit_of call) (actions_of call))
  Keeps-Masked call w t a e p =
      ap (λ (x : Result Exit (Unit {0}) × World ctl.Units). law.unbound_masked x.1.units) (sym e)
      ∙ act-keeps ctl (unit_of call) (actions_of call) Masked (law.keeps_masked call) w p

  abbrev own : String → List String → Exec (World ctl.Units) Exit (Unit {0})
  own = act ctl

  resolved-Enabled : Ends (Enabled (service resolved) true) (set_resolver ctl uid resolved)
  unfolding set_resolver
  resolved-Enabled =
      let P = Enabled (service resolved) true in
      Ends-last P (own (service unbound) disable) _ (λ _.
        Ends-last P (own (service unbound) mask) _ (λ _.
          Ends-last P (own "unbound.socket" disable_now) _ (λ _.
            Ends-last P (own "unbound-control.socket" disable_now) _ (λ _.
              Ends-last P (unlink dnsconfd_manager_path) _ (λ _.
                Ends-last P (set_resolv_conf missing) _ (λ _.
                  Ends-last P (set_resolv_conf (link resolved_resolvconf_path)) _ (λ _.
                    Ends-last P (own (service resolved) unmask) _ (λ _. Ends-enable resolved))))))))

  unbound-Masked : Ends Masked (set_resolver ctl uid resolved)
  unfolding set_resolver
  unbound-Masked =
      let P = Masked in
      Ends-last P (own (service unbound) disable) _ (λ _.
        Ends-Keeps P (own (service unbound) mask) _ Ends-mask (λ _.
          Keeps-Keeps P (own "unbound.socket" disable_now) _ (Keeps-Masked close_socket) (λ _.
            Keeps-Keeps P (own "unbound-control.socket" disable_now) _ (Keeps-Masked close_control)
              (λ _.
                Keeps-Keeps P (unlink dnsconfd_manager_path) _
                  (Keeps-untouched P (unlink dnsconfd_manager_path) (unfold unlink in λ w. refl))
                  (λ _.
                    Keeps-Keeps P (set_resolv_conf missing) _
                      (Keeps-untouched P (set_resolv_conf missing)
                        (unfold set_resolv_conf in λ w. refl))
                      (λ _.
                        Keeps-Keeps P (set_resolv_conf (link resolved_resolvconf_path)) _
                          (Keeps-untouched P (set_resolv_conf (link resolved_resolvconf_path))
                            (unfold set_resolv_conf in λ w. refl))
                          (λ _.
                            Keeps-Keeps P (own (service resolved) unmask) _
                              (Keeps-Masked unmask_resolved)
                              (λ _. Keeps-Masked enable_resolved))))))))

  unbound-Enabled : Ends (Enabled (service unbound) true) (set_resolver ctl uid unbound)
  unfolding set_resolver
  unbound-Enabled =
      let P = Enabled (service unbound) true in
      Ends-last P (own (service resolved) mask) _ (λ _.
        Ends-last P (own (service resolved) disable) _ (λ _.
          Ends-last P (write_conf dnsconfd_manager_path manager_config) _ (λ _.
            Ends-last P (own_resolv_conf ctl uid) _ (λ _.
              Ends-last P (own "unbound.socket" enable_now) _ (λ _.
                Ends-last P (own "unbound-control.socket" enable_now) _ (λ _.
                  Ends-last P (own (service unbound) unmask) _ (λ _. Ends-enable unbound)))))))

  -- Setting a resolver that returns makes it the current one, whichever units were enabled before.
  pub set_resolver-get_current :
      (resolver : DnsResolver) (w t : World ctl.Units)
      → set_resolver ctl uid resolver w ≡ (ok tt, t)
      → get_current ctl uid t ≡ resolver
  unfolding get_current
  set_resolver-get_current unbound w t h = ground (arith, unbound-Enabled w t tt h)
  set_resolver-get_current resolved w t h =
      ground (arith, resolved-Enabled w t tt h, law.masked_law t.units (unbound-Masked w t tt h))
