-- ===== src/Dns/Dnssec.antt =====
-- What the selector reads back from the DNSSEC setting.
use secureblue.Base.{◌≡◌, refl}
use secureblue.Base.{Bool, true, false}
use secureblue.Base.{some, [], ◌∷◌, ◌++◌}
use secureblue.Base.{nat_eq, string_eq, list_eq}
use secureblue.Base.Dict
use secureblue.Base.Dict.{Dict}
use mathlib.Core.Option
use secureblue.Base.Dict.{lookup-insert, lookup-erase}
use secureblue.Base.{codes}
use secureblue.Dns.World.{World, ConfFile, dnsconfd_conf_path}
use secureblue.Dns.Settings.{set_dnssec_enabled, dnssec_status}

written_line : dnssec_status (some (codes "dnssec_enabled: yes" ++ (10 ∷ []))) ≡ true
unfolding dnssec_status
written_line = refl

-- Whatever the configuration was, the selector shows the setting that the worker made.
pub dnssec_status-set_dnssec_enabled :
    {Units : Type 0} (dnssec_enabled : Bool) (w : World Units)
    → dnssec_status (
        Option.map
          (λ (f : ConfFile). f.content)
          (Dict.lookup dnsconfd_conf_path (set_dnssec_enabled dnssec_enabled w).1.files))
      ≡ dnssec_enabled
unfolding set_dnssec_enabled
dnssec_status-set_dnssec_enabled false w =
    rw (lookup-erase dnsconfd_conf_path dnsconfd_conf_path w.files) (unfold dnssec_status in refl)
dnssec_status-set_dnssec_enabled true w =
    rw
      (lookup-insert dnsconfd_conf_path dnsconfd_conf_path
        (record { content = codes "dnssec_enabled: yes" ++ (10 ∷ []); mode = 0o644 }) w.files)
      written_line
