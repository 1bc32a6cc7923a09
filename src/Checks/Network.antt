-- ===== src/Checks/Network.antt =====
-- The checks of DNS, of MAC randomization and of the remotes of flatpak, of audit_secureblue.py.
use secureblue.Base.{Bool, true, false, not, ◌&&◌, ◌||◌, if◌then◌else◌}
use secureblue.Base.{Option, none, some, List, [], ◌∷◌, ◌++◌, map, String}
use secureblue.Base.{◌==◌, nat_eq, string_eq, list_eq, list_beq, contains}
use secureblue.Base.Dict
use secureblue.Base.Dict.{Dict}
use secureblue.Base.Exec.{Result, ok, err}
use secureblue.Base.{Str, codes, strip, split_lines, join}
use secureblue.Base.Words.{split_on, partition}
use secureblue.Auditor.Status.{Status, pass, info, warn, fail, unknown}
use secureblue.Auditor.Report.{Note, Recommendation, Report}
use secureblue.Auditor.Check.{stateful}
use secureblue.Utils.Toggle.{Image, is_desktop}
use secureblue.Checks.State.{
  CheckError, key_error, value_error, attribute_error, called_process_error,
}
use secureblue.Checks.State.{
  Commands, Opened, not_found, permission_error, contents, note, lines, rec_of, report,
}
use secureblue.Checks.State.{AuditCheck, yields, done_with, failed_with}
use secureblue.Utils.Config.{parse_config}

-- The lines with a colon, split at the first one.
unfoldable pub status_flags : List Str → Dict Str Str → Dict Str Str
unfolding partition strip Dict.insert list_beq
status_flags [] flags = flags
status_flags (line ∷ rest) flags =
    let (key, found) = partition 58 line in
    let skipped = status_flags rest flags in
    elim found [
      | none ↦ skipped
      | some value ↦ status_flags rest (Dict.insert (strip key) (strip value) flags)
    ]

-- `flags.get(key) == value`
unfoldable pub flag_is : Dict Str Str → String → String → Bool
unfolding Dict.lookup list_beq
flag_is flags key value = elim (Dict.lookup (codes key) flags) [
  | none ↦ false
  | some v ↦ v == codes value
]

pub record DnsFlags : Type 0 where
  pub global_dns : Bool
  pub dnssec : Bool
  pub trivalent_doh : Bool
  pub unbound : Bool

unfoldable pub dns_flags : Str → DnsFlags
unfolding status_flags flag_is split_lines
dns_flags status_out =
    let flags = status_flags (split_lines status_out) [] in
    record {
      global_dns = flag_is flags "Global DNS" "enabled";
      dnssec = flag_is flags "DNSSEC" "enabled";
      trivalent_doh = flag_is flags "Trivalent DoH" "enabled";
      unbound = flag_is flags "DNS Resolver" "Unbound";
    }

-- A step of the check sets the status, and adds a note of that status and a recommendation.
pub data Step : Type 0 where
  step : Status → Str → List Str → Step

-- The steps whose conditions hold, in the order of the code. `is_desktop` is the test of the image,
-- which is made only when DNS over HTTPS is off.
unfoldable pub dns_steps : DnsFlags → Bool → Bool → List Step
dns_steps f desktop using_vpn =
    (if not f.trivalent_doh && desktop
      then step info (codes "DNS over HTTPS in Trivalent is disabled.") (
          codes "Consider using DNS over HTTPS in Trivalent to hide queries."
          ∷ codes "However, if you use a VPN, this may cause DNS leaks."
          ∷ codes "To enable it, run:"
          ∷ codes "$ ujust dns-selector"
          ∷ [])
        ∷ []
      else [])
    ++ ((if f.unbound && not f.global_dns
          then step warn (codes "Secure global DNS is not configured.") (
              codes "Consider using secure global DNS."
              ∷ codes "However, if you use a VPN, this may cause DNS leaks."
              ∷ codes "To enable it, run:"
              ∷ codes "$ ujust dns-selector"
              ∷ [])
            ∷ []
          else [])
        ++ ((if not f.unbound
              then step warn (codes "The secure DNS resolver is not in use, possibly for a VPN.") (
                  codes "To view or reset your current DNS configuration, run:"
                  ∷ codes "$ ujust dns-selector"
                  ∷ [])
                ∷ []
              else [])
            ++ ((if f.unbound && not f.dnssec
                  then step fail (codes "Local DNSSEC validation is disabled.") (
                      codes "You should enable local DNSSEC validation to prevent DNS hijacking."
                      ∷ codes "To enable it, run:"
                      ∷ codes "$ ujust dns-selector dnssec on"
                      ∷ [])
                    ∷ []
                  else [])
                ++ (if f.unbound && (not f.global_dns && using_vpn)
                    then step fail
                        (codes
                          "Using a VPN alongside Unbound without Global DNS may cause DNS leaks.")
                        (codes "If you use a VPN, switch your DNS resolver to systemd-resolved:"
                          ∷ codes "$ ujust dns-selector resolver resolved"
                          ∷ [])
                      ∷ []
                    else []))))

-- The status is assigned, not downgraded.
unfoldable pub steps_status : List Step → Status → Status
steps_status [] status = status
steps_status (step s text rec ∷ rest) status = steps_status rest s

unfoldable pub step_note : Step → Note
step_note (step s text rec) = note s text

unfoldable pub step_rec : Step → Recommendation
step_rec (step s text rec) = record { text = lines rec; mergeable_name = none }

-- `xs.reverse()`
unfoldable pub reversed : {A : Type 0} → List A → List A
reversed [] = []
reversed (x ∷ xs) = reversed xs ++ (x ∷ [])

unfoldable pub dns_report : List Step → Report
unfolding steps_status step_note step_rec reversed join
dns_report steps =
    report "Ensuring system DNS resolution is secure" (steps_status steps pass)
      (reversed (map step_note steps)) (reversed (map step_rec steps))

-- `state["image"].is_desktop()`: a KeyError, an AttributeError on None, or the answer.
unfoldable pub image_is_desktop : Option (Option Image) → Result CheckError Bool
unfolding is_desktop
image_is_desktop none = err key_error
image_is_desktop (some none) = err attribute_error
image_is_desktop (some (some image)) = ok (is_desktop image)

-- `status_out` is what `dns_selector.py status` prints, `none` when it fails.
unfoldable pub audit_dns : Option Str → Bool → AuditCheck
unfolding dns_flags image_is_desktop dns_steps dns_report
audit_dns status_out using_vpn = stateful (λ s. elim status_out [
  | none ↦ failed_with called_process_error s
  | some out ↦
      let f = dns_flags out in
      if f.trivalent_doh
      then done_with (dns_report (dns_steps f false using_vpn) ∷ []) s
      else elim (image_is_desktop s.image) [
        | err e ↦ failed_with e s
        | ok desktop ↦ done_with (dns_report (dns_steps f desktop using_vpn) ∷ []) s
      ]
])

-- `config.get(key) in ("random", "stable")`
unfoldable pub is_random_or_stable : Dict Str Str → Str → Bool
unfolding Dict.lookup list_beq
is_random_or_stable config key = elim (Dict.lookup key config) [
  | none ↦ false
  | some v ↦ v == codes "random" || v == codes "stable"
]

unfoldable pub mac_report : Opened (List Str) → Report
unfolding parse_config is_random_or_stable join
mac_report file =
    let failed = report "Ensuring MAC randomization is enabled" fail [] (
      rec_of (
        codes "MAC randomization is not enabled."
        ∷ codes "To enable it, run:"
        ∷ codes "$ ujust toggle-mac-randomization"
        ∷ [])) in
    elim file [
      | not_found ↦ failed
      | permission_error ↦
          report "Ensuring MAC randomization is enabled" unknown
            (note unknown (codes "Unable to read file /etc/NetworkManager/conf.d/rand_mac.conf.")
              ∷ [])
            []
      | contents conf ↦
          let config = parse_config b'=' conf in
          if is_random_or_stable config (codes "ethernet.cloned-mac-address")
            && is_random_or_stable config (codes "wifi.cloned-mac-address")
          then report "Ensuring MAC randomization is enabled" pass [] []
          else failed
    ]

unfoldable pub audit_mac_randomization : Opened (List Str) → AuditCheck
unfolding mac_report
audit_mac_randomization file = yields (mac_report file ∷ [])

unfoldable pub flathub_urls : List Str
flathub_urls = codes "https://dl.flathub.org/repo/" ∷ codes "https://dl.flathub.org/beta-repo/" ∷ []

-- The descriptions of these reports name the remote.
pub record RemoteReport : Type 0 where
  pub remote : Str
  pub status : Status
  pub notes : List Note

unfoldable pub remote_report : Str → Str → Str → RemoteReport
unfolding flathub_urls contains list_beq
remote_report name url subset =
    if not (contains flathub_urls url)
    then record {
      remote = name;
      status = fail;
      notes = note fail (name ++ codes " is configured with an unknown URL.") ∷ [];
    }
    else if not (subset == codes "verified")
    then record {
      remote = name;
      status = fail;
      notes = note fail (name ++ codes " is not a verified flatpak repository.") ∷ [];
    }
    else record { remote = name; status = pass; notes = [] }

-- The reports before the first line that has not three columns, and whether there is such a line
-- (the ValueError).
unfoldable pub remote_reports : List Str → List RemoteReport × Bool
unfolding remote_report split_on
remote_reports [] = ([], false)
remote_reports (line ∷ rest) =
    let (more, failed) = remote_reports rest in
    elim line [
      | [] ↦ (more, failed)
      | c ∷ cs ↦ elim (split_on 9 (c ∷ cs)) [
        | name ∷ url ∷ subset ∷ [] ↦ (remote_report name url subset ∷ more, failed)
        | _ ↦ ([], true)
      ]
    ]

-- What the generator yields before it fails.
pub record RemoteRun : Type 0 where
  pub yielded : List RemoteReport
  pub failure : Option CheckError

unfoldable pub audit_flatpak_remotes : Commands → RemoteRun
unfolding remote_reports split_lines
audit_flatpak_remotes sys =
    if sys.succeeds ("command" ∷ "-v" ∷ "flatpak" ∷ [])
    then elim (sys.stdout ("flatpak" ∷ "remotes" ∷ "--columns=name,url,subset" ∷ [])) [
      | none ↦ record { yielded = []; failure = some called_process_error }
      | some out ↦
          let (reports, failed) = remote_reports (split_lines out) in
          record { yielded = reports; failure = if failed then some value_error else none }
    ]
    else record { yielded = []; failure = none }
