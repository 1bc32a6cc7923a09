-- ===== src/Checks/Services.antt =====
-- The checks of USBGuard, chronyd, the update timers and the printing services, of audit_secureblue.py.
use secureblue.Base.{Bool, true, not, ◌&&◌, ◌||◌, if◌then◌else◌}
use secureblue.Base.{Option, none, some, List, [], ◌∷◌, ◌++◌, String}
use secureblue.Base.{◌==◌, nat_eq, string_eq, list_eq, list_beq}
use secureblue.Base.{Str, codes, join}
use secureblue.Auditor.Status.{Status, pass, warn, fail}
use secureblue.Auditor.Report.{Recommendation, Report}
use secureblue.Auditor.Check.{stateful}
use secureblue.Checks.State.{key_error}
use secureblue.Checks.State.{Commands, note, rec_of, report}
use secureblue.Checks.State.{AuditCheck, yields, done_with, failed_with}
use secureblue.Kargs.Build.{BootcBackend, composefs, ostree}
use secureblue.Checks.Containers.{Graded, add_note}

abbrev pub with_note : String → Status → Str → List Recommendation → Report
with_note description status text recs = report description status (note status text ∷ []) recs

-- The status of a check that a unit is enabled and has not failed; `recs` are for one that is disabled.
unfoldable pub unit_report :
    String → (enabled failed : Bool) → (off broken : Str) → List Recommendation → Report
unit_report description enabled failed off broken recs =
    if enabled
    then if failed then with_note description warn broken [] else report description pass [] []
    else with_note description fail off recs

unfoldable pub usbguard_report : Commands → Report
unfolding join
usbguard_report sys =
    unit_report "Ensuring USBGuard is active"
      (sys.succeeds ("systemctl" ∷ "is-enabled" ∷ "--quiet" ∷ "usbguard" ∷ []))
      (sys.succeeds ("systemctl" ∷ "is-failed" ∷ "--quiet" ∷ "usbguard" ∷ []))
      (codes "USBGuard is not enabled.") (codes "USBGuard is enabled but has failed to run.")
      (rec_of (
        codes "USBGuard is not enabled."
        ∷ codes "To set up USBGuard, run:"
        ∷ codes "$ ujust setup-usbguard"
        ∷ codes
            "Caution: if you have already set up USBGuard, this will overwrite the existing policy."
        ∷ []))

unfoldable pub audit_usbguard : Commands → AuditCheck
unfolding usbguard_report
audit_usbguard sys = yields (usbguard_report sys ∷ [])

unfoldable pub chronyd_report : Commands → Report
unfolding join
chronyd_report sys =
    unit_report "Ensuring chronyd is active"
      (sys.succeeds ("systemctl" ∷ "is-enabled" ∷ "--quiet" ∷ "chronyd" ∷ []))
      (sys.succeeds ("systemctl" ∷ "is-failed" ∷ "--quiet" ∷ "chronyd" ∷ []))
      (codes "chronyd is not enabled.") (codes "chronyd is enabled but has failed to run.")
      (rec_of (
        codes "chronyd is not enabled."
        ∷ codes "To start and enable it, run:"
        ∷ codes "$ systemctl enable --now chronyd"
        ∷ []))

unfoldable pub audit_chronyd : Commands → AuditCheck
unfolding chronyd_report
audit_chronyd sys = yields (chronyd_report sys ∷ [])

-- A status, the notes and the recommendations so far
pub record Graders : Type 0 where
  pub graded : Graded
  pub recs : List Recommendation

unfoldable pub timer_unit : BootcBackend → String
timer_unit ostree = "rpm-ostreed-automatic.timer"
timer_unit composefs = "bootc-upgrade.timer"

unfoldable pub service_unit : BootcBackend → String
service_unit ostree = "rpm-ostreed-automatic.service"
service_unit composefs = "bootc-upgrade.service"

-- The first part of audit_update_timer
unfoldable pub check_timer : Commands → BootcBackend → Graders
unfolding timer_unit service_unit add_note join
check_timer sys backend =
    if sys.succeeds ("systemctl" ∷ "is-enabled" ∷ "--quiet" ∷ timer_unit backend ∷ [])
    then if sys.succeeds ("systemctl" ∷ "is-failed" ∷ "--quiet" ∷ service_unit backend ∷ [])
      then record {
        graded =
            add_note warn (codes (service_unit backend) ++ codes " has failed to run.") (pass, []);
        recs = [];
      }
      else record { graded = (pass, []); recs = [] }
    else record {
      graded = (fail, note fail (codes (timer_unit backend) ++ codes " is disabled.") ∷ []);
      recs = rec_of (
          (codes (timer_unit backend) ++ codes " is disabled.")
          ∷ codes "To enable it, run:"
          ∷ (codes "$ systemctl enable --now " ++ codes (timer_unit backend))
          ∷ []);
    }

-- AutomaticUpdatePolicy in the section Daemon of rpm-ostreed.conf: absent, or the configparser.Error
-- and the KeyError, or a value.
pub data UpdatePolicy : Type 0 where
  policy_absent conf_error : UpdatePolicy
  policy : Str → UpdatePolicy

unfoldable pub bad_rpm_ostreed_conf : UpdatePolicy → Bool
unfolding list_beq
bad_rpm_ostreed_conf (policy v) = not (v == codes "stage" || v == codes "apply")
bad_rpm_ostreed_conf _ = true

unfoldable pub check_policy : UpdatePolicy → Graders → Graders
unfolding bad_rpm_ostreed_conf join
check_policy conf g =
    let (status, notes) = g.graded in
    if bad_rpm_ostreed_conf conf
    then record {
      graded = (
        fail,
        notes
            ++ (note fail (codes "Automatic system updates are disabled in /etc/rpm-ostreed.conf")
                ∷ []),
      );
      recs =
          g.recs
          ++ rec_of (
              codes "Automatic system updates are disabled in /etc/rpm-ostreed.conf"
              ∷ codes "To fix this, run:"
              ∷ codes
                  "$ run0 -i cp /usr/share/secureblue/etc/rpm-ostreed.conf /etc/rpm-ostreed.conf"
              ∷ []);
    }
    else g

unfoldable pub update_timer_report : Commands → BootcBackend → UpdatePolicy → Report
unfolding check_timer check_policy
update_timer_report sys backend conf =
    let g : Graders = elim backend [
      | composefs ↦ check_timer sys composefs
      | ostree ↦ check_policy conf (check_timer sys ostree)
    ] in
    let (status, notes) = g.graded in
    report "Ensuring automatic system updates are enabled" status notes g.recs

unfoldable pub audit_update_timer : Commands → BootcBackend → UpdatePolicy → AuditCheck
unfolding update_timer_report
audit_update_timer sys backend conf = yields (update_timer_report sys backend conf ∷ [])

unfoldable pub podman_auto_update_report : Commands → Report
unfolding join
podman_auto_update_report sys =
    unit_report "Ensuring podman-auto-update.timer is enabled"
      (sys.succeeds ("systemctl" ∷ "is-enabled" ∷ "--quiet" ∷ "podman-auto-update.timer" ∷ []))
      (sys.succeeds ("systemctl" ∷ "is-failed" ∷ "--quiet" ∷ "podman-auto-update.service" ∷ []))
      (codes "podman-auto-update.timer is disabled.")
      (codes "podman-auto-update.service has failed to run.")
      (rec_of (
        codes "podman-auto-update.timer is disabled."
        ∷ codes "To enable it, run:"
        ∷ codes "$ systemctl enable --now podman-auto-update.timer"
        ∷ []))

unfoldable pub audit_podman_auto_update : Commands → AuditCheck
unfolding podman_auto_update_report
audit_podman_auto_update sys = yields (podman_auto_update_report sys ∷ [])

-- `none` is the KeyError; `and` reads the entry before it runs the command.
unfoldable pub podman_global_report : Commands → Option Bool → Option Report
unfolding join
podman_global_report sys userns =
    if not (
      sys.succeeds
        ("systemctl" ∷ "--global" ∷ "is-enabled" ∷ "--quiet" ∷ "podman-auto-update.timer" ∷ []))
    then some (
        with_note "Ensuring podman-auto-update.timer is enabled globally" fail
          (codes "podman-auto-update.timer is not enabled globally.")
          (rec_of (
            codes "podman-auto-update.timer is not enabled globally."
            ∷ codes "To enable it, run:"
            ∷ codes "$ systemctl enable --global --now podman-auto-update.timer"
            ∷ [])))
    else elim userns [
      | none ↦ none
      | some enabled ↦ some (
          if enabled
            && sys.succeeds (
                "systemctl" ∷ "--user" ∷ "is-failed" ∷ "--quiet" ∷ "podman-auto-update.service"
                ∷ [])
          then with_note "Ensuring podman-auto-update.timer is enabled globally" warn
              (codes "podman-auto-update.service has failed to run.") []
          else report "Ensuring podman-auto-update.timer is enabled globally" pass [] [])
    ]

unfoldable pub audit_podman_global_auto_update : Commands → AuditCheck
unfolding podman_global_report
audit_podman_global_auto_update sys = stateful (λ s.
    elim (podman_global_report sys s.container_userns_enabled) [
      | none ↦ failed_with key_error s
      | some r ↦ done_with (r ∷ []) s
    ])
