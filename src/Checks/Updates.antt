-- ===== src/Checks/Updates.antt =====
-- The checks of the updates of flatpak and Homebrew and of the printing services, of audit_secureblue.py.
use secureblue.Base.{Bool, true, false, ◌||◌, if◌then◌else◌}
use secureblue.Base.{Option, none, some, List, [], ◌∷◌, ◌++◌, String, ◌<>◌}
use secureblue.Base.{◌==◌, nat_eq, string_eq, list_eq, list_beq}
use secureblue.Base.{Str, codes, split_lines, join}
use secureblue.Auditor.Status.{pass, info, warn, fail}
use secureblue.Auditor.Report.{Recommendation, Report}
use secureblue.Checks.State.{value_error}
use secureblue.Checks.State.{Commands, note, rec_of, report}
use secureblue.Checks.State.{AuditCheck, yields, raises}
use secureblue.Checks.Containers.{Graded, add_note}
use secureblue.Checks.Services.{Graders, unit_report}

unfoldable pub flatpak_user_report : Commands → Report
unfolding join
flatpak_user_report sys =
    unit_report "Ensuring flatpak-user-update.timer is enabled globally"
      (sys.succeeds
        ("systemctl" ∷ "--global" ∷ "is-enabled" ∷ "--quiet" ∷ "flatpak-user-update.timer" ∷ []))
      (sys.succeeds
        ("systemctl" ∷ "--user" ∷ "is-failed" ∷ "--quiet" ∷ "flatpak-user-update.service" ∷ []))
      (codes "flatpak-user-update.timer is not enabled globally.")
      (codes "flatpak-user-update.service has failed to run.")
      (rec_of (
        codes "flatpak-user-update.timer is not enabled globally."
        ∷ codes "To enable it, run:"
        ∷ codes "$ systemctl enable --global --now flatpak-user-update.timer"
        ∷ []))

unfoldable pub flatpak_system_report : Commands → Report
unfolding join
flatpak_system_report sys =
    unit_report "Ensuring flatpak-system-update.timer is enabled"
      (sys.succeeds ("systemctl" ∷ "is-enabled" ∷ "--quiet" ∷ "flatpak-system-update.timer" ∷ []))
      (sys.succeeds ("systemctl" ∷ "is-failed" ∷ "--quiet" ∷ "flatpak-system-update.service" ∷ []))
      (codes "flatpak-system-update.timer is not enabled.")
      (codes "flatpak-system-update.service has failed to run.")
      (rec_of (
        codes "flatpak-system-update.timer is not enabled."
        ∷ codes "To enable it, run:"
        ∷ codes "$ systemctl enable --now flatpak-system-update.timer"
        ∷ []))

unfoldable pub flatpak_update_reports : Commands → List Report
unfolding flatpak_user_report flatpak_system_report
flatpak_update_reports sys =
    if sys.succeeds ("command" ∷ "-v" ∷ "flatpak" ∷ [])
    then flatpak_user_report sys ∷ flatpak_system_report sys ∷ []
    else []

unfoldable pub audit_flatpak_auto_update : Commands → AuditCheck
unfolding flatpak_update_reports
audit_flatpak_auto_update sys = yields (flatpak_update_reports sys)

-- A turn of the loop over the units of brew: the grade, and the timers that are disabled.
unfoldable pub brew_step : String → (enabled failed : Bool) → Graded × List Str → Graded × List Str
unfolding add_note
brew_step unit false failed ((status, notes), disabled_timers) = (
  (fail, notes ++ (note fail (codes (unit <> ".timer") ++ codes " is not enabled.") ∷ [])),
  disabled_timers ++ (codes (unit <> ".timer") ∷ []),
)
brew_step unit true true (g, disabled_timers) =
    (add_note warn (codes (unit <> ".service") ++ codes " has failed to run.") g, disabled_timers)
brew_step unit true false found = found

unfoldable pub check_brew_units : Commands → List String → Graded × List Str → Graded × List Str
unfolding brew_step
check_brew_units sys [] found = found
check_brew_units sys (unit ∷ rest) found = check_brew_units sys rest (
    brew_step unit (sys.succeeds ("systemctl" ∷ "is-enabled" ∷ "--quiet" ∷ (unit <> ".timer") ∷ []))
      (sys.succeeds ("systemctl" ∷ "is-failed" ∷ "--quiet" ∷ (unit <> ".service") ∷ [])) found)

unfoldable pub brew_recs : List Str → List Recommendation
unfolding join
brew_recs [] = []
brew_recs (timer ∷ timers) = rec_of (
    codes "Automatic updates for Homebrew are not enabled."
    ∷ codes "To enable them, run:"
    ∷ (codes "$ systemctl enable --now " ++ join (32 ∷ []) (timer ∷ timers))
    ∷ [])

unfoldable pub brew_update_reports : Commands → List Report
unfolding check_brew_units brew_recs
brew_update_reports sys =
    let ((status, notes), disabled_timers) =
      check_brew_units sys ("brew-update" ∷ "brew-upgrade" ∷ []) ((pass, []), []) in
    if sys.succeeds ("command" ∷ "-v" ∷ "brew" ∷ [])
    then report "Ensuring automatic Homebrew updates are enabled" status notes
        (brew_recs disabled_timers)
      ∷ []
    else []

unfoldable pub audit_brew_auto_update : Commands → AuditCheck
unfolding brew_update_reports
audit_brew_auto_update sys = yields (brew_update_reports sys)

unfoldable pub grade_cups : Str → Graders
unfolding add_note join list_beq
grade_cups cups_status =
    if cups_status == codes "enabled"
    then record {
      graded = add_note warn (codes "CUPS (the printing service) is enabled.") (pass, []);
      recs = rec_of (
          codes "CUPS (the printing service) is enabled."
          ∷ codes "To fix this, run:"
          ∷ codes "$ ujust set-cups off"
          ∷ []);
    }
    else if cups_status == codes "disabled"
    then record {
      graded =
          add_note info (codes "CUPS (the printing service) is disabled, but unmasked.") (pass, []);
      recs = rec_of (
          codes "CUPS (the printing service) is disabled, but unmasked."
          ∷ codes "To fix this, run:"
          ∷ codes "$ ujust set-cups off"
          ∷ []);
    }
    else if cups_status == codes "masked" || cups_status == codes "not-found"
    then record { graded = (pass, []); recs = [] }
    else record {
      graded =
          add_note warn
            (codes "CUPS (the printing service) has unexpected status '"
              ++ (cups_status ++ codes "'."))
            (pass, []);
      recs = [];
    }

-- The last note names the status of cups.service, as the source does.
unfoldable pub grade_cups_browsed : Str → Str → Graders → Graders
unfolding add_note join list_beq
grade_cups_browsed cups_status cups_browsed_status g =
    if cups_browsed_status == codes "enabled"
    then record {
      graded = add_note fail (codes "cups-browsed.service is enabled.") g.graded;
      recs =
          g.recs
          ++ rec_of (
              codes "cups-browsed.service is enabled."
              ∷ codes "To fix this, run:"
              ∷ codes "$ systemctl disable --now cups-browsed.service"
              ∷ codes "$ systemctl mask cups-browsed.service"
              ∷ []);
    }
    else if cups_browsed_status == codes "disabled"
    then record {
      graded = add_note warn (codes "cups-browsed.service is disabled, but unmasked.") g.graded;
      recs =
          g.recs
          ++ rec_of (
              codes "cups-browsed.service is disabled, but unmasked."
              ∷ codes "To fix this, run:"
              ∷ codes "$ systemctl mask cups-browsed.service"
              ∷ []);
    }
    else if cups_browsed_status == codes "masked" || cups_browsed_status == codes "not-found"
    then g
    else record {
      graded =
          add_note fail
            (codes "cups-browsed.service has unexpected status '" ++ (cups_status ++ codes "'."))
            g.graded;
      recs = g.recs;
    }

unfoldable pub print_report : Str → Str → Report
unfolding grade_cups grade_cups_browsed
print_report cups_status cups_browsed_status =
    let g = grade_cups_browsed cups_status cups_browsed_status (grade_cups cups_status) in
    let (status, notes) = g.graded in
    report "Ensuring printing services are disabled" status notes g.recs

-- The two lines that systemctl prints; `none` is the ValueError of any other number of lines.
unfoldable pub print_services_report : List Str → Option Report
unfolding print_report
print_services_report (cups_status ∷ cups_browsed_status ∷ []) =
    some (print_report cups_status cups_browsed_status)
print_services_report _ = none

-- `out` is what `systemctl is-enabled cups.service cups-browsed.service` prints.
unfoldable pub audit_print_services : Str → AuditCheck
unfolding print_services_report split_lines
audit_print_services out = elim (print_services_report (split_lines out)) [
  | none ↦ raises value_error
  | some r ↦ yields (r ∷ [])
]
