-- ===== src/Checks/UnitGrades.antt =====
-- The grades of the reports on services, timers and printing.
use secureblue.Base.{arith}
use secureblue.Base.{◌≡◌, refl, sym, ap, ◌∙◌, inl, inr}
use secureblue.Base.{Bool, true, false, ◌||◌, if◌then◌else◌, leb, Bool-cases}
use secureblue.Base.{Option, none, some, List, [], ◌∷◌, ◌++◌, String, ◌<>◌}
use secureblue.Base.{◌==◌, nat_eq, string_eq, list_eq}
use secureblue.Base.{Str, codes}
use secureblue.Auditor.Status.{value}
use secureblue.Auditor.Status.{Status, pass, warn, fail, downgrade_to}
use secureblue.Auditor.Report.{Recommendation, Report}
use secureblue.Checks.State.{Commands, report}
use secureblue.Kargs.Build.{BootcBackend, composefs, ostree}
use secureblue.Checks.Containers.{Graded, add_note}
use secureblue.Checks.Grade.{IsGraded, worst, worst-append, add_note-IsGraded}
use secureblue.Checks.Services.{
  Graders, with_note, unit_report, usbguard_report, chronyd_report, UpdatePolicy, check_timer,
  check_policy, bad_rpm_ostreed_conf, timer_unit, service_unit, update_timer_report,
  podman_auto_update_report, podman_global_report,
}
use secureblue.Checks.Updates.{
  flatpak_user_report, flatpak_system_report, flatpak_update_reports, brew_step, check_brew_units,
  brew_update_reports, grade_cups, grade_cups_browsed, print_report,
}

-- The status of the report is the worst of the statuses of its notes.
abbrev pub IsGradedReport : Report → Type 0
IsGradedReport r = r.status ≡ worst r.notes

if-IsGradedReport :
    (b : Bool) (r t : Report)
    → IsGradedReport r
    → IsGradedReport t
    → IsGradedReport (if b then r else t)
if-IsGradedReport true r t h k = h
if-IsGradedReport false r t h k = k

with_note-IsGradedReport :
    (description : String) (s : Status) (text : Str) (recs : List Recommendation)
    → IsGradedReport (with_note description s text recs)
unfolding downgrade_to
with_note-IsGradedReport description s text recs = ground arith

report-IsGradedReport : (description : String) → IsGradedReport (report description pass [] [])
report-IsGradedReport description = refl

-- The three ends of a check of a unit
unit_report-IsGradedReport :
    (description : String) (enabled failed : Bool) (off broken : Str) (recs : List Recommendation)
    → IsGradedReport (unit_report description enabled failed off broken recs)
unfolding unit_report
unit_report-IsGradedReport description enabled failed off broken recs =
    if-IsGradedReport enabled _ _
      (if-IsGradedReport failed _ _ (with_note-IsGradedReport description warn broken [])
        (report-IsGradedReport description))
      (with_note-IsGradedReport description fail off recs)

usbguard-IsGradedReport : (sys : Commands) → IsGradedReport (usbguard_report sys)
unfolding usbguard_report
usbguard-IsGradedReport sys = unit_report-IsGradedReport _ _ _ _ _ _

chronyd-IsGradedReport : (sys : Commands) → IsGradedReport (chronyd_report sys)
unfolding chronyd_report
chronyd-IsGradedReport sys = unit_report-IsGradedReport _ _ _ _ _ _

podman-IsGradedReport : (sys : Commands) → IsGradedReport (podman_auto_update_report sys)
unfolding podman_auto_update_report
podman-IsGradedReport sys = unit_report-IsGradedReport _ _ _ _ _ _

flatpak_user-IsGradedReport : (sys : Commands) → IsGradedReport (flatpak_user_report sys)
unfolding flatpak_user_report
flatpak_user-IsGradedReport sys = unit_report-IsGradedReport _ _ _ _ _ _

flatpak_system-IsGradedReport : (sys : Commands) → IsGradedReport (flatpak_system_report sys)
unfolding flatpak_system_report
flatpak_system-IsGradedReport sys = unit_report-IsGradedReport _ _ _ _ _ _

check_timer-IsGradedReport :
    (sys : Commands) (backend : BootcBackend)
    → IsGraded (check_timer sys backend).graded
      × (leb (value (check_timer sys backend).graded.0) 3 ≡ true)
unfolding check_timer add_note downgrade_to
check_timer-IsGradedReport sys backend =
    elim (Bool-cases
      (sys.succeeds ("systemctl" ∷ "is-enabled" ∷ "--quiet" ∷ timer_unit backend ∷ []))) [
        | inl e ↦
            elim (Bool-cases
              (sys.succeeds ("systemctl" ∷ "is-failed" ∷ "--quiet" ∷ service_unit backend ∷ []))) [
                | inl f ↦ rw (e, f) (refl, refl)
                | inr f ↦ rw (e, f) (refl, refl)
              ]
        | inr e ↦ rw e (refl, refl)
      ]

fail-of-known : (s : Status) → leb (value s) 3 ≡ true → fail ≡ downgrade_to s fail
unfolding downgrade_to
fail-of-known s h = ground arith

downgrade-known : (s : Status) → leb (value s) 3 ≡ true → leb (value (downgrade_to s warn)) 3 ≡ true
unfolding downgrade_to
downgrade-known s h = ground arith

check_policy-IsGradedReport :
    (conf : UpdatePolicy) (g : Graders)
    → IsGraded g.graded
    → leb (value g.graded.0) 3 ≡ true
    → IsGraded (check_policy conf g).graded
unfolding check_policy
check_policy-IsGradedReport conf g h known = elim (Bool-cases (bad_rpm_ostreed_conf conf)) [
  | inl e ↦
      let text = codes "Automatic system updates are disabled in /etc/rpm-ostreed.conf" in
      rw e (
        fail-of-known g.graded.0 known
        ∙ ap (λ s. downgrade_to s fail) h
        ∙ sym (worst-append g.graded.1 fail text))
  | inr e ↦ rw e h
]

grade_cups-IsGraded : (cups_status : Str) → IsGraded (grade_cups cups_status).graded
unfolding grade_cups add_note downgrade_to
grade_cups-IsGraded cups_status = elim (Bool-cases (cups_status == codes "enabled")) [
  | inl e ↦ rw e refl
  | inr e ↦ elim (Bool-cases (cups_status == codes "disabled")) [
    | inl f ↦ rw (e, f) refl
    | inr f ↦
        elim (Bool-cases (cups_status == codes "masked" || cups_status == codes "not-found")) [
          | inl k ↦ rw (e, f, k) refl
          | inr k ↦ rw (e, f, k) refl
        ]
  ]
]

grade_cups_browsed-IsGraded :
    (cups_status cups_browsed_status : Str) (g : Graders)
    → IsGraded g.graded
    → IsGraded (grade_cups_browsed cups_status cups_browsed_status g).graded
unfolding grade_cups_browsed
grade_cups_browsed-IsGraded cups_status browsed g h =
    elim (Bool-cases (browsed == codes "enabled")) [
      | inl e ↦ rw e (add_note-IsGraded fail _ g.graded h)
      | inr e ↦ elim (Bool-cases (browsed == codes "disabled")) [
        | inl f ↦ rw (e, f) (add_note-IsGraded warn _ g.graded h)
        | inr f ↦ elim (Bool-cases (browsed == codes "masked" || browsed == codes "not-found")) [
          | inl k ↦ rw (e, f, k) h
          | inr k ↦ rw (e, f, k) (add_note-IsGraded fail _ g.graded h)
        ]
      ]
    ]

print-IsGradedReport :
    (cups_status cups_browsed_status : Str)
    → IsGradedReport (print_report cups_status cups_browsed_status)
unfolding print_report
print-IsGradedReport cups_status browsed =
    grade_cups_browsed-IsGraded cups_status browsed (grade_cups cups_status)
      (grade_cups-IsGraded cups_status)

update_timer-IsGradedReport :
    (sys : Commands) (backend : BootcBackend) (conf : UpdatePolicy)
    → IsGradedReport (update_timer_report sys backend conf)
unfolding update_timer_report
update_timer-IsGradedReport sys composefs conf = (check_timer-IsGradedReport sys composefs).0
update_timer-IsGradedReport sys ostree conf =
    let (graded, known) = check_timer-IsGradedReport sys ostree in
    check_policy-IsGradedReport conf (check_timer sys ostree) graded known

-- The grade is that of the notes, and is not UNKNOWN.
abbrev Known : Graded × List Str → Type 0
Known found = IsGraded found.0 × (leb (value found.0.0) 3 ≡ true)

brew_step-Known :
    (unit : String) (enabled failed : Bool) (found : Graded × List Str)
    → Known found
    → Known (brew_step unit enabled failed found)
unfolding brew_step
brew_step-Known unit false failed ((status, notes), timers) (h, known) = (
  fail-of-known status known
      ∙ ap (λ s. downgrade_to s fail) h
      ∙ sym (worst-append notes fail (codes (unit <> ".timer") ++ codes " is not enabled.")),
  refl,
)
brew_step-Known unit true true ((status, notes), timers) (h, known) =
    (add_note-IsGraded warn _ (status, notes) h, downgrade-known status known)
brew_step-Known unit true false found h = h

brew_units-Known :
    (sys : Commands) (units : List String) (found : Graded × List Str)
    → Known found
    → Known (check_brew_units sys units found)
unfolding check_brew_units
brew_units-Known sys [] found h = h
brew_units-Known sys (unit ∷ rest) found h =
    brew_units-Known sys rest _ (brew_step-Known unit _ _ found h)

-- Whether all reports have the worst status of their notes
pub AllGraded : List Report → Type 0
AllGraded [] = Unit {0}
AllGraded (r ∷ rs) = IsGradedReport r × AllGraded rs

brew-IsGradedReport : (sys : Commands) → AllGraded (brew_update_reports sys)
unfolding brew_update_reports AllGraded
brew-IsGradedReport sys = elim (Bool-cases (sys.succeeds ("command" ∷ "-v" ∷ "brew" ∷ []))) [
  | inl e ↦ rw e (
    (brew_units-Known sys ("brew-update" ∷ "brew-upgrade" ∷ []) ((pass, []), []) (refl, refl)).0,
    tt,
  )
  | inr e ↦ rw e tt
]

-- The report on the global podman timer, where the check yields one
abbrev pub reported : Option Report → List Report
reported none = []
reported (some r) = r ∷ []

podman_global-IsGradedReport :
    (sys : Commands) (userns : Option Bool) → AllGraded (reported (podman_global_report sys userns))
unfolding podman_global_report AllGraded downgrade_to
podman_global-IsGradedReport sys none =
    elim (Bool-cases (
      sys.succeeds
        ("systemctl" ∷ "--global" ∷ "is-enabled" ∷ "--quiet" ∷ "podman-auto-update.timer" ∷ []))) [
          | inl e ↦ rw e tt
          | inr e ↦ rw e (refl, tt)
        ]
podman_global-IsGradedReport sys (some enabled) =
    elim (Bool-cases (
      sys.succeeds
        ("systemctl" ∷ "--global" ∷ "is-enabled" ∷ "--quiet" ∷ "podman-auto-update.timer" ∷ []))) [
          | inl e ↦ rw e (
            if-IsGradedReport _ _ _
                (with_note-IsGradedReport "Ensuring podman-auto-update.timer is enabled globally"
                  warn (codes "podman-auto-update.service has failed to run.") [])
                (report-IsGradedReport "Ensuring podman-auto-update.timer is enabled globally"),
            tt,
          )
          | inr e ↦ rw e (refl, tt)
        ]

flatpak-IsGradedReport : (sys : Commands) → AllGraded (flatpak_update_reports sys)
unfolding flatpak_update_reports AllGraded
flatpak-IsGradedReport sys = elim (Bool-cases (sys.succeeds ("command" ∷ "-v" ∷ "flatpak" ∷ []))) [
  | inl e ↦ rw e (flatpak_user-IsGradedReport sys, (flatpak_system-IsGradedReport sys, tt))
  | inr e ↦ rw e tt
]

-- Whatever systemctl answers, the status of every report on USBGuard, chronyd, the update timers of
-- the system, of podman, for the user and globally, of flatpak and of Homebrew, and the printing
-- services is the worst status among its notes.
pub services-AllGraded :
    (sys : Commands) (backend : BootcBackend) (conf : UpdatePolicy) (cups cups_browsed : Str)
    (userns : Option Bool)
    → AllGraded (
        usbguard_report sys
        ∷ chronyd_report sys
        ∷ update_timer_report sys backend conf
        ∷ podman_auto_update_report sys
        ∷ print_report cups cups_browsed
        ∷ [])
      × AllGraded (reported (podman_global_report sys userns))
      × AllGraded (flatpak_update_reports sys)
      × AllGraded (brew_update_reports sys)
unfolding AllGraded
services-AllGraded sys backend conf cups cups_browsed userns = (
  (
    usbguard-IsGradedReport sys,
    (
      chronyd-IsGradedReport sys,
      (
        update_timer-IsGradedReport sys backend conf,
        (podman-IsGradedReport sys, (print-IsGradedReport cups cups_browsed, tt)),
      ),
    ),
  ),
  podman_global-IsGradedReport sys userns,
  flatpak-IsGradedReport sys,
  brew-IsGradedReport sys,
)
