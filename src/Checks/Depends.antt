-- ===== src/Checks/Depends.antt =====
-- The entries of the state that a check reads are there once the checks it depends on have run.
use secureblue.Base.{arith}
use secureblue.Base.{◌≡◌, refl, ap, ◌∙◌, inl, inr}
use secureblue.Base.{Bool, true, false, not, Bool-cases}
use secureblue.Base.{Option, none, some, List, [], ◌∷◌}
use secureblue.Base.{◌==◌, nat_eq, string_eq, list_eq}
use secureblue.Base.Exec.{ok, err}
use secureblue.Base.{any, Str, codes, split_lines}
use secureblue.Checks.State.{AuditState, CheckError, key_error}
use secureblue.Checks.State.{Commands}
use secureblue.Checks.State.{AuditCheck}
use secureblue.Base.{Option-cases}
use secureblue.Base.Exec.{Result-cases, err-injective}
use mathlib.Core.Option.{some-injective}
use secureblue.Flatpak.Permissions.{ParseError, parse_flatpak_permissions}
use secureblue.Flatpak.Sections.{stray_key, parse_flatpak_permissions-stray_key}
use secureblue.Auditor.Check.{generate}
use secureblue.Selinux.Ptrace.{
  PtraceStatus, disabled, admin_only, container_only, restricted, unrestricted,
}
use secureblue.Checks.State.{is_pass}
use secureblue.Checks.Containers.{
  audit_container_userns, judge_ptrace, ptrace_report, ptrace_finding, audit_ptrace,
}
use secureblue.Checks.Services.{podman_global_report, audit_podman_global_auto_update}
use secureblue.Checks.Flatpaks.{parse_failure, flatpak_report, flatpak_reports}

-- What a check leaves behind in the state
abbrev pub state_after : AuditCheck → AuditState → AuditState
state_after c s = (generate c s).state

abbrev pub failure_of : AuditCheck → AuditState → Option CheckError
failure_of c s = (generate c s).failure

abbrev pub is_disabled : PtraceStatus → Bool
is_disabled disabled = true
is_disabled _ = false

userns-sets :
    (sys : Commands) (s : AuditState)
    → failure_of (audit_container_userns sys) s ≡ none
    → (b : Bool) × ((state_after (audit_container_userns sys) s).container_userns_enabled ≡ some b)
unfolding audit_container_userns generate
userns-sets sys s h =
    elim (Option-cases (sys.stdout ("ujust" ∷ "set-container-userns" ∷ "status" ∷ []))) [
      | inl e ↦ let no_way = rw e at h in ground (arith, no_way)
      | inr (out, e) ↦ (not (out == codes "disabled"), rw e refl)
    ]

ptrace-of_userns :
    (p : PtraceStatus) (s : AuditState) (b : Bool)
    → s.container_userns_enabled ≡ some b
    → (failure_of (audit_ptrace (ok p)) s ≡ none)
      × ((state_after (audit_ptrace (ok p)) s).ptrace_allowed ≡ some (not (is_disabled p)))
unfolding audit_ptrace generate judge_ptrace ptrace_report ptrace_finding is_pass
ptrace-of_userns disabled s b h = (refl, refl)
ptrace-of_userns unrestricted s b h = (refl, refl)
ptrace-of_userns restricted s b h = (refl, refl)
ptrace-of_userns admin_only s b h = (refl, refl)
ptrace-of_userns container_only s true h = rw h (refl, refl)
ptrace-of_userns container_only s false h = rw h (refl, refl)

podman-of_userns :
    (sys : Commands) (s : AuditState) (b : Bool)
    → s.container_userns_enabled ≡ some b
    → failure_of (audit_podman_global_auto_update sys) s ≡ none
unfolding audit_podman_global_auto_update generate podman_global_report
podman-of_userns sys s b h =
    elim (Bool-cases (
      sys.succeeds
        ("systemctl" ∷ "--global" ∷ "is-enabled" ∷ "--quiet" ∷ "podman-auto-update.timer" ∷ []))) [
          | inl e ↦ rw (e, h) refl
          | inr e ↦ rw e refl
        ]

-- Once the check of container user namespaces has run without a failure, the checks of ptrace and of
-- the global podman updates find the entry they read; and the check of ptrace records that ptrace is
-- allowed unless its status is `disabled`.
pub depends_on-userns :
    (sys : Commands) (p : PtraceStatus) (s : AuditState)
    → failure_of (audit_container_userns sys) s ≡ none
    → (failure_of (audit_ptrace (ok p)) (state_after (audit_container_userns sys) s) ≡ none)
      × ((state_after
            (audit_ptrace (ok p))
            (state_after (audit_container_userns sys) s)).ptrace_allowed
          ≡ some (not (is_disabled p)))
      × (failure_of
            (audit_podman_global_auto_update sys)
            (state_after (audit_container_userns sys) s)
          ≡ none)
depends_on-userns sys p s h =
    let t = state_after (audit_container_userns sys) s in
    let (b, e) = userns-sets sys s h in
    let (fine, allowed) = ptrace-of_userns p t b e in (fine, allowed, podman-of_userns sys t b e)

-- A key stands before the first section of what is printed of the app.
abbrev has_stray_key : Option Str → Bool
has_stray_key none = false
has_stray_key (some perms_text) = stray_key (split_lines perms_text)

abbrev pub app_stray_key : (Str → Str → Option Str) → Str × Str → Bool
app_stray_key permissions_of (name, version) = has_stray_key (permissions_of name version)

parse_failure-key_error : (e : ParseError) → parse_failure e ≡ key_error → e ≡ ParseError.key_error
unfolding parse_failure
parse_failure-key_error ParseError.value_error h = ground (arith, h)
parse_failure-key_error ParseError.key_error h = refl

flatpak_report-key_error :
    (permissions_of : Str → Str → Option Str) (s : AuditState) (b p : Bool) (name version : Str)
    → s.bluetooth_loaded ≡ some b
    → s.ptrace_allowed ≡ some p
    → flatpak_report permissions_of s name version ≡ err key_error
    → app_stray_key permissions_of (name, version) ≡ true
unfolding flatpak_report
flatpak_report-key_error permissions_of s b p name version hb hp h =
    elim (Option-cases (permissions_of name version)) [
      | inl e ↦ let no_way = rw (e, flatpak_report) at h in ground (arith, no_way)
      | inr (text, e) ↦ elim (Result-cases (parse_flatpak_permissions text)) [
        | inl (x, f) ↦
            let same : err (parse_failure x) ≡ err key_error = rw (e, f, flatpak_report) at h in
            ap has_stray_key e
            ∙ parse_flatpak_permissions-stray_key text
                (f ∙ ap err (parse_failure-key_error x (err-injective _ _ same)))
        | inr (perms, f) ↦
            let no_way = rw (e, f, hb, hp, flatpak_report) at h in ground (arith, no_way)
      ]
    ]

-- With the entries of audit_modprobe and of audit_ptrace, the reports on the flatpaks end in a
-- KeyError only if, in what is printed of one of the apps, the first line that is neither blank
-- nor a comment is no header of a section and has a `=`.
pub flatpak_reports-key_error :
    (permissions_of : Str → Str → Option Str) (s : AuditState) (b p : Bool)
    (flatpaks : List (Str × Str))
    → s.bluetooth_loaded ≡ some b
    → s.ptrace_allowed ≡ some p
    → (flatpak_reports permissions_of s flatpaks).failure ≡ some key_error
    → any (app_stray_key permissions_of) flatpaks ≡ true
unfolding flatpak_reports any
flatpak_reports-key_error permissions_of s b p [] hb hp h = ground (arith, h)
flatpak_reports-key_error permissions_of s b p ((name, version) ∷ rest) hb hp h =
    elim (Result-cases (flatpak_report permissions_of s name version)) [
      | inl (e, f) ↦
          let same : some e ≡ some key_error = rw (f, flatpak_reports) at h in
          let stray =
            flatpak_report-key_error permissions_of s b p name version hb hp
              (f ∙ ap err (some-injective e key_error same)) in
          ground (arith, stray)
      | inr (r, f) ↦
          let later =
            flatpak_reports-key_error permissions_of s b p rest hb hp
              (rw (f, flatpak_reports) at h) in
          ground (arith, later)
    ]
