-- ===== src/Checks/SysctlPass.antt =====
-- When the check of the sysctls passes.
use secureblue.Base.{arith}
use secureblue.Base.{◌≡◌, refl, sym, ap, ◌∙◌, inl, inr}
use secureblue.Base.{Bool, true, false, not, ◌&&◌, Bool-cases}
use secureblue.Base.{Option, none, some, List, [], ◌∷◌}
use secureblue.Base.{◌==◌, nat_eq, string_eq, list_eq}
use secureblue.Base.{all}
use secureblue.Base.Dict.{Dict}
use secureblue.Base.{Str, codes}
use secureblue.Auditor.Status.{Status, pass, info, downgrade_to}
use secureblue.Checks.State.{AuditState}
use secureblue.Base.{Option-cases}
use secureblue.Utils.Config.{parse_config}
use secureblue.Auditor.Check.{generate}
use secureblue.Checks.State.{is_pass, OnePasses, OnePasses-one}
use secureblue.Checks.Sysctl.{
  normalize_sysctl, validate_sysctl, Read, refused, content, SysctlRun, check_paths, check_sysctls,
  sysctl_check, audit_sysctl,
}
use mathlib.Core.Option.{some-injective}

-- The value that is read is the one of a kernel fault.
abbrev pub is_fault : Str → Str → Bool
is_fault sysctl actual = sysctl == codes "kernel.printk" && actual == codes "15 3 3 3"

abbrev is_some_true : Option Bool → Bool
is_some_true (some b) = b
is_some_true none = false

-- What is read at a path is as good as expected.
abbrev pub read_ok : Str → Str → Read → Bool
read_ok sysctl expected refused = false
read_ok sysctl expected (content text) =
    not (is_fault sysctl (normalize_sysctl text))
    && is_some_true (validate_sysctl sysctl (normalize_sysctl text) expected)

is_pass-info : (s : Status) → is_pass (downgrade_to s info) ≡ false
unfolding is_pass downgrade_to
is_pass-info s = ground arith

abbrev passes : SysctlRun → Bool
passes r = is_pass r.status

is_pass-check_paths :
    (sysctl expected : Str) (reads : List Read) (r t : SysctlRun)
    → check_paths sysctl expected reads r ≡ some t
    → is_pass t.status ≡ (is_pass r.status && all (read_ok sysctl expected) reads)
unfolding check_paths all
is_pass-check_paths sysctl expected [] r t h = rw⁻¹ (some-injective r t h) (ground arith)
is_pass-check_paths sysctl expected (refused ∷ rest) r t h =
    is_pass-check_paths sysctl expected rest _ t h ∙ ground (arith, is_pass-info r.status)
is_pass-check_paths sysctl expected (content text ∷ rest) r t h =
    elim (Bool-cases (is_fault sysctl (normalize_sysctl text))) [
      | inl e ↦
          let out = rw (e, check_paths) at h in
          ap passes (sym (some-injective _ t out)) ∙ unfold is_pass in rw e (ground arith)
      | inr e ↦ elim (Option-cases (validate_sysctl sysctl (normalize_sysctl text) expected)) [
        | inl f ↦ let no_way = rw (e, f, check_paths) at h in ground (arith, no_way)
        | inr (true, f) ↦
            is_pass-check_paths sysctl expected rest r t (rw (e, f, check_paths) at h)
            ∙ rw (e, f) (ground arith)
        | inr (false, f) ↦
            let out = rw (e, f, check_paths) at h in
            ap passes (sym (some-injective _ t out)) ∙ unfold is_pass in rw (e, f) (ground arith)
      ]
    ]

-- All that is read of the expected sysctls is as good as expected.
abbrev pub reads_ok : (Str → List Read) → Dict Str Str → Bool
reads_ok reads expected = all (λ (e : Str × Str). all (read_ok e.0 e.1) (reads e.0)) expected

is_pass-check_sysctls :
    (reads : Str → List Read) (expected : Dict Str Str) (r t : SysctlRun)
    → check_sysctls reads expected r ≡ some t
    → is_pass t.status ≡ (is_pass r.status && reads_ok reads expected)
unfolding check_sysctls all
is_pass-check_sysctls reads [] r t h = ap passes (sym (some-injective r t h)) ∙ ground arith
is_pass-check_sysctls reads ((sysctl, e) ∷ rest) r t h =
    elim (Option-cases (check_paths sysctl e (reads sysctl) r)) [
      | inl f ↦ let no_way = rw (f, check_sysctls) at h in ground (arith, no_way)
      | inr (u, f) ↦
          is_pass-check_sysctls reads rest u t (rw (f, check_sysctls) at h)
          ∙ rw (is_pass-check_paths sysctl e (reads sysctl) r u f) (ground arith)
    ]

sysctl_check-passes :
    (o : Option SysctlRun) (s : AuditState)
    → (generate (sysctl_check o) s).failure ≡ none
    → (r : SysctlRun) × (o ≡ some r)
      × OnePasses (generate (sysctl_check o) s).yielded (is_pass r.status)
unfolding sysctl_check generate
sysctl_check-passes none s h = ground (arith, h)
sysctl_check-passes (some r) s h = (r, refl, OnePasses-one _ _ refl)

-- When no value that must be a number is malformed, the check of the sysctls yields one report, and
-- its status is PASS exactly when every value of every expected sysctl can be read, is no sign of a
-- kernel fault, and is valid.
pub audit_sysctl-passes :
    (reads : Str → List Read) (conf : List Str) (s : AuditState)
    → (generate (audit_sysctl reads conf) s).failure ≡ none
    → OnePasses
        (generate (audit_sysctl reads conf) s).yielded
        (reads_ok reads (parse_config b'=' conf))
unfolding audit_sysctl
audit_sysctl-passes reads conf s h =
    let expected = parse_config b'=' conf in
    let start : SysctlRun = record { status = pass; notes = []; refused_any = false } in
    let (r, e, same) = sysctl_check-passes (check_sysctls reads expected start) s h in
    let graded : is_pass r.status ≡ reads_ok reads expected =
      is_pass-check_sysctls reads expected start r e ∙ unfold is_pass in ground arith in
    (same.0, same.1, same.2 ∙ graded)
