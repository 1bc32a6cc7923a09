-- ===== src/Checks/KargsPass.antt =====
-- When the checks of the kernel arguments and of the sysctls pass.
use secureblue.Base.{arith}
use secureblue.Base.{◌≡◌, refl, ap, ◌∙◌, inl, inr}
use secureblue.Base.{Bool, true, false, not, ◌&&◌, Bool-cases}
use secureblue.Base.{Option, none, some, List, [], ◌∷◌, ◌++◌}
use secureblue.Base.{◌==◌, nat_eq, string_eq, list_eq}
use secureblue.Base.{all}
use secureblue.Base.Dict
use secureblue.Base.Dict.{Dict}
use secureblue.Base.Exec.{ok}
use secureblue.Base.{Str, codes}
use secureblue.Auditor.Status.{Status, pass, warn, fail, downgrade_to}
use secureblue.Auditor.Report.{Note}
use secureblue.Checks.State.{AuditState}
use secureblue.Base.{all-append}
use secureblue.Auditor.Check.{generate}
use secureblue.Utils.KernelCmdline.{Kargs}
use secureblue.Kargs.Build.{disable_32_bit_karg, force_nosmt, unstable_kargs}
use secureblue.Checks.State.{is_pass, OnePasses, OnePasses-one}
use secureblue.Checks.Kargs.{
  Expected, from_keys, kargs_expected, is_active, karg_step, check_kargs, audit_kargs,
}

-- A property of all keys
abbrev all_keys : (Str → Bool) → Expected → Bool
all_keys q d = all (λ (e : Str × (Status × Option Str)). q e.0) d

-- All entries are worse than PASS.
abbrev all_severe : Expected → Bool
all_severe d = all (λ (e : Str × (Status × Option Str)). not (is_pass e.1.0)) d

all_keys-insert :
    (q : Str → Bool) (k : Str) (v : Status × Option Str) (d : Expected)
    → all_keys q (Dict.insert k v d) ≡ (q k && all_keys q d)
unfolding all Dict.insert
all_keys-insert q k v [] = refl
all_keys-insert q k v ((k', v') ∷ d) = elim (Bool-cases (k == k')) [
  | inl e ↦ rw e (let same : q k ≡ q k' = ap q ((list_eq.beq_iff k k').0 e) in ground (arith, same))
  | inr e ↦ rw e (ground (arith, all_keys-insert q k v d))
]

all_severe-insert :
    (k : Str) (v : Status × Option Str) (d : Expected)
    → is_pass v.0 ≡ false
    → all_severe d ≡ true
    → all_severe (Dict.insert k v d) ≡ true
unfolding all Dict.insert
all_severe-insert k v [] h g = ground (arith, h)
all_severe-insert k v ((k', v') ∷ d) h g = elim (Bool-cases (k == k')) [
  | inl e ↦ rw e (ground (arith, h, g))
  | inr e ↦ rw e (ground (arith, h, g, all_severe-insert k v d h))
]

all_keys-from_keys :
    (q : Str → Bool) (ks : List Str) (v : Status × Option Str) (d : Expected)
    → all_keys q (from_keys ks v d) ≡ (all q ks && all_keys q d)
unfolding all from_keys
all_keys-from_keys q [] v d = refl
all_keys-from_keys q (k ∷ ks) v d =
    all_keys-from_keys q ks v (Dict.insert k v d) ∙ rw (all_keys-insert q k v d) (ground arith)

all_severe-from_keys :
    (ks : List Str) (v : Status × Option Str) (d : Expected)
    → is_pass v.0 ≡ false
    → all_severe d ≡ true
    → all_severe (from_keys ks v d) ≡ true
unfolding from_keys
all_severe-from_keys [] v d h g = g
all_severe-from_keys (k ∷ ks) v d h g =
    all_severe-from_keys ks v (Dict.insert k v d) h (all_severe-insert k v d h g)

is_pass-downgrade_to : (s t : Status) → is_pass t ≡ false → is_pass (downgrade_to s t) ≡ false
unfolding is_pass downgrade_to
is_pass-downgrade_to s t h = ground arith

is_pass-karg_step :
    (b : Bool) (karg : Str) (expected : Status × Option Str) (found : Status × List Note)
    → is_pass expected.0 ≡ false
    → is_pass (karg_step b karg expected found).0 ≡ (is_pass found.0 && b)
unfolding karg_step
is_pass-karg_step true karg expected found h = ground arith
is_pass-karg_step false karg (severity, comment) (status, notes) h =
    is_pass-downgrade_to status severity h ∙ ground arith

is_pass-check_kargs :
    (active : Kargs) (expected : Expected) (found : Status × List Note)
    → all_severe expected ≡ true
    → is_pass (check_kargs active expected found).0
      ≡ (is_pass found.0 && all_keys (is_active active) expected)
unfolding check_kargs all
is_pass-check_kargs active [] found h = ground arith
is_pass-check_kargs active ((karg, e) ∷ rest) found h =
    is_pass-check_kargs active rest _ (ground (arith, h))
    ∙ rw (is_pass-karg_step (is_active active karg) karg e found (ground (arith, h))) (ground arith)

-- The arguments whose absence the check reports
abbrev pub checked_kargs : List Str → List Str
checked_kargs default_kargs = unstable_kargs ++ (force_nosmt ∷ disable_32_bit_karg ∷ default_kargs)

all_severe-kargs_expected :
    (default_kargs : List Str) → all_severe (kargs_expected default_kargs) ≡ true
unfolding kargs_expected is_pass
all_severe-kargs_expected default_kargs = all_severe-from_keys unstable_kargs _ _ refl (
    all_severe-insert force_nosmt _ _ refl (
      all_severe-insert disable_32_bit_karg _ _ refl
        (all_severe-from_keys default_kargs _ [] refl (unfold all in refl))))

all_keys-kargs_expected :
    (q : Str → Bool) (default_kargs : List Str)
    → all_keys q (kargs_expected default_kargs) ≡ all q (checked_kargs default_kargs)
unfolding kargs_expected
all_keys-kargs_expected q default_kargs =
    rw
      (
        all_keys-from_keys q unstable_kargs (warn, some (codes "unstable"))
            (Dict.insert force_nosmt (warn, some (codes "force-disable SMT"))
              (Dict.insert disable_32_bit_karg (warn, some (codes "32-bit support"))
                (from_keys default_kargs (fail, none) []))),
        all_keys-insert q force_nosmt (warn, some (codes "force-disable SMT"))
            (Dict.insert disable_32_bit_karg (warn, some (codes "32-bit support"))
              (from_keys default_kargs (fail, none) [])),
        all_keys-insert q disable_32_bit_karg (warn, some (codes "32-bit support"))
            (from_keys default_kargs (fail, none) []),
        all_keys-from_keys q default_kargs (fail, none) [],
        all-append q unstable_kargs (force_nosmt ∷ disable_32_bit_karg ∷ default_kargs),
      )
      (unfold all in ground arith)

-- On a command line that is parsed, the check of the kernel arguments raises nothing and yields one
-- report, whose status is PASS exactly when every default argument, and each of the optional ones, is
-- active with the value that is expected.
pub audit_kargs-passes :
    (E : Type 0) (default_kargs : List Str) (active : Kargs) (s : AuditState)
    → ((generate (audit_kargs {E = E} default_kargs (ok active)) s).failure ≡ none)
      × OnePasses
          (generate (audit_kargs {E = E} default_kargs (ok active)) s).yielded
          (all (is_active active) (checked_kargs default_kargs))
unfolding audit_kargs generate
audit_kargs-passes E default_kargs active s =
    let passes =
      is_pass-check_kargs active (kargs_expected default_kargs) (pass, [])
        (all_severe-kargs_expected default_kargs) in
    let keys = all_keys-kargs_expected (is_active active) default_kargs in
    (refl, OnePasses-one _ _ (passes ∙ unfold is_pass in rw keys (ground arith)))
