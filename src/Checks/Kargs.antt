-- ===== src/Checks/Kargs.antt =====
-- The check of the kernel arguments, audit_kargs of audit_secureblue.py.
use secureblue.Base.{Bool, true, false, if◌then◌else◌}
use secureblue.Base.{Option, none, some, List, [], ◌∷◌, ◌++◌}
use secureblue.Base.{◌==◌, nat_eq, string_eq, list_eq, list_beq}
use secureblue.Base.Dict
use secureblue.Base.Dict.{Dict}
use secureblue.Base.Exec.{Result, ok, err}
use secureblue.Base.{Str, codes, join}
use secureblue.Auditor.Status.{Status, pass, warn, fail, downgrade_to}
use secureblue.Auditor.Report.{Note}
use secureblue.Checks.State.{value_error}
use secureblue.Checks.State.{note, rec_of, report}
use secureblue.Checks.State.{AuditCheck, yields, raises}
use secureblue.Checks.State.{is_pass}
use secureblue.Utils.KernelCmdline.{Kargs, parse_karg}
use secureblue.Kargs.Build.{disable_32_bit_karg, force_nosmt, unstable_kargs}

-- An expected argument, how bad its absence is, and a comment.
abbrev pub Expected : Type 0
Expected = Dict Str (Status × Option Str)

unfoldable pub from_keys : List Str → Status × Option Str → Expected → Expected
unfolding Dict.insert list_beq
from_keys [] v d = d
from_keys (k ∷ ks) v d = from_keys ks v (Dict.insert k v d)

unfoldable pub kargs_expected : List Str → Expected
kargs_expected default_kargs =
    from_keys unstable_kargs (warn, some (codes "unstable"))
      (Dict.insert force_nosmt (warn, some (codes "force-disable SMT"))
        (Dict.insert disable_32_bit_karg (warn, some (codes "32-bit support"))
          (from_keys default_kargs (fail, none) [])))

-- `key in kargs_active and kargs_active[key] == value`
unfoldable pub same_value : Option Str → Option Str → Bool
unfolding list_beq
same_value none none = true
same_value (some a) (some b) = a == b
same_value _ _ = false

unfoldable pub is_active : Kargs → Str → Bool
unfolding parse_karg Dict.lookup same_value list_beq
is_active kargs_active karg =
    let (key, value) = parse_karg karg in
    elim (Dict.lookup key kargs_active) [ none ↦ false | some v ↦ same_value v value ]

unfoldable pub karg_note : Str → Status × Option Str → Note
karg_note karg (severity, none) = note severity (codes "Missing kernel argument: " ++ karg)
karg_note karg (severity, some comment) =
    note severity (codes "Missing kernel argument (" ++ (comment ++ (codes "): " ++ karg)))

unfoldable pub karg_step :
    Bool → Str → Status × Option Str → Status × List Note → Status × List Note
unfolding karg_note downgrade_to
karg_step true karg expected found = found
karg_step false karg (severity, comment) (status, notes) =
    (downgrade_to status severity, notes ++ (karg_note karg (severity, comment) ∷ []))

unfoldable pub check_kargs : Kargs → Expected → Status × List Note → Status × List Note
unfolding is_active karg_step
check_kargs kargs_active [] found = found
check_kargs kargs_active ((karg, expected) ∷ rest) found =
    check_kargs kargs_active rest (karg_step (is_active kargs_active karg) karg expected found)

-- Over the parsed command line; the ValueError of the parser leaves the check.
unfoldable pub audit_kargs : {E : Type 0} → List Str → Result E Kargs → AuditCheck
unfolding kargs_expected check_kargs is_pass join
audit_kargs default_kargs (err e) = raises value_error
audit_kargs default_kargs (ok kargs_active) =
    let (status, notes) = check_kargs kargs_active (kargs_expected default_kargs) (pass, []) in
    yields (
      report "Checking for hardened kernel arguments" status notes (
        if is_pass status
        then []
        else rec_of (
            codes "To set hardened kernel arguments, run:"
            ∷ codes "$ ujust set-kargs-hardening"
            ∷ []))
      ∷ [])
