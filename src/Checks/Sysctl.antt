-- ===== src/Checks/Sysctl.antt =====
-- The check of the sysctls, audit_sysctl of audit_secureblue.py, with the helpers of audit_utils/__init__.py.
use secureblue.Base.{ℕ, zero, suc, ◌+◌, ◌-◌, ◌*◌}
use secureblue.Base.{Bool, true, false, ◌&&◌, ◌||◌, if◌then◌else◌, leb}
use secureblue.Base.{Option, none, some, List, [], ◌∷◌, ◌++◌}
use secureblue.Base.{◌==◌, nat_eq, string_eq, list_eq, list_beq}
use secureblue.Base.Dict.{Dict}
use secureblue.Base.{Str, codes, join, strip}
use mathlib.Core.Option
use secureblue.Base.Words.{words}
use secureblue.Auditor.Status.{Status, pass, info, warn, fail, downgrade_to}
use secureblue.Auditor.Report.{Note}
use secureblue.Checks.State.{value_error}
use secureblue.Checks.State.{note, report}
use secureblue.Checks.State.{AuditCheck, yields, raises}
use secureblue.Utils.Config.{parse_config}

-- `re.sub(r"\s+", " ", sysctl.strip())` and the two words that stand for numbers
unfoldable pub normalize_sysctl : Str → Str
unfolding join words list_beq
normalize_sysctl sysctl =
    let result = join (32 ∷ []) (words sysctl) in
    if result == codes "disabled"
    then codes "0"
    else if result == codes "enabled"
    then codes "1"
    else result

-- Decimal digits; a single `_` may stand between two of them.
unfoldable pub int_digits : Bool → ℕ → Str → Option ℕ
int_digits after_digit n [] = if after_digit then some n else none
int_digits after_digit n (c ∷ s) = elim (leb b'0' c && leb c b'9') [
  | true ↦ int_digits true (10 * n + (c - b'0')) s
  | false ↦ elim (after_digit && c == b'_') [ true ↦ int_digits false n s | false ↦ none ]
]

-- `negsuc n` is -(n + 1).
pub data ℤ : Type 0 where
  pos : ℕ → ℤ
  negsuc : ℕ → ℤ

unfoldable pub negate : ℕ → ℤ
negate zero = pos 0
negate (suc n) = negsuc n

-- `a <= b`
unfoldable pub int_leb : ℤ → ℤ → Bool
int_leb (pos a) (pos b) = leb a b
int_leb (pos a) (negsuc b) = false
int_leb (negsuc a) (pos b) = true
int_leb (negsuc a) (negsuc b) = leb b a

unfoldable pub signed : Str → Option ℤ
unfolding int_digits negate
signed [] = none
signed (c ∷ s) =
    if c == b'-'
    then Option.map negate (int_digits false 0 s)
    else if c == b'+'
    then Option.map pos (int_digits false 0 s)
    else Option.map pos (int_digits false 0 (c ∷ s))

-- `int(s)`; `none` is the ValueError.
unfoldable pub int_of : Str → Option ℤ
unfolding signed strip
int_of s = signed (strip s)

unfoldable pub validate_sysctl : Str → Str → Str → Option Bool
unfolding int_of int_leb list_beq
validate_sysctl sysctl actual expected =
    if sysctl == codes "kernel.sysrq"
    then some (actual == expected || (actual == codes "0" || actual == codes "4"))
    else if sysctl == codes "kernel.yama.ptrace_scope"
    then elim (int_of actual) [
      | none ↦ none
      | some a ↦ elim (int_of expected) [ none ↦ none | some e ↦ some (int_leb e a) ]
    ]
    else some (actual == expected)

-- What reading one path of a sysctl comes to.
pub data Read : Type 0 where
  refused : Read
  content : Str → Read

pub record SysctlRun : Type 0 where
  pub status : Status
  pub notes : List Note
  pub refused_any : Bool

unfoldable pub differs : Str → Str → Str → Str
differs sysctl expected actual =
    sysctl
    ++ (codes " should be " ++ (expected ++ (codes ", but is actually " ++ (actual ++ codes "."))))

-- The inner loop, over the paths of one sysctl; `none` is the ValueError of `int`.
unfoldable pub check_paths : Str → Str → List Read → SysctlRun → Option SysctlRun
unfolding normalize_sysctl validate_sysctl differs downgrade_to join list_beq
check_paths sysctl expected [] r = some r
check_paths sysctl expected (refused ∷ rest) r =
    check_paths sysctl expected rest
      (record r { status = downgrade_to r.status info; refused_any = true })
check_paths sysctl expected (content text ∷ rest) r =
    let actual = normalize_sysctl text in
    let next = check_paths sysctl expected rest r in
    if sysctl == codes "kernel.printk" && actual == codes "15 3 3 3"
    then some (record r {
      status = warn;
      notes =
          r.notes
          ++ (note warn (
                differs sysctl expected actual
                ++ (10
                    ∷ codes
                        "This is likely due to a kernel fault, as documented in `man 2 syslog`."))
              ∷ []);
    })
    else elim (validate_sysctl sysctl actual expected) [
      | none ↦ none
      | some true ↦ next
      | some false ↦ some (record r {
        status = fail;
        notes = r.notes ++ (note fail (differs sysctl expected actual) ∷ []);
      })
    ]

-- `reads` gives what is read at the paths that the name stands for.
unfoldable pub check_sysctls : (Str → List Read) → Dict Str Str → SysctlRun → Option SysctlRun
check_sysctls reads [] r = some r
check_sysctls reads ((sysctl, expected) ∷ rest) r =
    elim (check_paths sysctl expected (reads sysctl) r) [
      | none ↦ none
      | some r' ↦ check_sysctls reads rest r'
    ]

-- What follows the loops; `none` is their ValueError.
unfoldable pub sysctl_check : Option SysctlRun → AuditCheck
sysctl_check none = raises value_error
sysctl_check (some r) = yields (
    report "Ensuring no sysctl overrides" r.status
      (r.notes
        ++ (if r.refused_any
            then note info (codes "Unable to read some sysctl settings. Run as root for full info.")
              ∷ []
            else []))
      []
    ∷ [])

unfoldable pub audit_sysctl : (Str → List Read) → List Str → AuditCheck
unfolding sysctl_check
audit_sysctl reads conf = sysctl_check (
    check_sysctls reads (parse_config b'=' conf)
      (record { status = pass; notes = []; refused_any = false }))
