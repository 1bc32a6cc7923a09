-- ===== src/Checks/Flatpaks.antt =====
-- The check of the permissions of the installed flatpaks, of audit_secureblue.py.
use secureblue.Base.{Bool, if◌then◌else◌}
use secureblue.Base.{Option, none, some, List, [], ◌∷◌, ◌++◌}
use secureblue.Base.{◌==◌, nat_eq, string_eq, list_eq, list_beq}
use secureblue.Base.Exec.{Result, ok, err}
use secureblue.Base.{Str, codes, split_lines}
use secureblue.Base.Words.{split_on}
use secureblue.Auditor.Status.{Status}
use secureblue.Auditor.Report.{Note, Recommendation}
use secureblue.Checks.State.{AuditState, CheckError, key_error, value_error, called_process_error}
use secureblue.Checks.State.{Commands}
use secureblue.Flatpak.Permissions.{ParseError, parse_flatpak_permissions}
use secureblue.Flatpak.Filesystem.{check_flatpak_permissions}
use secureblue.Checks.Kernel.{text_leb}

-- The lines of two columns; `none` is the ValueError.
unfoldable pub flatpak_lines : List Str → Option (List (Str × Str))
unfolding split_on
flatpak_lines [] = some []
flatpak_lines (line ∷ rest) =
    let more = flatpak_lines rest in
    elim line [
      | [] ↦ more
      | c ∷ cs ↦ elim (split_on 9 (c ∷ cs)) [
        | name ∷ version ∷ [] ↦ elim more [ none ↦ none | some fs ↦ some ((name, version) ∷ fs) ]
        | _ ↦ none
      ]
    ]

-- The order of pairs of texts
unfoldable pub pair_leb : Str × Str → Str × Str → Bool
unfolding text_leb list_beq
pair_leb (a, b) (c, d) = if a == c then text_leb b d else text_leb a c

unfoldable pub insert_pair : Str × Str → List (Str × Str) → List (Str × Str)
unfolding pair_leb
insert_pair x [] = x ∷ []
insert_pair x (y ∷ ys) =
    let rest = insert_pair x ys in if pair_leb x y then x ∷ y ∷ ys else y ∷ rest

unfoldable pub sort_pairs : List (Str × Str) → List (Str × Str)
unfolding insert_pair
sort_pairs [] = []
sort_pairs (x ∷ xs) = insert_pair x (sort_pairs xs)

unfoldable pub display_name : Str → Str → Str
unfolding list_beq
display_name name version =
    if version == codes "stable" then name else name ++ (codes " (" ++ (version ++ codes ")"))

-- The report of an app, with the text that follows "Auditing ".
pub record FlatpakReport : Type 0 where
  pub app : Str
  pub status : Status
  pub notes : List Note
  pub recs : List Recommendation

pub record FlatpakRun : Type 0 where
  pub yielded : List FlatpakReport
  pub failure : Option CheckError

-- The parser's exception, as the check sees it
unfoldable pub parse_failure : ParseError → CheckError
parse_failure ParseError.value_error = value_error
parse_failure ParseError.key_error = key_error

-- One turn of the loop: the output of the task, the permissions, and the two entries of the state,
-- in the order in which the code reads them.
unfoldable pub flatpak_report :
    (Str → Str → Option Str) → AuditState → Str → Str → Result CheckError FlatpakReport
unfolding parse_failure
flatpak_report permissions_of s name version = elim (permissions_of name version) [
  | none ↦ err called_process_error
  | some perms_text ↦ elim (parse_flatpak_permissions perms_text) [
    | err e ↦ err (parse_failure e)
    | ok perms ↦ elim s.bluetooth_loaded [
      | none ↦ err key_error
      | some bluetooth_loaded ↦ elim s.ptrace_allowed [
        | none ↦ err key_error
        | some ptrace_allowed ↦
            let f = check_flatpak_permissions name perms bluetooth_loaded ptrace_allowed in
            ok (record {
              app = display_name name version;
              status = f.status;
              notes = f.notes;
              recs = f.recs;
            })
      ]
    ]
  ]
]

-- The loop, which the first error leaves.
unfoldable pub flatpak_reports :
    (Str → Str → Option Str) → AuditState → List (Str × Str) → FlatpakRun
flatpak_reports permissions_of s [] = record { yielded = []; failure = none }
flatpak_reports permissions_of s ((name, version) ∷ rest) =
    let more = flatpak_reports permissions_of s rest in
    elim (flatpak_report permissions_of s name version) [
      | err e ↦ record { yielded = []; failure = some e }
      | ok r ↦ record { yielded = r ∷ more.yielded; failure = more.failure }
    ]

-- `permissions_of` is what `get_flatpak_permissions` prints of an app.
unfoldable pub audit_flatpak_permissions :
    Commands → (Str → Str → Option Str) → AuditState → FlatpakRun
unfolding flatpak_lines sort_pairs flatpak_reports split_lines
audit_flatpak_permissions sys permissions_of s =
    if sys.succeeds ("command" ∷ "-v" ∷ "flatpak" ∷ [])
    then elim (sys.stdout ("flatpak" ∷ "list" ∷ "--app" ∷ "--columns=application,branch" ∷ [])) [
      | none ↦ record { yielded = []; failure = some called_process_error }
      | some out ↦ elim (flatpak_lines (split_lines out)) [
        | none ↦ record { yielded = []; failure = some value_error }
        | some flatpaks ↦ flatpak_reports permissions_of s (sort_pairs flatpaks)
      ]
    ]
    else record { yielded = []; failure = none }
