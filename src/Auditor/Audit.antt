-- ===== src/Auditor/Audit.antt =====
-- `Audit`: the queue of checks, its configuration and its two runs.
use secureblue.Base.{Bool, false, ◌||◌, if◌then◌else◌}
use secureblue.Base.{Option, none, some, List, [], ◌∷◌, ◌++◌, String}
use secureblue.Base.{nat_eq, string_eq, list_eq, contains}
use secureblue.Base.{any}
use secureblue.Base.Dict.{Dict}
use secureblue.Base.Exec.{Result, ok, err, Exec, pure, raise, or_raise, ◌>>=◌, ◌>>◌, modify}
use secureblue.Auditor.Status.{Status}
use secureblue.Auditor.Report.{Report, Recommendation}
use secureblue.Auditor.Check
use secureblue.Auditor.Check.{Check}

pub record Audit (S E : Type 0) : Type 0 where
  pub checks : List (Check S E)
  pub state : S
  pub recs : List Recommendation
  pub categories : List String
  pub skip : List String
  pub expected : Dict String Status

-- DependencyError: the check, and the dependency that it lacks.
pub data DependencyError : Type 0 where
  requires : String → String → DependencyError

-- The values of a TOML file that `configure_from_file` looks at.
pub data Entry {ℓ} (A : Type ℓ) : Type ℓ where
  absent malformed : Entry A
  given : A → Entry A

pub data ConfigError : Type 0 where
  skip_not_a_list expected_not_a_table bad_status file_not_found : ConfigError

-- The intersection of two sets is not empty.
unfoldable pub meets : List String → List String → Bool
unfolding any contains
meets xs ys = any (contains ys) xs

-- The union of two sets.
unfoldable pub union : List String → List String → List String
unfolding contains
union xs [] = xs
union xs (y ∷ ys) = union (if contains xs y then xs else xs ++ (y ∷ [])) ys

unfoldable pub first_missing : List String → List String → Option String
unfolding contains
first_missing names [] = none
first_missing names (d ∷ ds) =
    let rest = first_missing names ds in if contains names d then rest else some d

-- The statuses of the table, each through `Status.from_str`.
unfoldable pub parse_expected :
    (String → Option Status) → Dict String String → Option (Dict String Status)
parse_expected from_str [] = some []
parse_expected from_str ((k, v) ∷ d) =
    let rest = parse_expected from_str d in
    elim (from_str v) [
      | none ↦ none
      | some s ↦ elim rest [ none ↦ none | some m ↦ some ((k, s) ∷ m) ]
    ]

module _ {S E : Type 0} where
  unfoldable pub names : List (Check S E) → List String
  names [] = []
  names (c ∷ cs) = c.name ∷ names cs

  unfoldable pub new_audit : S → List String → Dict String Status → Audit S E
  new_audit s skip expected = record {
    checks = [];
    state = s;
    recs = [];
    categories = [];
    skip = skip;
    expected = expected;
  }

  unfoldable pub add_check : Audit S E → Check S E → Result DependencyError (Audit S E)
  unfolding names first_missing union
  add_check a c = elim (first_missing (names a.checks) c.dependencies) [
    | some d ↦ err (requires c.name d)
    | none ↦
        ok
          (record a { checks = a.checks ++ (c ∷ []); categories = union a.categories c.categories })
  ]

  unfoldable pub set_expected :
      (String → Option Status)
      → Entry (Dict String String)
      → Exec (Audit S E) ConfigError (Unit {0})
  unfolding parse_expected
  set_expected from_str absent = pure tt
  set_expected from_str malformed = raise expected_not_a_table
  set_expected from_str (given d) = do
    m ← or_raise bad_status (parse_expected from_str d)
    modify (λ a. record a { expected = m })

  unfoldable pub add_skip : Entry (List String) → Exec (Audit S E) ConfigError (Unit {0})
  unfolding union
  add_skip absent = pure tt
  add_skip malformed = raise skip_not_a_list
  add_skip (given names) = modify (λ a. record a { skip = union a.skip names })

  -- The two entries of the file, or `none` where there is no file. An error in the second entry
  -- comes when the first has been taken over.
  unfoldable pub configure_from_file :
      (String → Option Status)
      → Option (Entry (List String) × Entry (Dict String String))
      → Bool
      → Exec (Audit S E) ConfigError (Unit {0})
  unfolding set_expected add_skip
  configure_from_file from_str none ignore_missing =
      if ignore_missing then pure tt else raise file_not_found
  configure_from_file from_str (some (skip, expected)) ignore_missing = do
    add_skip skip
    set_expected from_str expected

  unfoldable pub is_skipped : List String → Check S E → Bool
  unfolding contains meets
  is_skipped skip c = contains skip c.name || meets c.categories skip

-- What a run prints and yields, with the audit that it leaves.
pub record AuditRun (S E : Type 0) : Type 0 where
  pub printed : List Report
  pub errors : List (String × E)
  pub audit : Audit S E

module _ {S E : Type 0} where
  -- The recommendations of a check count only if it ended without an exception.
  unfoldable pub after_check : AuditRun S E → Check S E → AuditRun S E
  after_check r c =
      let a = r.audit in
      let cr = Check.run c a.state false a.expected in
      elim cr.failure [
        | some e ↦ record {
          printed = r.printed ++ cr.shown;
          errors = r.errors ++ ((c.name, e) ∷ []);
          audit = record a { checks = a.checks ++ (cr.check ∷ []); state = cr.state };
        }
        | none ↦ record {
          printed = r.printed ++ cr.shown;
          errors = r.errors;
          audit = record a {
            checks = a.checks ++ (cr.check ∷ []);
            state = cr.state;
            recs = a.recs ++ cr.check.recs;
          };
        }
      ]

  -- The loop; the audit in the result holds the checks that have been passed so far.
  unfoldable pub run_checks : AuditRun S E → List (Check S E) → AuditRun S E
  unfolding is_skipped
  run_checks r [] = r
  run_checks r (c ∷ cs) =
      run_checks
        (if is_skipped r.audit.skip c
          then record r { audit = record r.audit { checks = r.audit.checks ++ (c ∷ []) } }
          else after_check r c)
        cs

  unfoldable pub run : Audit S E → AuditRun S E
  unfolding run_checks
  run a =
      run_checks (record { printed = []; errors = []; audit = record a { checks = [] } }) a.checks
