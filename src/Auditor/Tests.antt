-- ===== src/Auditor/Tests.antt =====
-- Runs of the auditor at concrete checks.
use secureblue.Base.{
  codes, list_eq, nat_eq, list_beq, ◌≡◌, refl, ◌↔◌, Bool, true, false, none, some, List, [], ◌∷◌,
  ◌++◌, String,
}
use secureblue.Base.{string_eq}
use secureblue.Base.Dict.{Dict}
use secureblue.Base.Exec.{ok, err}
use secureblue.Auditor.Status.{Status, pass, fail}
use secureblue.Auditor.Report.{Report, Recommendation}
use secureblue.Auditor.Check
use secureblue.Auditor.Check.{Check, Callback, stateless, stateful, CheckRun}
use secureblue.Auditor.Audit
use secureblue.Auditor.Audit.{Audit, DependencyError, requires, names, add_check, new_audit}
use secureblue.Auditor.Order.{register, IsOrdered, register_iff}
use secureblue.Auditor.Runs.{AllFresh, printed_by, errors_by, recs_by, run_reference}
use secureblue.Auditor.Recs.{is_mergeable_text}

abbrev report : String → Status → Report
report description status = record {
  description = description;
  status = status;
  notes = [];
  recs = record { text = codes "Fix it: {}."; mergeable_name = some (codes description) } ∷ [];
}

abbrev check : String → List String → Callback Bool String → Check Bool String
check name dependencies callback = record {
  name = name;
  callback = callback;
  categories = [];
  dependencies = dependencies;
  done = false;
  reports = [];
  recs = [];
}

abbrev kargs : Check Bool String
kargs = check "kargs" [] (stateless (report "debugfs" fail ∷ report "nosmt" pass ∷ []) none)

-- It needs the one before, raises after its first report and changes the state.
abbrev sysctl : Check Bool String
sysctl = check "sysctl" ("kargs" ∷ []) (
    stateful
      (λ s. record { yielded = report "sysctl" fail ∷ []; failure = some "OSError"; state = true }))

abbrev expected : Dict String Status
expected = ("nosmt", pass) ∷ []

abbrev audit : Audit Bool String
audit = record {
  checks = kargs ∷ sysctl ∷ [];
  state = false;
  recs = [];
  categories = [];
  skip = [];
  expected = expected;
}

register_iff_example :
    ((b : Audit Bool String) × (register (new_audit false [] expected) (kargs ∷ sysctl ∷ []) ≡ ok b)
      × (b.checks ≡ kargs ∷ sysctl ∷ []))
    ↔ IsOrdered [] (kargs ∷ sysctl ∷ [])
register_iff_example = register_iff false [] expected (kargs ∷ sysctl ∷ [])

abbrev audit_of_none : Audit Bool String
audit_of_none = new_audit false [] expected

refused : add_check audit_of_none sysctl ≡ err (requires "sysctl" "kargs")
unfolding add_check new_audit
refused = refl

audit-AllFresh : AllFresh audit.checks
audit-AllFresh = (refl, refl, (refl, refl, tt))

run_reference_example :
    let t = Audit.run audit in
    (t.printed ≡ printed_by [] expected false audit.checks)
    × (t.errors ≡ errors_by [] false audit.checks)
    × (t.audit.recs ≡ [] ++ recs_by [] expected false audit.checks)
run_reference_example = run_reference audit audit-AllFresh

kargs-returns : (Check.run kargs false false expected).failure ≡ none
unfolding Check.run
kargs-returns = refl

abbrev two_recs : List Recommendation
two_recs =
    record { text = codes "Restart."; mergeable_name = none }
    ∷ record { text = codes "Fix it: {}."; mergeable_name = some (codes "debugfs") }
    ∷ []

two_recs-mergeable : is_mergeable_text (codes "Fix it: {}.") two_recs ≡ true
unfolding is_mergeable_text list_beq
two_recs-mergeable = refl
