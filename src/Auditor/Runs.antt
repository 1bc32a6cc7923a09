-- ===== src/Auditor/Runs.antt =====
-- What a run of an audit prints, reports as errors and recommends, against a plain reference.
use secureblue.Base.{arith}
use secureblue.Base.{◌≡◌, refl, sym, ap, ◌∙◌, inl, inr}
use secureblue.Base.{true, false, if◌then◌else◌, Bool-cases}
use secureblue.Base.{none, some, List, [], ◌∷◌, ◌++◌, String}
use secureblue.Base.{nat_eq, string_eq, list_eq}
use secureblue.Base.Dict.{Dict}
use mathlib.Core.List.{append_assoc, append-nil}
use secureblue.Base.{Option-cases}
use secureblue.Auditor.Status.{Status}
use secureblue.Auditor.Report.{Report, Recommendation}
use secureblue.Auditor.Check
use secureblue.Auditor.Check.{
  Check, CheckRun, generate, collect, shown, is_expected, recs_of, finish,
}
use secureblue.Auditor.Audit
use secureblue.Auditor.Audit.{Audit, AuditRun, is_skipped, after_check, run_checks}

recs_of-append : (rs ts : List Report) → recs_of (rs ++ ts) ≡ recs_of rs ++ recs_of ts
recs_of-append [] ts = refl
recs_of-append (r ∷ rs) ts =
    ap (λ x. r.recs ++ x) (recs_of-append rs ts)
    ∙ sym (append_assoc r.recs (recs_of rs) (recs_of ts))

module _ {S E : Type 0} where
  -- The loop that stores the reports keeps the rest of the check.
  pub collect_lem :
      (expectations : Dict String Status) (c : Check S E) (rs : List Report)
      → collect expectations c rs ≡ record c {
        reports = c.reports ++ shown expectations rs;
        recs = c.recs ++ recs_of (shown expectations rs);
      }
  unfolding collect shown
  collect_lem expectations c [] = simp append-nil
  collect_lem expectations c (r ∷ rs) = elim (Bool-cases (is_expected expectations r)) [
    | inl yes_it_is ↦ rw yes_it_is (collect_lem expectations c rs)
    | inr not_so ↦ rw not_so (
        collect_lem expectations
          (record c { reports = c.reports ++ (r ∷ []); recs = c.recs ++ r.recs }) rs
        ∙ simp append_assoc)
  ]

  -- What the selected checks yield, each in the state that the one before it left.
  pub printed_by : List String → Dict String Status → S → List (Check S E) → List Report
  printed_by skip expected s [] = []
  printed_by skip expected s (c ∷ cs) =
      let g = generate c.callback s in
      let without = printed_by skip expected s cs in
      let after = printed_by skip expected g.state cs in
      if is_skipped skip c then without else shown expected g.yielded ++ after

  pub errors_by : List String → S → List (Check S E) → List (String × E)
  errors_by skip s [] = []
  errors_by skip s (c ∷ cs) =
      let g = generate c.callback s in
      let without = errors_by skip s cs in
      let after = errors_by skip g.state cs in
      if is_skipped skip c
      then without
      else elim g.failure [ none ↦ after | some e ↦ (c.name, e) ∷ after ]

  pub recs_by : List String → Dict String Status → S → List (Check S E) → List Recommendation
  recs_by skip expected s [] = []
  recs_by skip expected s (c ∷ cs) =
      let g = generate c.callback s in
      let without = recs_by skip expected s cs in
      let after = recs_by skip expected g.state cs in
      if is_skipped skip c
      then without
      else elim g.failure [ none ↦ recs_of (shown expected g.yielded) ++ after | some e ↦ after ]

  -- No check has been run yet.
  abbrev pub AllFresh : List (Check S E) → Type 0
  AllFresh [] = Unit {0}
  AllFresh (c ∷ cs) = (c.done ≡ false) × (c.recs ≡ []) × AllFresh cs

  -- The record of a run, as far as the reference speaks of it.
  abbrev Agrees : AuditRun S E → AuditRun S E → S → List (Check S E) → Type 0
  Agrees r t s cs =
      let a = r.audit in
      (t.printed ≡ r.printed ++ printed_by a.skip a.expected s cs)
      × (t.errors ≡ r.errors ++ errors_by a.skip s cs)
      × (t.audit.recs ≡ a.recs ++ recs_by a.skip a.expected s cs)

  abbrev after_end : AuditRun S E → Check S E → AuditRun S E
  after_end r c =
      let g = generate c.callback r.audit.state in
      let seen = shown r.audit.expected g.yielded in
      record r {
        printed = r.printed ++ seen;
        audit = record r.audit {
          checks = r.audit.checks ++ (finish (collect r.audit.expected c g.yielded) none ∷ []);
          state = g.state;
          recs = r.audit.recs ++ recs_of seen;
        };
      }

  abbrev after_failure : AuditRun S E → Check S E → E → AuditRun S E
  after_failure r c e =
      let g = generate c.callback r.audit.state in
      record r {
        printed = r.printed ++ shown r.audit.expected g.yielded;
        errors = r.errors ++ ((c.name, e) ∷ []);
        audit = record r.audit {
          checks = r.audit.checks ++ (finish (collect r.audit.expected c g.yielded) (some e) ∷ []);
          state = g.state;
        };
      }

  run-fresh :
      (c : Check S E) (s : S) (expected : Dict String Status)
      → c.done ≡ false
      → let g = generate c.callback s in
        Check.run c s false expected ≡ record {
          shown = shown expected g.yielded;
          failure = g.failure;
          check = finish (collect expected c g.yielded) g.failure;
          state = g.state;
        }
  unfolding Check.run
  run-fresh c s expected fresh = ground arith

  after_check-end :
      (r : AuditRun S E) (c : Check S E)
      → c.done ≡ false
      → c.recs ≡ []
      → (generate c.callback r.audit.state).failure ≡ none
      → after_check r c ≡ after_end r c
  unfolding after_check finish
  after_check-end r c fresh none_yet ended =
      let g = generate c.callback r.audit.state in
      ground (
        arith,
        run-fresh c r.audit.state r.audit.expected fresh,
        ended,
        none_yet,
        collect_lem r.audit.expected c g.yielded,
      )

  after_check-failure :
      (r : AuditRun S E) (c : Check S E) (e : E)
      → c.done ≡ false
      → (generate c.callback r.audit.state).failure ≡ some e
      → after_check r c ≡ after_failure r c e
  unfolding after_check finish
  after_check-failure r c e fresh failed =
      ground (arith, run-fresh c r.audit.state r.audit.expected fresh, failed)

  run_checks-Agrees :
      (r : AuditRun S E) (cs : List (Check S E))
      → AllFresh cs
      → Agrees r (run_checks r cs) r.audit.state cs
  unfolding run_checks printed_by errors_by recs_by
  run_checks-Agrees r [] fresh = (simp append-nil, simp append-nil, simp append-nil)
  run_checks-Agrees r (c ∷ cs) (fresh, none_yet, rest) =
      elim (Bool-cases (is_skipped r.audit.skip c)) [
        | inl skipped ↦
            let ih =
              run_checks-Agrees
                (record r { audit = record r.audit { checks = r.audit.checks ++ (c ∷ []) } }) cs
                rest in
            ground (arith, skipped, ih.0, ih.1, ih.2)
        | inr selected ↦ elim (Option-cases (generate c.callback r.audit.state).failure) [
          | inl ended ↦
              let next = after_end r c in
              let ih = run_checks-Agrees next cs rest in
              rw (selected, ended, after_check-end r c fresh none_yet ended, run_checks)
                (ih.0 ∙ simp append_assoc, ih.1, ih.2 ∙ simp append_assoc)
          | inr (e, failed) ↦
              let next = after_failure r c e in
              let ih = run_checks-Agrees next cs rest in
              rw (selected, failed, after_check-failure r c e fresh failed, run_checks)
                (ih.0 ∙ simp append_assoc, ih.1 ∙ simp append_assoc, ih.2)
        ]
      ]

  -- For an audit none of whose checks has run: the reports that are printed are those that the
  -- selected checks yield and the configuration does not expect, in order; the errors are those
  -- of the selected checks that raise; and the recommendations are those of the printed reports
  -- of the selected checks that do not raise. A check that raises keeps no later check from
  -- running.
  pub run_reference :
      (a : Audit S E)
      → AllFresh a.checks
      → let t = Audit.run a in
        (t.printed ≡ printed_by a.skip a.expected a.state a.checks)
        × (t.errors ≡ errors_by a.skip a.state a.checks)
        × (t.audit.recs ≡ a.recs ++ recs_by a.skip a.expected a.state a.checks)
  unfolding Audit.run
  run_reference a fresh =
      run_checks-Agrees (record { printed = []; errors = []; audit = record a { checks = [] } })
        a.checks fresh

  run-done :
      (c : Check S E) (s : S) (expected : Dict String Status)
      → c.done ≡ true
      → Check.run c s false expected ≡ record { shown = []; failure = none; check = c; state = s }
  unfolding Check.run
  run-done c s expected h = ground arith

  run_sets_done :
      (c : Check S E) (s : S) (expected : Dict String Status)
      → (Check.run c s false expected).failure ≡ none
      → (Check.run c s false expected).check.done ≡ true
  unfolding Check.run finish
  run_sets_done c s expected h = ground arith

  -- A check that has run without an exception yields nothing when it is run again, and neither it
  -- nor the shared state changes.
  pub run-run :
      (c : Check S E) (s t : S) (expected other : Dict String Status)
      → let first = Check.run c s false expected in
        first.failure ≡ none
        → Check.run first.check t false other
          ≡ record { shown = []; failure = none; check = first.check; state = t }
  run-run c s t expected other h =
      run-done (Check.run c s false expected).check t other (run_sets_done c s expected h)
