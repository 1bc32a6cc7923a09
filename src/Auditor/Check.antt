-- ===== src/Auditor/Check.antt =====
-- A check: its generator of reports, and `Check.run`.
use secureblue.Base.{Bool, true, false, not, ◌&&◌, if◌then◌else◌}
use secureblue.Base.{Option, none, some, List, [], ◌∷◌, ◌++◌, String}
use secureblue.Base.{◌==◌, nat_eq, string_eq, list_eq}
use secureblue.Base.{keep}
use secureblue.Base.Dict
use secureblue.Base.Dict.{Dict}
use secureblue.Auditor.Status.{Status, status_eq}
use secureblue.Auditor.Report.{Report, Recommendation}

-- What a generator does when it is run to its end: the reports that it yields, the exception that
-- ends it, if any, and the shared state that it leaves.
pub record Generated (S E : Type 0) : Type 0 where
  pub yielded : List Report
  pub failure : Option E
  pub state : S

-- `stateful` is whether the callback takes the shared state.
pub data Callback (S E : Type 0) : Type 0 where
  stateless : List Report → Option E → Callback S E
  stateful : (S → Generated S E) → Callback S E

pub record Check (S E : Type 0) : Type 0 where
  pub name : String
  pub callback : Callback S E
  pub categories : List String
  pub dependencies : List String
  pub done : Bool
  pub reports : List Report
  pub recs : List Recommendation

pub record CheckRun (S E : Type 0) : Type 0 where
  pub shown : List Report
  pub failure : Option E
  pub check : Check S E
  pub state : S

-- `expectations.get(report.description) == report.status`
unfoldable pub is_expected : Dict String Status → Report → Bool
unfolding Dict.lookup
is_expected expectations r = elim (Dict.lookup r.description expectations) [
  | none ↦ false
  | some s ↦ s == r.status
]

abbrev pub recs_of : List Report → List Recommendation
recs_of [] = []
recs_of (r ∷ rs) = r.recs ++ recs_of rs

-- The reports that are yielded on.
unfoldable pub shown : Dict String Status → List Report → List Report
unfolding is_expected keep
shown expectations = keep (λ r. not (is_expected expectations r))

module _ {S E : Type 0} where
  unfoldable pub generate : Callback S E → S → Generated S E
  generate (stateless rs e) s = record { yielded = rs; failure = e; state = s }
  generate (stateful f) s = f s

  -- The loop over the generator: what passes is stored and yielded on.
  unfoldable pub collect : Dict String Status → Check S E → List Report → Check S E
  unfolding is_expected
  collect expectations c [] = c
  collect expectations c (r ∷ rs) =
      collect expectations
        (if is_expected expectations r
          then c
          else record c { reports = c.reports ++ (r ∷ []); recs = c.recs ++ r.recs })
        rs

  -- `done` is set where the generator ends without an exception.
  unfoldable pub finish : Check S E → Option E → Check S E
  finish c none = record c { done = true }
  finish c (some e) = c

  unfoldable pub run : Check S E → S → Bool → Dict String Status → CheckRun S E
  unfolding generate collect shown finish
  run c s rerun expectations =
      if c.done && not rerun
      then record { shown = []; failure = none; check = c; state = s }
      else let g = generate c.callback s in
        record {
          shown = shown expectations g.yielded;
          failure = g.failure;
          check = finish (collect expectations c g.yielded) g.failure;
          state = g.state;
        }
