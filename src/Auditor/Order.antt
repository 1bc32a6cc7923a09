-- ===== src/Auditor/Order.antt =====
-- Registration: the checks that the `audit` decorator accepts are those in dependency order.
use secureblue.Base.{arith}
use secureblue.Base.{◌≡◌, refl, sym, ap, ◌∙◌, ◌↔◌, inl, inr}
use secureblue.Base.{true, false, Bool-cases}
use secureblue.Base.{none, some, List, [], ◌∷◌, ◌++◌, String}
use secureblue.Base.{nat_eq, string_eq, list_eq, contains, beq_self}
use secureblue.Base.{all}
use secureblue.Base.Dict.{Dict}
use secureblue.Base.Exec.{Result, ok, err}
use mathlib.Core.List.{append_assoc, append-nil}
use secureblue.Base.{Option-cases}
use secureblue.Auditor.Status.{Status}
use secureblue.Auditor.Check.{Check}
use secureblue.Auditor.Audit.{
  Audit, DependencyError, requires, names, first_missing, add_check, union,
}
use secureblue.Auditor.Audit.{new_audit}

module _ {S E : Type 0} where
  -- The decorators of the program, applied to its checks in turn.
  unfoldable pub register : Audit S E → List (Check S E) → Result DependencyError (Audit S E)
  unfolding add_check
  register a [] = ok a
  register a (c ∷ cs) = elim (add_check a c) [ err e ↦ err e | ok b ↦ register b cs ]

  -- Each dependency is the name of a check that stands before.
  abbrev pub IsOrdered : List String → List (Check S E) → Type 0
  IsOrdered earlier [] = Unit {0}
  IsOrdered earlier (c ∷ cs) =
      (all (contains earlier) c.dependencies ≡ true) × IsOrdered (earlier ++ (c.name ∷ [])) cs

  names-append : (cs ds : List (Check S E)) → names (cs ++ ds) ≡ names cs ++ names ds
  unfolding names
  names-append [] ds = refl
  names-append (c ∷ cs) ds = ap (λ r. c.name ∷ r) (names-append cs ds)

first_missing-none :
    (known ds : List String) → (first_missing known ds ≡ none) ↔ (all (contains known) ds ≡ true)
unfolding first_missing all
first_missing-none known [] = (λ _. refl, λ _. refl)
first_missing-none known (d ∷ ds) = ground (arith, first_missing-none known ds)

first_missing-some :
    (known ds : List String) (d : String)
    → first_missing known ds ≡ some d
    → (contains ds d ≡ true) × (contains known d ≡ false)
unfolding first_missing contains
first_missing-some known [] d h = cc
first_missing-some known (x ∷ ds) d h = elim (Bool-cases (contains known x)) [
  | inl known_it_is ↦ ground (arith, known_it_is, first_missing-some known ds d)
  | inr unknown_it_is ↦ ground (arith, unknown_it_is, beq_self d)
]

module _ {S E : Type 0} where
  abbrev added : Audit S E → Check S E → Audit S E
  added a c = record a {
    checks = a.checks ++ (c ∷ []);
    categories = union a.categories c.categories;
  }

  register_sound :
      (a b : Audit S E) (cs : List (Check S E))
      → register a cs ≡ ok b
      → IsOrdered (names a.checks) cs × (b.checks ≡ a.checks ++ cs)
  unfolding register add_check names
  register_sound a b [] h = (tt, ground (arith, append-nil a.checks))
  register_sound a b (c ∷ cs) h =
      elim (Option-cases (first_missing (names a.checks) c.dependencies)) [
        | inr (d, e) ↦ ground (arith, e)
        | inl e ↦
            let next = register_sound (added a c) b cs (ground (arith, e)) in
            (
              (
                (first_missing-none (names a.checks) c.dependencies).0 e,
                rw (sym (names-append a.checks (c ∷ []))) next.0,
              ),
              next.1 ∙ append_assoc a.checks (c ∷ []) cs,
            )
      ]

  register_complete :
      (a : Audit S E) (cs : List (Check S E))
      → IsOrdered (names a.checks) cs
      → (b : Audit S E) × (register a cs ≡ ok b)
  unfolding register add_check names
  register_complete a [] h = (a, refl)
  register_complete a (c ∷ cs) h =
      let known = (first_missing-none (names a.checks) c.dependencies).1 h.0 in
      let (b, e) = register_complete (added a c) cs (rw (names-append a.checks (c ∷ [])) h.1) in
      (b, ground (arith, known, e))

-- Checks can be registered with a new audit exactly when each dependency of each check is the name
-- of a check before it; the audit then holds these checks in the order of registration.
pub register_iff :
    {S E : Type 0} (s : S) (skip : List String) (expected : Dict String Status)
    (cs : List (Check S E))
    → ((b : Audit S E) × (register (new_audit s skip expected) cs ≡ ok b) × (b.checks ≡ cs))
      ↔ IsOrdered [] cs
unfolding new_audit names
register_iff s skip expected cs = (
  (λ (b, e, _). (register_sound (new_audit s skip expected) b cs e).0),
  λ h.
      let (b, e) = register_complete (new_audit s skip expected) cs h in
      (b, e, (register_sound (new_audit s skip expected) b cs e).1),
)

-- A check with an unmet dependency is refused, and the error names the check and the dependency.
pub add_check_refused :
    {S E : Type 0} (a : Audit S E) (c : Check S E) (d : String)
    → add_check a c ≡ err (requires c.name d)
    → (contains c.dependencies d ≡ true) × (contains (names a.checks) d ≡ false)
unfolding add_check
add_check_refused a c d h = first_missing-some (names a.checks) c.dependencies d (ground arith)
