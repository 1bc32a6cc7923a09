-- ===== src/Base/Membership.antt =====
-- `in` together with `all` and filters.
use secureblue.Base.Equality.{Eq, ◌==◌, contains, beq_self}
use secureblue.Base.Tests.{Bool-cases, if◌then◌else◌}
use secureblue.Base.Lists.{all, keep}
use mathlib.Core.Path.{◌≡◌, refl, ap}
use mathlib.Core.Logic.{inl, inr}
use mathlib.Core.Bool.{Bool, true, false, not, ◌&&◌}
use mathlib.Core.List.{List, [], ◌∷◌}
use native.Mathlib.Omega.{arith}

pub all-not-not {ℓ} :
    {A : Type ℓ} (p : A → Bool) (xs : List A) → all (λ x. not (not (p x))) xs ≡ all p xs
unfolding all
all-not-not p [] = refl
all-not-not p (x ∷ xs) = ground (arith, all-not-not p xs)

module _ {ℓ} {A : Type ℓ} ⦃e : Eq A⦄ where
  pub contains-keep :
      (p : A → Bool) (xs : List A) (k : A) → contains (keep p xs) k ≡ (contains xs k && p k)
  unfolding contains keep
  contains-keep p [] k = refl
  contains-keep p (x ∷ xs) k = elim (Bool-cases (k == x)) [
    | inl same ↦
        let k≡x = (e.beq_iff k x).0 same in ground (arith, contains-keep p xs k, same, ap p k≡x)
    | inr differ ↦ ground (arith, contains-keep p xs k, differ)
  ]

  pub all-contains :
      (p : A → Bool) (xs : List A) (k : A) → all p xs ≡ true → contains xs k ≡ true → p k ≡ true
  unfolding all contains
  all-contains p [] k h c = cc
  all-contains p (x ∷ xs) k h c = elim (Bool-cases (k == x)) [
    | inl same ↦ let k≡x = (e.beq_iff k x).0 same in ground (arith, ap p k≡x)
    | inr differ ↦ ground (arith, differ, all-contains p xs k)
  ]

  pub all-of-contains :
      (p : A → Bool) (xs : List A) → ((k : A) → contains xs k ≡ true → p k ≡ true) → all p xs ≡ true
  unfolding all contains
  all-of-contains p [] h = refl
  all-of-contains p (x ∷ xs) h =
      ground (arith, h x, beq_self x, all-of-contains p xs (λ k c. h k (ground (arith, c))))

  pub contains-one :
      (wanted : Bool) (x k : A) → contains (if wanted then x ∷ [] else []) k ≡ (k == x && wanted)
  unfolding contains
  contains-one true x k = ground arith
  contains-one false x k = ground arith

  pub contains-if :
      (wanted : Bool) (xs : List A) (k : A)
      → contains (if wanted then xs else []) k ≡ (contains xs k && wanted)
  unfolding contains
  contains-if true xs k = ground arith
  contains-if false xs k = ground arith

  pub contains-unless :
      (wanted : Bool) (xs : List A) (k : A)
      → contains (if wanted then [] else xs) k ≡ (contains xs k && not wanted)
  unfolding contains
  contains-unless true xs k = ground arith
  contains-unless false xs k = ground arith
