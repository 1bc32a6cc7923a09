-- ===== src/Base/Exec.antt =====
-- Python code that changes a state and may raise. What was done before a raise stays done, so the
-- state comes back beside the error too.
use mathlib.Core.Path.{◌≡◌, refl, ap}
use mathlib.Core.Logic.{◌⊎◌, inl, inr}
use mathlib.Core.Bool.{Bool, true, false}
use mathlib.Core.List.{List, [], ◌∷◌}
use mathlib.Core.Option.{Option, none, some}

pub data Result {ℓ} (E A : Type ℓ) : Type ℓ where
  ok : A → Result E A
  err : E → Result E A

pub Result-cases {ℓ} :
    {E A : Type ℓ} (r : Result E A) → ((e : E) × (r ≡ err e)) ⊎ ((a : A) × (r ≡ ok a))
Result-cases (ok a) = inr (a, refl)
Result-cases (err e) = inl (e, refl)

abbrev value_or {ℓ} : {E A : Type ℓ} → A → Result E A → A
value_or a (ok b) = b
value_or a (err e) = a

pub ok-injective {ℓ} : {E A : Type ℓ} (a b : A) → ◌≡◌ {A = Result E A} (ok a) (ok b) → a ≡ b
ok-injective a b h = ap (value_or a) h

abbrev error_or {ℓ} : {E A : Type ℓ} → E → Result E A → E
error_or e (ok b) = e
error_or e (err f) = f

pub err-injective {ℓ} : {E A : Type ℓ} (a b : E) → ◌≡◌ {A = Result E A} (err a) (err b) → a ≡ b
err-injective a b h = ap (error_or a) h

abbrev pub Exec {ℓ} : Type ℓ → Type ℓ → Type ℓ → Type ℓ
Exec S E A = S → Result E A × S

module _ {ℓ} {S E A : Type ℓ} where
  abbrev pub pure : A → Exec S E A
  pure a s = (ok a, s)

  abbrev pub raise : E → Exec S E A
  raise e s = (err e, s)

  abbrev pub gets : (S → A) → Exec S E A
  gets f s = (ok (f s), s)

  abbrev pub or_raise : E → Option A → Exec S E A
  or_raise e none s = (err e, s)
  or_raise e (some a) s = (ok a, s)

module _ {ℓ} {S E A B : Type ℓ} where
  abbrev pub continue : Result E A → (A → Exec S E B) → Exec S E B
  continue (ok a) f s = f a s
  continue (err e) f s = (err e, s)

  infixl 10 ◌>>=◌ ◌>>◌
  abbrev pub ◌>>=◌ : Exec S E A → (A → Exec S E B) → Exec S E B
  ◌>>=◌ m f s = let (r, t) = m s in continue r f t

  abbrev pub ◌>>◌ : Exec S E A → Exec S E B → Exec S E B
  m >> n = m >>= λ _. n

module _ {S E : Type 0} where
  abbrev pub modify : (S → S) → Exec S E (Unit {0})
  modify f s = (ok tt, f s)

  abbrev pub when : Bool → Exec S E (Unit {0}) → Exec S E (Unit {0})
  when true m s = m s
  when false m s = (ok tt, s)

  -- `for x in xs: body(x)`
  unfoldable pub for_each : {A : Type 0} → List A → (A → Exec S E (Unit {0})) → Exec S E (Unit {0})
  for_each [] body s = (ok tt, s)
  for_each (x ∷ xs) body s = let rest = for_each xs body in (body x >>= λ _. rest) s

continue-eq-ok {ℓ} :
    {S E A B : Type ℓ} (r : Result E A) (f : A → Exec S E B) (s t : S) (b : B)
    → continue r f s ≡ (ok b, t)
    → (a : A) × (r ≡ ok a) × (f a s ≡ (ok b, t))
continue-eq-ok (ok a) f s t b h = (a, refl, h)
continue-eq-ok (err e) f s t b h = cc

-- A run that returns went through each of its two parts.
pub >>=-eq-ok {ℓ} :
    {S E A B : Type ℓ} (m : Exec S E A) (f : A → Exec S E B) (s t : S) (b : B)
    → (m >>= f) s ≡ (ok b, t)
    → (a : A) × (s' : S) × (m s ≡ (ok a, s')) × (f a s' ≡ (ok b, t))
>>=-eq-ok m f s t b h =
    let (a, e, g) = continue-eq-ok (m s).0 f (m s).1 t b h in
    (a, (m s).1, ap (λ r. (r, (m s).1)) e, g)
