-- ===== src/Base/Words.antt =====
-- Texts cut at a separator or at white space: `split`, `partition` and their inverses.
use secureblue.Base.{arith, ℕ, ◌≡◌, refl}
use secureblue.Base.{Bool, true, false, not, ◌||◌, if◌then◌else◌}
use secureblue.Base.{Option, none, some, List, [], ◌∷◌, ◌++◌}
use secureblue.Base.{
  ◌==◌, nat_eq, list_eq, list_beq, all, keep, drop, length, Str, is_space, starts_with,
}

-- The parts of `s.split(c)`
unfoldable pub split_on : ℕ → Str → List Str
split_on c [] = [] ∷ []
split_on c (d ∷ s) =
    let rest = split_on c s in
    if c == d then [] ∷ rest else elim rest [ [] ↦ (d ∷ []) ∷ [] | p ∷ ps ↦ (d ∷ p) ∷ ps ]

-- The parts between single white space characters, empty ones included.
unfoldable pub pieces : Str → List Str
unfolding is_space
pieces [] = [] ∷ []
pieces (c ∷ s) =
    let rest = pieces s in
    if is_space c then [] ∷ rest else elim rest [ [] ↦ (c ∷ []) ∷ [] | p ∷ ps ↦ (c ∷ p) ∷ ps ]

-- `s.split()`
unfoldable pub words : Str → List Str
unfolding pieces keep list_beq
words s = keep (λ w. not (w == [])) (pieces s)

-- `s.partition(c)`: what stands before the first `c`, and what stands behind it, if there is one.
unfoldable pub partition : ℕ → Str → Str × Option Str
partition c [] = ([], none)
partition c (d ∷ s) =
    let (key, value) = partition c s in if c == d then ([], some s) else (d ∷ key, value)

-- `s.replace(c, d)` for two characters
unfoldable pub replace_char : ℕ → ℕ → Str → Str
replace_char c d [] = []
replace_char c d (x ∷ s) = let rest = replace_char c d s in (if x == c then d else x) ∷ rest

-- `c not in s`
unfoldable pub lacks : ℕ → Str → Bool
lacks c s = all (λ d. not (c == d)) s

unfoldable pub no_space : Str → Bool
no_space s = all (λ d. not (is_space d)) s

pub split_on-append :
    (c : ℕ) (p s : Str) → lacks c p ≡ true → split_on c (p ++ (c ∷ s)) ≡ p ∷ split_on c s
unfolding split_on lacks all
split_on-append c [] s h = ground arith
split_on-append c (d ∷ p) s h =
    let ih = split_on-append c p s (ground arith) in
    let ne : (c == d) ≡ false = ground (arith, h) in rw (ih, ne) refl

pub pieces-append :
    (p s : Str) (c : ℕ)
    → no_space p ≡ true
    → is_space c ≡ true
    → pieces (p ++ (c ∷ s)) ≡ p ∷ pieces s
unfolding pieces no_space all
pieces-append [] s c h e = ground arith
pieces-append (d ∷ p) s c h e =
    let ih = pieces-append p s c (ground arith) e in
    let ne : is_space d ≡ false = ground (arith, h) in rw (ih, ne) refl

pub pieces-word : (p : Str) → no_space p ≡ true → pieces p ≡ p ∷ []
unfolding pieces no_space all
pieces-word [] h = refl
pieces-word (d ∷ p) h =
    let ih = pieces-word p (ground arith) in
    let ne : is_space d ≡ false = ground (arith, h) in rw (ih, ne) refl

pub partition-append :
    (c : ℕ) (p s : Str) → lacks c p ≡ true → partition c (p ++ (c ∷ s)) ≡ (p, some s)
unfolding partition lacks all
partition-append c [] s h = ground arith
partition-append c (d ∷ p) s h =
    let ih = partition-append c p s (ground arith) in
    let ne : (c == d) ≡ false = ground (arith, h) in rw (ih, ne) refl

pub partition-none : (c : ℕ) (p : Str) → lacks c p ≡ true → partition c p ≡ (p, none)
unfolding partition lacks all
partition-none c [] h = refl
partition-none c (d ∷ p) h =
    let ih = partition-none c p (ground arith) in
    let ne : (c == d) ≡ false = ground (arith, h) in rw (ih, ne) refl

-- `p in s` of two texts
unfoldable pub is_infix : Str → Str → Bool
unfolding starts_with
is_infix p [] = starts_with [] p
is_infix p (c ∷ s) = starts_with (c ∷ s) p || is_infix p s

-- `s.split(sep, maxsplit=1)` at a text; `none` where the text does not have it.
unfoldable pub split_at : Str → Str → Option (Str × Str)
unfolding starts_with
split_at sep [] = none
split_at sep (c ∷ s) =
    let rest = split_at sep s in
    if starts_with (c ∷ s) sep
    then some ([], drop (length sep) (c ∷ s))
    else elim rest [ none ↦ none | some (a, b) ↦ some (c ∷ a, b) ]
