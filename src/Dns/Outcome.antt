-- ===== src/Dns/Outcome.antt =====
-- Questions that end in no IndexError, and the rules that carry a property of their results.
use secureblue.Base.{ℕ, zero, suc, ◌-◌, ◌≤◌, ◌<◌, arith}
use secureblue.Base.{◌≡◌, refl, ◌⊎◌, inl, inr}
use secureblue.Base.{Bool, true, false}
use secureblue.Base.{Option, none, some, List, [], ◌∷◌}
use secureblue.Base.{nat_eq, string_eq, list_eq}
use secureblue.Base.{Option-cases}
use secureblue.Base.Exec
use secureblue.Base.{length, any, all, keep}
use secureblue.Base.Exec.{
  Result, ok, err, Exec, pure, raise, gets, or_raise, ◌>>=◌, ◌>>◌, modify, when, for_each,
}
use secureblue.Base.{Str, strip}
use secureblue.Utils.Ask.{
  Entered, AskError, value_error, index_error, interruptible_ask, typed, interrupted, exit,
  ask_yes_no, ask_option, option_answer, yes_no,
}
use secureblue.Dns.Questions.{Asking, nth, ask_if, ask_first}

-- A result with the property, an exit with 130, or a ValueError; never an IndexError.
abbrev pub Outcome : {A : Type 0} → (A → Type 0) → Result AskError A → Type 0
Outcome P (ok a) = P a
Outcome P (err (exit n)) = n ≡ 130
Outcome P (err value_error) = Unit {0}
Outcome P (err index_error) = ⊥

abbrev pub Safe : {A : Type 0} → (A → Type 0) → Asking A → Type 0
Safe P m = (entered : List Entered) → Outcome P (m entered).0

abbrev pub Any : {A : Type 0} → A → Type 0
Any _ = Unit {0}

continue-Safe :
    {A B : Type 0} (P : A → Type 0) (Q : B → Type 0) (r : Result AskError A) (f : A → Asking B)
    (entered : List Entered)
    → Outcome P r
    → ((a : A) → P a → Safe Q (f a))
    → Outcome Q (Exec.continue r f entered).0
continue-Safe P Q (ok a) f entered h k = k a h entered
continue-Safe P Q (err (exit n)) f entered h k = h
continue-Safe P Q (err value_error) f entered h k = tt
continue-Safe P Q (err index_error) f entered h k = h

pub bind-Safe :
    {A B : Type 0} (P : A → Type 0) (Q : B → Type 0) (m : Asking A) (f : A → Asking B)
    → Safe P m
    → ((a : A) → P a → Safe Q (f a))
    → Safe Q (m >>= f)
bind-Safe P Q m f h k entered = continue-Safe P Q (m entered).0 f (m entered).1 (h entered) k

pub ask_yes_no-Safe : Safe Any ask_yes_no
unfolding ask_yes_no
ask_yes_no-Safe [] = refl
ask_yes_no-Safe (interrupted ∷ rest) = refl
ask_yes_no-Safe (typed s ∷ rest) = elim (Option-cases (yes_no (strip s))) [
  | inl e ↦ rw (e, ask_yes_no) (ask_yes_no-Safe rest)
  | inr (b, e) ↦ rw (e, ask_yes_no) tt
]

pub interruptible_ask-Safe : Safe Any interruptible_ask
unfolding interruptible_ask
interruptible_ask-Safe [] = refl
interruptible_ask-Safe (interrupted ∷ rest) = refl
interruptible_ask-Safe (typed s ∷ rest) = tt

abbrev pub Within : ℕ → ℕ → Type 0
Within count n = (1 ≤ n) × (n ≤ count)

-- A round of `ask_option`, given the rounds that follow.
abbrev answered : AskError ⊎ Option ℕ → List Entered → Asking ℕ → Result AskError ℕ × List Entered
answered r rest m = elim r [
  | inl e ↦ (err e, rest)
  | inr none ↦ m rest
  | inr (some n) ↦ (ok n, rest)
]

abbrev Answered : ℕ → AskError ⊎ Option ℕ → Type 0
Answered count (inl (exit n)) = n ≡ 130
Answered count (inl value_error) = Unit {0}
Answered count (inl index_error) = ⊥
Answered count (inr none) = Unit {0}
Answered count (inr (some n)) = Within count n

option_answer-Answered : (count : ℕ) (s : Str) → Answered count (option_answer count s)
unfolding option_answer
option_answer-Answered count s = ground arith

answered-Safe :
    (count : ℕ) (r : AskError ⊎ Option ℕ) (rest : List Entered) (m : Asking ℕ)
    → Answered count r
    → Outcome (Within count) (m rest).0
    → Outcome (Within count) (answered r rest m).0
answered-Safe count (inl (exit n)) rest m h k = h
answered-Safe count (inl value_error) rest m h k = tt
answered-Safe count (inl index_error) rest m h k = h
answered-Safe count (inr none) rest m h k = k
answered-Safe count (inr (some n)) rest m h k = h

pub ask_option-Safe : (count : ℕ) → Safe (Within count) (ask_option count)
unfolding ask_option
ask_option-Safe count [] = refl
ask_option-Safe count (interrupted ∷ rest) = refl
ask_option-Safe count (typed s ∷ rest) =
    answered-Safe count (option_answer count (strip s)) rest (ask_option count)
      (option_answer-Answered count (strip s)) (ask_option-Safe count rest)

pub ask_if-Safe : (b : Bool) (m : Asking Str) → Safe Any m → Safe Any (ask_if b m)
ask_if-Safe true m h entered = h entered
ask_if-Safe false m h entered = tt

pub ask_first-Safe : Safe (Any {A = Bool}) ask_first
unfolding ask_first
ask_first-Safe = bind-Safe (Within 2) Any (ask_option 2) _ (ask_option-Safe 2) (λ n h entered. tt)

pub length-keep :
    {A : Type 0} (p : A → Bool) (xs : List A) → any p xs ≡ true → 1 ≤ length (keep p xs)
unfolding any keep
length-keep p [] h = cc
length-keep p (x ∷ xs) h = ground (arith, length-keep p xs)

nth-below :
    {A : Type 0} (p : A → Bool) (xs : List A) (i : ℕ)
    → all p xs ≡ true
    → i < length xs
    → (x : A) × (nth xs i ≡ some x) × (p x ≡ true)
unfolding nth all
nth-below p [] i h low = absurd (omega arith)
nth-below p (x ∷ xs) zero h low = (x, refl, ground (arith, h))
nth-below p (x ∷ xs) (suc i) h low = nth-below p xs i (ground (arith, h)) (omega arith)

-- A choice from 1 to the length is in range.
pub nth-all :
    {A : Type 0} (p : A → Bool) (xs : List A) (n : ℕ)
    → all p xs ≡ true
    → Within (length xs) n
    → (x : A) × (nth xs (n - 1) ≡ some x) × (p x ≡ true)
nth-all p xs n h (low, high) = nth-below p xs (n - 1) h (omega arith)
