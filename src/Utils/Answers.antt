-- ===== src/Utils/Answers.antt =====
-- Questions: the first answer that a question takes counts.
use secureblue.Base.{ℕ, ◌≤◌, arith}
use secureblue.Base.{◌≡◌, inr}
use secureblue.Base.{Bool, true, false}
use secureblue.Base.{none, some, List, [], ◌∷◌, ◌++◌}
use secureblue.Base.{nat_eq, string_eq, list_eq}
use secureblue.Base.Exec.{ok}
use secureblue.Base.{Str, strip}
use secureblue.Utils.Ask.{Entered, typed, interrupted, yes_no, ask_yes_no}
use secureblue.Utils.Ask.{ask_option, option_answer}

-- No entry ends the question or answers it.
abbrev pub AllRefused : (Str → Bool) → List Entered → Type 0
AllRefused refuses [] = Unit {0}
AllRefused refuses (interrupted ∷ rest) = ⊥
AllRefused refuses (typed s ∷ rest) = (refuses (strip s) ≡ true) × AllRefused refuses rest

abbrev pub refuses_yes_no : Str → Bool
refuses_yes_no s = elim (yes_no s) [ none ↦ true | some b ↦ false ]

-- After entries that are no answer, the first answer is returned, and what follows it is left.
pub ask_yes_no_first :
    (before rest : List Entered) (s : Str) (b : Bool)
    → AllRefused refuses_yes_no before
    → yes_no (strip s) ≡ some b
    → ask_yes_no (before ++ (typed s ∷ rest)) ≡ (ok b, rest)
unfolding ask_yes_no
ask_yes_no_first [] rest s b r h = ground (arith, h)
ask_yes_no_first (interrupted ∷ before) rest s b r h = absurd r
ask_yes_no_first (typed t ∷ before) rest s b (r, rs) h =
    ground (arith, r, ask_yes_no_first before rest s b rs h)

option_answer-bounds :
    (count n : ℕ) (s : Str) → option_answer count s ≡ inr (some n) → (1 ≤ n) × (n ≤ count)
unfolding option_answer
option_answer-bounds count n s h = ground (arith, h)

-- `ask_option` returns a number from 1 to the count.
pub ask_option_bounds :
    (options_count : ℕ) (entered rest : List Entered) (n : ℕ)
    → ask_option options_count entered ≡ (ok n, rest)
    → (1 ≤ n) × (n ≤ options_count)
unfolding ask_option
ask_option_bounds count [] rest n h = ground (arith, h)
ask_option_bounds count (interrupted ∷ entered) rest n h = ground (arith, h)
ask_option_bounds count (typed s ∷ entered) rest n h =
    ground
      (arith, h, option_answer-bounds count n (strip s), ask_option_bounds count entered rest n)
