-- ===== src/Utils/Ask.antt =====
-- Questions of shared/utils.py, over the list of what the user enters.
use secureblue.Base.{ℕ, ◌+◌, ◌-◌, ◌*◌}
use secureblue.Base.{◌⊎◌, inl, inr}
use secureblue.Base.{Bool, true, false, not, ◌&&◌, ◌||◌, if◌then◌else◌, leb}
use secureblue.Base.{Option, none, some, List, [], ◌∷◌}
use secureblue.Base.{◌==◌, nat_eq, string_eq, list_eq, list_beq}
use secureblue.Base.{all}
use secureblue.Base.Exec.{ok, err, Exec}
use secureblue.Base.{Str, codes, strip}
use secureblue.Auditor.Status.{casefold}

-- What comes from the terminal, in order; past the last entry the input is at its end.
pub data Entered : Type 0 where
  typed : Str → Entered
  interrupted : Entered

pub data AskError : Type 0 where
  exit : ℕ → AskError
  value_error index_error : AskError

-- `input(prompt).strip()`; Ctrl+C and the end of the input exit with 130.
unfoldable pub interruptible_ask : Exec (List Entered) AskError Str
unfolding strip
interruptible_ask [] = (err (exit 130), [])
interruptible_ask (interrupted ∷ rest) = (err (exit 130), rest)
interruptible_ask (typed s ∷ rest) = (ok (strip s), rest)

-- The answer that a question takes, if the text is one.
unfoldable pub yes_no : Str → Option Bool
unfolding casefold list_beq
yes_no s =
    let answer = casefold s in
    if answer == codes "y" || answer == codes "yes"
    then some true
    else if answer == codes "n" || answer == codes "no"
    then some false
    else none

-- `s.isdigit()` of one character up to U+00FF: superscripts are digits, too.
unfoldable pub is_superscript : ℕ → Bool
is_superscript c = c == 0xb2 || c == 0xb3 || c == 0xb9

unfoldable pub is_decimal : ℕ → Bool
is_decimal c = leb b'0' c && leb c b'9'

unfoldable pub is_digits : Str → Bool
unfolding all is_decimal is_superscript list_beq
is_digits s = not (s == []) && all (λ c. is_decimal c || is_superscript c) s

-- `int(s)` of a text of digits; `none` is the ValueError on a superscript.
unfoldable pub int_from : ℕ → Str → Option ℕ
unfolding is_decimal
int_from n [] = some n
int_from n (c ∷ s) = elim (is_decimal c) [ true ↦ int_from (10 * n + (c - b'0')) s | false ↦ none ]

-- One round of the loop of `ask_option`: `inl` is an exception, `inr none` asks again.
unfoldable pub option_answer : ℕ → Str → AskError ⊎ Option ℕ
unfolding is_digits int_from
option_answer options_count raw_option =
    if is_digits raw_option
    then elim (int_from 0 raw_option) [
      | none ↦ inl value_error
      | some option ↦ inr (if leb 1 option && leb option options_count then some option else none)
    ]
    else inr none

unfoldable pub ask_yes_no : Exec (List Entered) AskError Bool
unfolding yes_no strip
ask_yes_no [] = (err (exit 130), [])
ask_yes_no (interrupted ∷ rest) = (err (exit 130), rest)
ask_yes_no (typed s ∷ rest) = elim (yes_no (strip s)) [
  | none ↦ ask_yes_no rest
  | some b ↦ (ok b, rest)
]

unfoldable pub ask_option : ℕ → Exec (List Entered) AskError ℕ
unfolding option_answer strip
ask_option options_count [] = (err (exit 130), [])
ask_option options_count (interrupted ∷ rest) = (err (exit 130), rest)
ask_option options_count (typed s ∷ rest) = elim (option_answer options_count (strip s)) [
  | inl e ↦ (err e, rest)
  | inr none ↦ ask_option options_count rest
  | inr (some n) ↦ (ok n, rest)
]
