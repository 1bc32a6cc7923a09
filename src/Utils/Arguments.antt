-- ===== src/Utils/Arguments.antt =====
-- Arguments of a kernel command line as they are printed, and how the parser takes a word.
use secureblue.Base.{ℕ, arith}
use secureblue.Base.{◌≡◌, refl, ap, inl, inr}
use secureblue.Base.{Bool, true, false, not, ◌&&◌, Bool-cases}
use secureblue.Base.{Option, none, some, List, [], ◌∷◌, ◌++◌}
use secureblue.Base.{◌==◌, nat_eq, string_eq, list_eq, list_beq, list_beq_iff}
use secureblue.Base.{all, keep, all-append}
use secureblue.Base.Dict.{lookup-insert}
use secureblue.Base.Dict
use secureblue.Base.Dict.{Dict}
use secureblue.Base.Exec.{ok}
use secureblue.Base.{Str, is_space}
use secureblue.Base.Words.{split_on, words, replace_char, lacks, no_space}
use secureblue.Base.Words.{pieces-append, pieces-word, partition-append, partition-none}
use secureblue.Utils.KernelCmdline.{Kargs, parse_karg, add_words, begins_with_text}
use secureblue.Utils.KernelCmdline.{ends_with_equals, parse_segments}

-- An argument of a command line: without a value, with one, or with one in quotes.
pub data Arg : Type 0 where
  flag : Str → Arg
  plain quoted : Str → Str → Arg

abbrev pub is_key : Str → Bool
is_key k = not (k == []) && (no_space k && (lacks b'"' k && lacks b'=' k))

abbrev pub is_printable : Arg → Bool
is_printable (flag k) = is_key k
is_printable (plain k v) = is_key k && (no_space v && lacks b'"' v)
is_printable (quoted k v) = is_key k && lacks b'"' v

unfoldable pub print_arg : Arg → Str
print_arg (flag k) = k
print_arg (plain k v) = k ++ (b'=' ∷ v)
print_arg (quoted k v) = k ++ (b'=' ∷ b'"' ∷ v ++ (b'"' ∷ []))

unfoldable pub print_args : List Arg → Str
unfolding print_arg
print_args [] = []
print_args (a ∷ rest) = print_arg a ++ (32 ∷ print_args rest)

abbrev pub name_of : Arg → Str
name_of (flag k) = replace_char b'-' b'_' k
name_of (plain k v) = replace_char b'-' b'_' k
name_of (quoted k v) = replace_char b'-' b'_' k

abbrev pub value_of_arg : Arg → Option Str
value_of_arg (flag k) = none
value_of_arg (plain k v) = some v
value_of_arg (quoted k v) = some v

-- The mapping in which each argument in turn overrides what stands under its name.
unfoldable pub effect : List Arg → Kargs → Kargs
unfolding Dict.insert list_beq
effect [] m = m
effect (a ∷ rest) m = effect rest (Dict.insert (name_of a) (value_of_arg a) m)

pub ends_with_equals-space : (w s : Str) → ends_with_equals (w ++ (32 ∷ s)) ≡ ends_with_equals s
unfolding ends_with_equals
ends_with_equals-space [] [] = refl
ends_with_equals-space [] (c ∷ s) = refl
ends_with_equals-space (d ∷ []) s = ends_with_equals-space [] s
ends_with_equals-space (d ∷ e ∷ w) s = ends_with_equals-space (e ∷ w) s

pub ends_with_equals-key : (k : Str) → ends_with_equals (k ++ (b'=' ∷ [])) ≡ true
unfolding ends_with_equals
ends_with_equals-key [] = refl
ends_with_equals-key (c ∷ []) = refl
ends_with_equals-key (c ∷ d ∷ k) = ends_with_equals-key (d ∷ k)

pub words-space :
    (w s : Str) → no_space w ≡ true → (w == []) ≡ false → words (w ++ (32 ∷ s)) ≡ w ∷ words s
unfolding words keep
words-space w s h ne = rw (pieces-append w s 32 h (unfold is_space in refl), ne) refl

-- A word with no value or an unquoted one.
abbrev pub plain_word : Arg → Bool
plain_word (flag k) = true
plain_word (plain k v) = true
plain_word (quoted k v) = false

pub parse_karg-flag :
    (k : Str) → lacks b'=' k ≡ true → parse_karg k ≡ (replace_char b'-' b'_' k, none)
unfolding parse_karg
parse_karg-flag k h = rw (partition-none b'=' k h) refl

pub parse_karg-plain :
    (k v : Str)
    → lacks b'=' k ≡ true
    → parse_karg (k ++ (b'=' ∷ v)) ≡ (replace_char b'-' b'_' k, some v)
unfolding parse_karg
parse_karg-plain k v h = rw (partition-append b'=' k v h) refl

pub split_on-cons : (c : ℕ) (s : Str) → (p : Str) × (ps : List Str) × (split_on c s ≡ p ∷ ps)
unfolding split_on
split_on-cons c [] = ([], [], refl)
split_on-cons c (d ∷ s) =
    let (p, ps, e) = split_on-cons c s in
    elim (Bool-cases (c == d)) [
      | inl same ↦ ([], split_on c s, rw same refl)
      | inr other ↦ (d ∷ p, ps, rw (other, e) refl)
    ]

pub split_on-prefix :
    (c : ℕ) (w s p : Str) (ps : List Str)
    → lacks c w ≡ true
    → split_on c s ≡ p ∷ ps
    → split_on c (w ++ s) ≡ (w ++ p) ∷ ps
unfolding split_on lacks all
split_on-prefix c [] s p ps h e = e
split_on-prefix c (d ∷ w) s p ps h e =
    let ih = split_on-prefix c w s p ps (ground arith) e in
    let ne : (c == d) ≡ false = ground (arith, h) in rw (ih, ne) refl

-- What one argument does to the variables of the loop.
abbrev pub after_word : Str → Str × Kargs → Str × Kargs
after_word w (key, m) = let (k, v) = parse_karg w in (k, Dict.insert k v m)

pub segment-word :
    (w s : Str) (ss : List Str) (st : Str × Kargs)
    → no_space w ≡ true
    → (w == []) ≡ false
    → parse_segments true st ((w ++ (32 ∷ s)) ∷ ss) ≡ parse_segments true (after_word w st) (s ∷ ss)
unfolding parse_segments add_words
segment-word w s [] (key, m) h ne = rw (words-space w s h ne) refl
segment-word w s (q ∷ ss) (key, m) h ne = rw (words-space w s h ne, ends_with_equals-space w s) refl

pub words_leading : (s : Str) → words (32 ∷ s) ≡ words s
unfolding words keep
words_leading s = refl

pub segment-space :
    (s : Str) (ss : List Str) (st : Str × Kargs)
    → parse_segments false st ((32 ∷ s) ∷ ss) ≡ parse_segments true st (s ∷ ss)
unfolding parse_segments begins_with_text
segment-space s [] (key, m) = ap (λ ws. ok (add_words ws (key, m)).1) (words_leading s)
segment-space s (q ∷ ss) (key, m) = rw (words_leading s, ends_with_equals-space [] s) refl

pub insert-insert :
    (k : Str) (v v' : Option Str) (m : Kargs)
    → Dict.insert k v (Dict.insert k v' m) ≡ Dict.insert k v m
unfolding Dict.insert
insert-insert k v v' [] = ground (arith, list_beq_iff k k)
insert-insert k v v' ((j, u) ∷ m) =
    ground (arith, insert-insert k v v' m, list_beq_iff k j, list_beq_iff k k)

pub words-key : (w : Str) → no_space w ≡ true → (w == []) ≡ false → words w ≡ w ∷ []
unfolding words keep
words-key w h ne = rw (pieces-word w h, ne) refl

pub no_space-append : (p s : Str) → no_space (p ++ s) ≡ (no_space p && no_space s)
unfolding no_space
no_space-append p s = all-append (λ d. not (is_space d)) p s

pub lacks-append : (c : ℕ) (p s : Str) → lacks c (p ++ s) ≡ (lacks c p && lacks c s)
unfolding lacks
lacks-append c p s = all-append (λ d. not (c == d)) p s

pub add_words-one : (w : Str) (st : Str × Kargs) → add_words (w ∷ []) st ≡ after_word w st
unfolding add_words
add_words-one w (key, m) = refl
