-- ===== src/Utils/Printed.antt =====
-- The kernel command line that is printed is parsed again.
use secureblue.Base.{arith}
use secureblue.Base.{◌≡◌, refl, ap, ◌∙◌}
use secureblue.Base.{true, false, if◌then◌else◌}
use secureblue.Base.{Option, none, some, List, [], ◌∷◌, ◌++◌}
use secureblue.Base.{◌==◌, nat_eq, string_eq, list_eq, list_beq}
use secureblue.Base.{all, keep}
use secureblue.Base.Dict.{lookup-insert}
use secureblue.Base.Dict
use secureblue.Base.Dict.{Dict}
use secureblue.Base.Exec.{ok}
use secureblue.Base.{Str}
use secureblue.Base.Words.{split_on, words, lacks, pieces}
use secureblue.Utils.KernelCmdline.{Kargs, is_even, add_words}
use secureblue.Utils.KernelCmdline.{parse_segments, parse_kernel_cmdline}
use secureblue.Utils.Segments.{
  split_on-space, set_key, split_on-quoted, segments-quoted, segments-flag, segments-plain,
}
use secureblue.Utils.Arguments.{
  Arg, is_printable, print_args, name_of, value_of_arg, effect, split_on-cons, lacks-append, flag,
  plain, quoted,
}

-- The loop over the segments of a printed command line.
parse_segments-print :
    (args : List Arg) (st : Str × Kargs)
    → all is_printable args ≡ true
    → parse_segments true st (split_on b'"' (print_args args)) ≡ ok (effect args st.1)
unfolding print_args effect all
parse_segments-print [] st h =
    unfold split_on parse_segments words pieces keep list_beq add_words in refl
parse_segments-print (flag k ∷ rest) st h =
    segments-flag k (print_args rest) st (ground arith)
    ∙ parse_segments-print rest (set_key k none st) (ground arith)
parse_segments-print (plain k v ∷ rest) st h =
    segments-plain k v (print_args rest) st (ground arith)
    ∙ parse_segments-print rest (set_key k (some v) st) (ground arith)
parse_segments-print (quoted k v ∷ rest) st h =
    segments-quoted k v (print_args rest) st (ground arith)
    ∙ parse_segments-print rest (set_key k (some v) st) (ground arith)

is_even-cons : (s t : Str) (ss : List Str) → is_even (s ∷ ss) ≡ is_even (t ∷ ss)
unfolding is_even
is_even-cons s t [] = refl
is_even-cons s t (q ∷ ss) = refl

is_even-word :
    (w t : Str)
    → lacks b'"' w ≡ true
    → is_even (split_on b'"' (w ++ (32 ∷ t))) ≡ is_even (split_on b'"' t)
is_even-word w t q =
    let (s, ss, e) = split_on-cons b'"' t in
    rw (split_on-space w t s ss q e, e) (is_even-cons (w ++ (32 ∷ s)) s ss)

is_even-quoted :
    (k v t : Str)
    → is_printable (quoted k v) ≡ true
    → is_even (split_on b'"' ((k ++ (b'=' ∷ b'"' ∷ v ++ (b'"' ∷ []))) ++ (32 ∷ t)))
      ≡ is_even (split_on b'"' t)
is_even-quoted k v t h =
    let (s, ss, e) = split_on-cons b'"' t in
    rw (split_on-quoted k v t s ss (ground arith) (ground arith) e, e)
      (unfold is_even in is_even-cons (32 ∷ s) s ss)

-- A printed command line has an odd number of segments.
is_even-print :
    (args : List Arg)
    → all is_printable args ≡ true
    → is_even (split_on b'"' (print_args args)) ≡ false
unfolding print_args all
is_even-print [] h = unfold split_on is_even in refl
is_even-print (flag k ∷ rest) h =
    is_even-word k (print_args rest) (ground arith) ∙ is_even-print rest (ground arith)
is_even-print (plain k v ∷ rest) h =
    is_even-word (k ++ (b'=' ∷ v)) (print_args rest)
      (lacks-append b'"' k (b'=' ∷ v) ∙ unfold lacks all in ground arith)
    ∙ is_even-print rest (ground arith)
is_even-print (quoted k v ∷ rest) h =
    is_even-quoted k v (print_args rest) (ground arith) ∙ is_even-print rest (ground arith)

-- What the last argument of a name says, if there is one.
unfoldable pub last_value : Str → List Arg → Option (Option Str) → Option (Option Str)
unfolding list_beq
last_value k [] before = before
last_value k (a ∷ rest) before =
    last_value k rest (if k == name_of a then some (value_of_arg a) else before)

lookup-effect :
    (k : Str) (args : List Arg) (m : Kargs)
    → Dict.lookup k (effect args m) ≡ last_value k args (Dict.lookup k m)
unfolding effect last_value
lookup-effect k [] m = refl
lookup-effect k (a ∷ rest) m =
    lookup-effect k rest (Dict.insert (name_of a) (value_of_arg a) m)
    ∙ ap (last_value k rest) (lookup-insert k (name_of a) (value_of_arg a) m)

-- A command line that is printed from arguments, with quotes where they are asked for, is parsed
-- without an error, and the mapping has for each name what the last argument of that name says.
pub parse_kernel_cmdline-print :
    (args : List Arg)
    → all is_printable args ≡ true
    → (m : Kargs) × (parse_kernel_cmdline (print_args args) ≡ ok m)
      × ((k : Str) → Dict.lookup k m ≡ last_value k args none)
unfolding parse_kernel_cmdline
parse_kernel_cmdline-print args h = (
  effect args [],
  rw (is_even-print args h) (parse_segments-print args ([], []) h),
  λ k. lookup-effect k args [] ∙ ap (last_value k args) (unfold Dict.lookup in refl),
)
