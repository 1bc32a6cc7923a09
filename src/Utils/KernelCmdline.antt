-- ===== src/Utils/KernelCmdline.antt =====
-- `parse_kernel_cmdline` of shared/utils.py.
use secureblue.Base.{Bool, true, false, not, ◌&&◌, if◌then◌else◌}
use secureblue.Base.{Option, some, List, [], ◌∷◌}
use secureblue.Base.{◌==◌, nat_eq, string_eq, list_eq, list_beq}
use secureblue.Base.Dict
use secureblue.Base.Dict.{Dict}
use secureblue.Base.Exec.{Result, ok, err}
use secureblue.Base.{Str, is_space}
use secureblue.Base.Words.{split_on, words, partition, replace_char}

abbrev pub Kargs : Type 0
Kargs = Dict Str (Option Str)

pub data CmdlineError : Type 0 where
  unmatched_quote closing_quote opening_quote : CmdlineError

-- `len(split_by_quotes) % 2 == 0`
unfoldable pub is_even : List Str → Bool
is_even [] = true
is_even (s ∷ []) = false
is_even (s ∷ t ∷ rest) = is_even rest

-- The name of an argument, with its hyphens replaced, and its value.
unfoldable pub parse_karg : Str → Str × Option Str
unfolding partition replace_char
parse_karg karg = let (key, value) = partition b'=' karg in (replace_char b'-' b'_' key, value)

-- The loop over the words of a segment, with the key that it leaves in the variable `key`.
unfoldable pub add_words : List Str → Str × Kargs → Str × Kargs
unfolding parse_karg Dict.insert list_beq
add_words [] s = s
add_words (karg ∷ rest) (key, kargs) =
    let (k, v) = parse_karg karg in add_words rest (k, Dict.insert k v kargs)

-- `re.match(r"\S", segment)`
unfoldable pub begins_with_text : Str → Bool
unfolding is_space
begins_with_text [] = false
begins_with_text (c ∷ s) = not (is_space c)

unfoldable pub ends_with_equals : Str → Bool
ends_with_equals [] = false
ends_with_equals (c ∷ []) = c == b'='
ends_with_equals (c ∷ d ∷ s) = ends_with_equals (d ∷ s)

-- The `while` loop over the segments, an unquoted one and a quoted one at a time.
unfoldable pub parse_segments : Bool → Str × Kargs → List Str → Result CmdlineError Kargs
unfolding add_words words begins_with_text ends_with_equals Dict.insert list_beq
parse_segments first_segment (key, kargs) [] = ok kargs
parse_segments first_segment s (unquoted ∷ []) =
    if not first_segment && begins_with_text unquoted
    then err closing_quote
    else ok (add_words (words unquoted) s).1
parse_segments first_segment s (unquoted ∷ quoted ∷ rest) =
    let (key, kargs) = add_words (words unquoted) s in
    let next = parse_segments false (key, Dict.insert key (some quoted) kargs) rest in
    if not first_segment && begins_with_text unquoted
    then err closing_quote
    else if ends_with_equals unquoted
    then next
    else err opening_quote

-- `key` has no value before the first word; a segment that ends with `=` has one.
unfoldable pub parse_kernel_cmdline : Str → Result CmdlineError Kargs
unfolding split_on is_even parse_segments
parse_kernel_cmdline cmdline =
    let segments = split_on b'"' cmdline in
    if is_even segments then err unmatched_quote else parse_segments true ([], []) segments
