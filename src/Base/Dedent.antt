-- ===== src/Base/Dedent.antt =====
-- `textwrap.dedent` of Python's standard library.
use secureblue.Base.{ℕ}
use secureblue.Base.{Bool, ◌||◌, if◌then◌else◌}
use secureblue.Base.{Option, none, some, List, [], ◌∷◌, map}
use secureblue.Base.{◌==◌, nat_eq}
use secureblue.Base.{all, length, drop}
use secureblue.Base.{Str, join}
use secureblue.Base.Words.{split_on}

abbrev is_blank : ℕ → Bool
is_blank c = c == 32 || c == 9

-- The spaces and tabs that a line begins with
unfoldable pub indent_of : Str → Str
indent_of [] = []
indent_of (c ∷ s) = let more = indent_of s in if is_blank c then c ∷ more else []

unfoldable pub common_prefix : Str → Str → Str
common_prefix [] t = []
common_prefix (c ∷ s) [] = []
common_prefix (c ∷ s) (d ∷ t) = let more = common_prefix s t in if c == d then c ∷ more else []

unfoldable pub only_blanks : Str → Bool
unfolding all
only_blanks line = all is_blank line

-- What the lines that are not blank have in common at their beginning
unfoldable pub margin_of : List Str → Option Str
unfolding indent_of common_prefix only_blanks
margin_of [] = none
margin_of (line ∷ lines) =
    let rest = margin_of lines in
    if only_blanks line then rest else elim rest [
      | none ↦ some (indent_of line)
      | some m ↦ some (common_prefix (indent_of line) m)
    ]

abbrev margin_length : Option Str → ℕ
margin_length none = 0
margin_length (some m) = length m

unfoldable pub dedent : Str → Str
unfolding margin_of only_blanks split_on join
dedent text =
    let lines = split_on 10 text in
    let margin = margin_length (margin_of lines) in
    join (10 ∷ []) (map (λ line. if only_blanks line then [] else drop margin line) lines)
