-- ===== src/Base/Texts.antt =====
-- Texts as lists of code points, with the methods of `str` that the code calls.
use Prim.Native.Nat.{ℕ, ◌-◌}
use Prim.Native.Char.{code}
use Prim.Native.String.{String}
use mathlib.Core.Path.{◌≡◌, refl}
use mathlib.Core.Bool.{Bool, true, false, ◌&&◌, ◌||◌}
use mathlib.Core.List.{List, [], ◌∷◌, ◌++◌}
use native.Mathlib.Omega.{arith}
use secureblue.Base.Tests.{if◌then◌else◌, leb, le→leb}
use secureblue.Base.Equality.{◌==◌, nat_eq, list_eq, list_beq, beq_self}
use secureblue.Base.Lists.{length, drop, take, length-append, drop-append, take-append}

abbrev pub Str : Type 0
Str = List ℕ

-- The code points of a literal.
abbrev pub codes : String → Str
codes String.[] = []
codes (String.◌∷◌ c s) = code c ∷ codes s

unfoldable pub starts_with : Str → Str → Bool
starts_with s [] = true
starts_with [] (p ∷ ps) = false
starts_with (c ∷ s) (p ∷ ps) = c == p && starts_with s ps

-- `s.endswith(p)`
unfoldable pub ends_with : Str → Str → Bool
unfolding list_beq
ends_with s p = leb (length p) (length s) && drop (length s - length p) s == p

-- `s.removesuffix(p)`
unfoldable pub remove_suffix : Str → Str → Str
remove_suffix s p = if ends_with s p then take (length s - length p) s else s

-- `s.removeprefix(p)`
unfoldable pub remove_prefix : Str → Str → Str
unfolding starts_with
remove_prefix s p = if starts_with s p then drop (length p) s else s

-- `s.rstrip(c)` for one character
unfoldable pub rstrip_char : ℕ → Str → Str
unfolding list_beq
rstrip_char c [] = []
rstrip_char c (d ∷ s) = let r = rstrip_char c s in if r == [] && c == d then [] else d ∷ r

-- `sep.join(parts)`
unfoldable pub join : Str → List Str → Str
join sep [] = []
join sep (s ∷ []) = s
join sep (s ∷ t ∷ rest) = s ++ (sep ++ join sep (t ∷ rest))

-- Python's `str.isspace` on the ASCII range
unfoldable pub is_space : ℕ → Bool
is_space c = (leb 9 c && leb c 13) || (leb 28 c && leb c 32)

pub starts_with-append : (p s : Str) → starts_with (p ++ s) p ≡ true
unfolding starts_with
starts_with-append [] s = refl
starts_with-append (c ∷ p) s = ground (arith, starts_with-append p s)

pub ends_with-append : (s p : Str) → ends_with (s ++ p) p ≡ true
unfolding ends_with
ends_with-append s p =
    rw
      (
        le→leb (length p) (length (s ++ p)) (omega (arith, length-append s p)),
        drop-append s p (length (s ++ p) - length p) 0 (omega (arith, length-append s p)),
      )
      (beq_self p)

pub remove_suffix-append : (s p : Str) → remove_suffix (s ++ p) p ≡ s
unfolding remove_suffix
remove_suffix-append s p =
    rw (ends_with-append s p)
      (take-append s p (length (s ++ p) - length p) (omega (arith, length-append s p)))

-- `s.lstrip()`, `s.rstrip()` and `s.strip()`
unfoldable pub lstrip : Str → Str
unfolding is_space
lstrip [] = []
lstrip (c ∷ s) = elim (is_space c) [ true ↦ lstrip s | false ↦ c ∷ s ]

unfoldable pub rstrip : Str → Str
unfolding is_space list_beq
rstrip [] = []
rstrip (c ∷ s) = let r = rstrip s in if r == [] && is_space c then [] else c ∷ r

unfoldable pub strip : Str → Str
unfolding lstrip rstrip
strip s = rstrip (lstrip s)

-- The lines of a text that ends each of them by a line feed; what follows the last is a line too.
unfoldable pub split_lines : Str → List Str
split_lines [] = []
split_lines (c ∷ s) =
    let rest = split_lines s in
    if c == 10 then [] ∷ rest else elim rest [ [] ↦ (c ∷ []) ∷ [] | l ∷ ls ↦ (c ∷ l) ∷ ls ]
