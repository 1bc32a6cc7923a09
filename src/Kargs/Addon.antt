-- ===== src/Kargs/Addon.antt =====
-- The file names of UKI addons: `karg_from_addon` and `addon_from_karg` of inner/set_kargs_uki.py.
use secureblue.Base.{arith}
use secureblue.Base.{◌≡◌, refl, sym, ap, ◌∙◌}
use secureblue.Base.{Bool, true, false, not, ◌&&◌, ◌||◌, if◌then◌else◌}
use secureblue.Base.{Option, none, some, [], ◌∷◌, ◌++◌}
use secureblue.Base.{◌==◌, nat_eq, string_eq, list_eq}
use mathlib.Core.Option.{some-injective}
use secureblue.Base.{ends_with-append, remove_suffix-append}
use secureblue.Base.{Str, codes, ends_with, remove_suffix}

abbrev pub addon_suffix : Str
addon_suffix = codes ".addon.efi"

-- `s.replace("__", "=")`, from the left and with no overlap
unfoldable pub underscores_to_equals : Str → Str
underscores_to_equals [] = []
underscores_to_equals (c ∷ []) = c ∷ []
underscores_to_equals (c ∷ d ∷ s) = elim (c == b'_' && d == b'_') [
  | true ↦ b'=' ∷ underscores_to_equals s
  | false ↦ c ∷ underscores_to_equals (d ∷ s)
]

-- `s.replace("=", "__")`
unfoldable pub equals_to_underscores : Str → Str
equals_to_underscores [] = []
equals_to_underscores (c ∷ s) =
    let rest = equals_to_underscores s in if c == b'=' then b'_' ∷ b'_' ∷ rest else c ∷ rest

-- `none` is the ValueError.
unfoldable pub karg_from_addon : Str → Option Str
unfolding underscores_to_equals
karg_from_addon addon =
    if ends_with addon addon_suffix
    then some (remove_suffix (underscores_to_equals addon) addon_suffix)
    else none

unfoldable pub addon_from_karg : Str → Str
unfolding equals_to_underscores
addon_from_karg karg = equals_to_underscores karg ++ addon_suffix

-- No `_` stands before another `_` or before a `=`.
unfoldable pub is_canonical : Str → Bool
is_canonical [] = true
is_canonical (c ∷ []) = true
is_canonical (c ∷ d ∷ s) = not (c == b'_' && (d == b'_' || d == b'=')) && is_canonical (d ∷ s)

underscores_to_equals_back :
    (k : Str)
    → is_canonical k ≡ true
    → underscores_to_equals (equals_to_underscores k ++ addon_suffix) ≡ k ++ addon_suffix
unfolding underscores_to_equals equals_to_underscores is_canonical
underscores_to_equals_back [] h = refl
underscores_to_equals_back (c ∷ []) h = ground arith
underscores_to_equals_back (c ∷ d ∷ s) h = ground (arith, underscores_to_equals_back (d ∷ s))

-- A kernel argument in which no `_` stands before a `_` or a `=` is found again in the name of its
-- addon.
pub karg_from_addon-addon_from_karg :
    (k : Str) → is_canonical k ≡ true → karg_from_addon (addon_from_karg k) ≡ some k
unfolding karg_from_addon addon_from_karg
karg_from_addon-addon_from_karg k h = rw (
  ends_with-append (equals_to_underscores k) addon_suffix,
  underscores_to_equals_back k h,
  remove_suffix-append k addon_suffix,
)

-- Two such arguments have different addons.
pub addon_from_karg-injective :
    (j k : Str)
    → is_canonical j ≡ true
    → is_canonical k ≡ true
    → addon_from_karg j ≡ addon_from_karg k
    → j ≡ k
addon_from_karg-injective j k hj hk e = some-injective j k (
    sym (karg_from_addon-addon_from_karg j hj)
    ∙ ap karg_from_addon e
    ∙ karg_from_addon-addon_from_karg k hk)
