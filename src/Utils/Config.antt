-- ===== src/Utils/Config.antt =====
-- Configuration files and the other readers of shared/utils.py.
use secureblue.Base.{ℕ}
use secureblue.Base.{Bool, false, not, ◌||◌, if◌then◌else◌}
use secureblue.Base.{Option, none, some, List, [], ◌∷◌, ◌++◌}
use secureblue.Base.{◌==◌, nat_eq, string_eq, list_eq, list_beq}
use secureblue.Base.{any}
use secureblue.Base.Dict
use secureblue.Base.Dict.{Dict}
use secureblue.Base.{Str, codes, starts_with, strip, split_lines}
use secureblue.Base.Words.{words, partition}
use secureblue.Base.Words.{is_infix, split_at}

-- `parse_config`: the lines that have a separator and are neither comments nor headings of sections.
unfoldable pub config_line : ℕ → Str → Option (Str × Str)
unfolding partition strip starts_with
config_line sep line =
    let (key, found) = partition sep line in
    elim found [
      | none ↦ none
      | some value ↦
          if starts_with line (codes "#") || starts_with line (codes "[")
          then none
          else some (strip key, strip value)
    ]

unfoldable pub config_lines : ℕ → List Str → Dict Str Str → Dict Str Str
unfolding config_line strip Dict.insert list_beq
config_lines sep [] config = config
config_lines sep (raw_line ∷ rest) config =
    config_lines sep rest (elim (config_line sep (strip raw_line)) [
      | none ↦ config
      | some (key, value) ↦ Dict.insert key value config
    ])

unfoldable pub parse_config : ℕ → List Str → Dict Str Str
unfolding config_lines
parse_config sep stream = config_lines sep stream []

-- The lines of /proc/modules; an error of the system is `none`.
unfoldable pub is_module_loaded : Str → Option (List Str) → Bool
unfolding any starts_with
is_module_loaded module_name none = false
is_module_loaded module_name (some lines) =
    any (λ line. starts_with line (module_name ++ codes " ")) lines

-- `line.split(maxsplit=1)[0]`; `none` is the IndexError on an empty line.
unfoldable pub first_word : Str → Option Str
unfolding words
first_word line = elim (words line) [ [] ↦ none | w ∷ ws ↦ some w ]

unfoldable pub loaded_kernel_modules : List Str → Option (List Str)
unfolding first_word
loaded_kernel_modules [] = some []
loaded_kernel_modules (line ∷ rest) =
    let more = loaded_kernel_modules rest in
    elim (first_word line) [
      | none ↦ none
      | some w ↦ elim more [ none ↦ none | some ws ↦ some (w ∷ ws) ]
    ]

-- `is_using_vpn`, given what the three commands print, stripped.
unfoldable pub is_using_vpn : (wg_out route_out tuntap_out : Str) → Bool
unfolding any is_infix partition split_lines list_beq
is_using_vpn wg_out route_out tuntap_out =
    not (wg_out == [])
    || any (λ tuntap. is_infix (codes "dev " ++ (partition b':' tuntap).0) route_out)
        (split_lines tuntap_out)

-- `get_selinux_booleans`, given what getsebool prints; `none` is the ValueError on another line.
unfoldable pub booleans_on : List Str → Option (List Str)
unfolding split_at list_beq
booleans_on [] = some []
booleans_on (line ∷ rest) =
    let more = booleans_on rest in
    elim (split_at (codes " --> ") line) [
      | none ↦ none
      | some (key, value) ↦ elim more [
        | none ↦ none
        | some keys ↦ some (if value == codes "on" then key ∷ keys else keys)
      ]
    ]

unfoldable pub get_selinux_booleans : Str → Option (List Str)
unfolding booleans_on split_lines strip
get_selinux_booleans output = booleans_on (split_lines (strip output))

-- The arguments of `set_selinux_booleans` to `run0 -i setsebool`.
unfoldable pub assignments : List (Str × Bool) → List Str
assignments [] = []
assignments ((key, value) ∷ rest) =
    (key ++ (codes "=" ++ (if value then codes "on" else codes "off"))) ∷ assignments rest

unfoldable pub setsebool_args : List (Str × Bool) → Bool → List Str
unfolding assignments
setsebool_args sebools permanent =
    (if permanent then codes "-P" ∷ [] else []) ++ assignments sebools
