-- ===== src/Flatpak/Permissions.antt =====
-- The permissions of an app, parsed from what flatpak prints.
use secureblue.Base.Words.{split_on}
use secureblue.Base.{◌-◌}
use secureblue.Base.{not, ◌&&◌, ◌||◌, if◌then◌else◌}
use secureblue.Base.{Option, none, some, List, [], ◌∷◌}
use secureblue.Base.{◌==◌, nat_eq, string_eq, list_eq, list_beq}
use secureblue.Base.{length, slice, keep}
use secureblue.Base.Dict
use secureblue.Base.Dict.{Dict}
use secureblue.Base.Exec.{Result, ok, err}
use secureblue.Base.{Str, codes, starts_with, ends_with, strip, split_lines}

pub record Permissions : Type 0 where
  pub permissions : Dict Str (List Str)
  pub environment : Dict Str Str
  pub session_bus_talk : List Str
  pub session_bus_own : List Str
  pub system_bus_talk : List Str
  pub system_bus_own : List Str

abbrev pub no_permissions : Permissions
no_permissions = record {
  permissions = [];
  environment = [];
  session_bus_talk = [];
  session_bus_own = [];
  system_bus_talk = [];
  system_bus_own = [];
}

pub data ParseError : Type 0 where
  value_error key_error : ParseError

abbrev pub ConfigSections : Type 0
ConfigSections = Dict Str (Dict Str Str)

-- `key, value = line.split("=", maxsplit=1)`; `none` is the ValueError.
unfoldable pub split_once : Str → Option (Str × Str)
split_once [] = none
split_once (c ∷ s) =
    let rest = split_once s in
    if c == b'=' then some ([], s) else elim rest [ none ↦ none | some (k, v) ↦ some (c ∷ k, v) ]

-- The body of the loop for one line, already stripped.
unfoldable pub parse_line :
    Option Str × ConfigSections → Str → Result ParseError (Option Str × ConfigSections)
unfolding starts_with ends_with split_once Dict.insert Dict.lookup slice list_beq
parse_line (current, sections) line =
    if line == [] || starts_with line (codes "#")
    then ok (current, sections)
    else if starts_with line (codes "[") && ends_with line (codes "]")
    then ok (
      some (slice line 1 (length line - 1)),
      Dict.insert (slice line 1 (length line - 1)) [] sections,
    )
    else elim (split_once line) [
      | none ↦ err value_error
      | some (key, value) ↦ elim current [
        | none ↦ err key_error
        | some section ↦ elim (Dict.lookup section sections) [
          | none ↦ err key_error
          | some lines ↦
              ok (some section, Dict.insert section (Dict.insert key value lines) sections)
        ]
      ]
    ]

unfoldable pub parse_lines :
    Option Str × ConfigSections → List Str → Result ParseError ConfigSections
unfolding parse_line strip
parse_lines (current, sections) [] = ok sections
parse_lines s (raw_line ∷ rest) = elim (parse_line s (strip raw_line)) [
  | err e ↦ err e
  | ok t ↦ parse_lines t rest
]

unfoldable pub parse_config_sections : Str → Result ParseError ConfigSections
unfolding parse_lines split_lines
parse_config_sections conf_text = parse_lines (none, []) (split_lines conf_text)

-- `[key for key, value in lines.items() if value == wanted]`
unfoldable pub keys_with : Str → Dict Str Str → List Str
unfolding list_beq
keys_with wanted [] = []
keys_with wanted ((k, v) ∷ d) =
    let rest = keys_with wanted d in if v == wanted then k ∷ rest else rest

unfoldable pub add_permissions : Dict Str Str → Dict Str (List Str) → Dict Str (List Str)
unfolding Dict.insert split_on keep list_beq
add_permissions [] d = d
add_permissions ((k, v) ∷ rest) d =
    add_permissions rest (Dict.insert k (keep (λ val. not (val == [])) (split_on b';' v)) d)

unfoldable pub add_section : Permissions → Str → Dict Str Str → Permissions
unfolding keys_with add_permissions list_beq
add_section perms section lines =
    if section == codes "Session Bus Policy"
    then record perms {
      session_bus_talk = keys_with (codes "talk") lines;
      session_bus_own = keys_with (codes "own") lines;
    }
    else if section == codes "System Bus Policy"
    then record perms {
      system_bus_talk = keys_with (codes "talk") lines;
      system_bus_own = keys_with (codes "own") lines;
    }
    else if section == codes "Environment"
    then record perms { environment = lines }
    else record perms { permissions = add_permissions lines perms.permissions }

unfoldable pub add_sections : Permissions → ConfigSections → Permissions
unfolding add_section
add_sections perms [] = perms
add_sections perms ((section, lines) ∷ rest) = add_sections (add_section perms section lines) rest

unfoldable pub parse_flatpak_permissions : Str → Result ParseError Permissions
unfolding parse_config_sections add_sections
parse_flatpak_permissions perms_text = elim (parse_config_sections perms_text) [
  | err e ↦ err e
  | ok sections ↦ ok (add_sections no_permissions sections)
]
