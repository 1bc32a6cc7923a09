-- ===== src/Flatpak/Sections.antt =====
-- When the parser of flatpak's permissions raises a KeyError.
use secureblue.Base.{◌-◌, arith}
use secureblue.Base.{◌≡◌, refl, sym, ap, ◌∙◌, ◌≢◌, inl, inr}
use secureblue.Base.{Bool, true, false, ◌&&◌, ◌||◌, if◌then◌else◌, Bool-cases}
use secureblue.Base.{Option, none, some, List, [], ◌∷◌}
use secureblue.Base.{◌==◌, nat_eq, string_eq, list_eq, contains, beq_self}
use secureblue.Base.{length, slice, Option-cases}
use secureblue.Base.Dict
use secureblue.Base.Dict.{Dict, lookup-insert}
use secureblue.Base.Exec.{Result, ok, err, Result-cases, err-injective}
use secureblue.Base.{Str, codes, starts_with, ends_with, strip, split_lines}
use secureblue.Flatpak.Permissions.{
  ParseError, ConfigSections, split_once, parse_line, parse_lines, parse_config_sections,
  parse_flatpak_permissions,
}

abbrev is_skipped : Str → Bool
is_skipped line = line == [] || starts_with line (codes "#")

abbrev is_header : Str → Bool
is_header line = starts_with line (codes "[") && ends_with line (codes "]")

-- The first line that is neither blank nor a comment is no header of a section, and has a `=`.
pub stray_key : List Str → Bool
stray_key [] = false
stray_key (raw_line ∷ rest) =
    let more = stray_key rest in
    if is_skipped (strip raw_line)
    then more
    else if is_header (strip raw_line)
    then false
    else contains (strip raw_line) b'='

split_once-contains :
    (line : Str) (entry : Str × Str) → split_once line ≡ some entry → contains line b'=' ≡ true
unfolding split_once contains
split_once-contains [] entry h = ground (arith, h)
split_once-contains (c ∷ s) entry h = elim (Bool-cases (c == b'=')) [
  | inl e ↦ ground (arith, e)
  | inr e ↦ elim (Option-cases (split_once s)) [
    | inl f ↦ let no_way = rw (e, f) at h in ground (arith, no_way)
    | inr (more, f) ↦ ground (arith, split_once-contains s more f)
  ]
]

-- A current section is one of the sections; a line does not end in a KeyError.
abbrev Opened : Result ParseError (Option Str × ConfigSections) → Type 0
Opened (err ParseError.value_error) = Unit {0}
Opened (err ParseError.key_error) = ⊥
Opened (ok (none, sections)) = ⊥
Opened (ok (some section, sections)) =
    (lines : Dict Str Str) × (Dict.lookup section sections ≡ some lines)

lookup-insert_same :
    {V : Type 0} (k : Str) (v : V) (d : Dict Str V) → Dict.lookup k (Dict.insert k v d) ≡ some v
lookup-insert_same k v d = rw (lookup-insert k k v d, beq_self k) refl

parse_line-Opened :
    (section : Str) (sections : ConfigSections) (lines : Dict Str Str) (line : Str)
    → Dict.lookup section sections ≡ some lines
    → Opened (parse_line (some section, sections) line)
unfolding parse_line
parse_line-Opened section sections lines line there = elim (Bool-cases (is_skipped line)) [
  | inl e ↦ rw (parse_line, e) (lines, there)
  | inr e ↦ elim (Bool-cases (is_header line)) [
    | inl f ↦
        rw (parse_line, e, f) ([], lookup-insert_same (slice line 1 (length line - 1)) [] sections)
    | inr f ↦ elim (Option-cases (split_once line)) [
      | inl g ↦ rw (parse_line, e, f, g) tt
      | inr ((key, value), g) ↦
          rw (parse_line, e, f, g, there)
            (
              Dict.insert key value lines,
              lookup-insert_same section (Dict.insert key value lines) sections,
            )
    ]
  ]
]

-- The loop after a line
abbrev after_line :
    Result ParseError (Option Str × ConfigSections) → List Str → Result ParseError ConfigSections
after_line (err e) rest = err e
after_line (ok t) rest = parse_lines t rest

parse_lines-after_line :
    (s : Option Str × ConfigSections) (raw_line : Str) (rest : List Str)
    → parse_lines s (raw_line ∷ rest) ≡ after_line (parse_line s (strip raw_line)) rest
unfolding parse_lines
parse_lines-after_line s raw_line rest = elim (Result-cases (parse_line s (strip raw_line))) [
  | inl (e, f) ↦ rw (f, parse_lines) refl
  | inr (t, f) ↦ rw (f, parse_lines) refl
]

after_line-Opened :
    (r : Result ParseError (Option Str × ConfigSections)) (rest : List Str)
    → Opened r
    → ((section : Str) (sections : ConfigSections) (lines : Dict Str Str)
        → Dict.lookup section sections ≡ some lines
        → parse_lines (some section, sections) rest ≢ err ParseError.key_error)
    → after_line r rest ≢ err ParseError.key_error
after_line-Opened (err ParseError.value_error) rest opened ih h =
    let wrong = err-injective ParseError.value_error ParseError.key_error h in cc
after_line-Opened (err ParseError.key_error) rest opened ih h = opened
after_line-Opened (ok (none, sections)) rest opened ih h = opened
after_line-Opened (ok (some section, sections)) rest (lines, there) ih h =
    ih section sections lines there h

-- Behind a header no line ends in a KeyError.
parse_lines-Opened :
    (raw_lines : List Str) (section : Str) (sections : ConfigSections) (lines : Dict Str Str)
    → Dict.lookup section sections ≡ some lines
    → parse_lines (some section, sections) raw_lines ≢ err ParseError.key_error
unfolding parse_lines
parse_lines-Opened [] section sections lines there h = cc
parse_lines-Opened (raw_line ∷ rest) section sections lines there h =
    after_line-Opened (parse_line (some section, sections) (strip raw_line)) rest
      (parse_line-Opened section sections lines (strip raw_line) there)
      (λ section' sections' lines' there'. parse_lines-Opened rest section' sections' lines' there')
      (sym (parse_lines-after_line (some section, sections) raw_line rest) ∙ h)

-- Before the first header, only a line with a `=` ends in a KeyError.
parse_lines-stray_key :
    (raw_lines : List Str) (sections : ConfigSections)
    → parse_lines (none, sections) raw_lines ≡ err ParseError.key_error
    → stray_key raw_lines ≡ true
unfolding parse_lines stray_key parse_line
parse_lines-stray_key [] sections h = let no_way = h in absurd (ground (arith, no_way))
parse_lines-stray_key (raw_line ∷ rest) sections h =
    let line = strip raw_line in
    let g = sym (parse_lines-after_line (none, sections) raw_line rest) ∙ h in
    elim (Bool-cases (is_skipped line)) [
      | inl e ↦ rw e (parse_lines-stray_key rest sections (rw (e, parse_line) at g))
      | inr e ↦ elim (Bool-cases (is_header line)) [
        | inl f ↦
            let section = slice line 1 (length line - 1) in
            absurd (
              parse_lines-Opened rest section (Dict.insert section [] sections) []
                (lookup-insert_same section [] sections) (rw (e, f, parse_line) at g))
        | inr f ↦ elim (Option-cases (split_once line)) [
          | inl k ↦ let no_way = rw (e, f, k, parse_line) at g in absurd (ground (arith, no_way))
          | inr (entry, k) ↦ rw (e, f) (split_once-contains line entry k)
        ]
      ]
    ]

-- The parser ends in a KeyError only where a key stands before the first section.
pub parse_flatpak_permissions-stray_key :
    (perms_text : Str)
    → parse_flatpak_permissions perms_text ≡ err ParseError.key_error
    → stray_key (split_lines perms_text) ≡ true
unfolding parse_flatpak_permissions parse_config_sections
parse_flatpak_permissions-stray_key perms_text h =
    elim (Result-cases (parse_lines (none, []) (split_lines perms_text))) [
      | inl (e, f) ↦ parse_lines-stray_key (split_lines perms_text) [] (
          f
          ∙ ap err (err-injective e ParseError.key_error (rw (f, parse_flatpak_permissions) at h)))
      | inr (t, f) ↦
          let no_way = rw (f, parse_flatpak_permissions) at h in absurd (ground (arith, no_way))
    ]
