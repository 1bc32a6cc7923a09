-- ===== src/Auditor/Recs.antt =====
-- `_print_recs`: recommendations of one text are merged into one.
use secureblue.Base.{arith}
use secureblue.Base.{◌≡◌, refl, ◌∙◌, inl, inr}
use secureblue.Base.{Bool, true, false, ◌||◌, if◌then◌else◌}
use secureblue.Base.{Option, none, some, List, [], ◌∷◌, ◌++◌, Str}
use secureblue.Base.{◌==◌, nat_eq, list_eq, list_beq_iff}
use secureblue.Base.Dict
use secureblue.Base.Dict.{Dict}
use secureblue.Base.{Option-cases}
use mathlib.Core.List.{append_assoc, append-nil}
use secureblue.Base.Dict.{lookup-insert}
use secureblue.Auditor.Report.{Recommendation}

abbrev pub Merged : Type 0
Merged = Dict Str (List Str)

-- The texts of the mergeable recommendations, each with no names yet.
unfoldable pub merge_keys : Merged → List Recommendation → Merged
unfolding Dict.insert
merge_keys d [] = d
merge_keys d (r ∷ rs) =
    merge_keys (elim r.mergeable_name [ none ↦ d | some name ↦ Dict.insert r.text [] d ]) rs

-- `merged_recs_data[text].append(name)`
unfoldable pub add_name : Str → Str → Merged → Merged
add_name text name [] = []
add_name text name ((t, names) ∷ d) =
    let rest = add_name text name d in
    if text == t then (t, names ++ (name ∷ [])) ∷ d else (t, names) ∷ rest

-- A printed recommendation: its text, and the names to put in the place of the placeholder.
abbrev pub Printed : Type 0
Printed = Str × Option (List Str)

unfoldable pub merge_names : Merged → List Recommendation → List Printed × Merged
unfolding add_name
merge_names d [] = ([], d)
merge_names d (r ∷ rs) = elim r.mergeable_name [
  | none ↦ let (out, d') = merge_names d rs in ((r.text, none) ∷ out, d')
  | some name ↦ merge_names (add_name r.text name d) rs
]

unfoldable pub print_merged : Merged → List Printed
print_merged [] = []
print_merged ((t, names) ∷ d) = (t, some names) ∷ print_merged d

unfoldable pub print_recs : List Recommendation → List Printed
unfolding merge_keys merge_names print_merged
print_recs recs = let (out, d) = merge_names (merge_keys [] recs) recs in out ++ print_merged d

-- The names that are asked for under a text, in order.
pub names_under : Str → List Recommendation → List Str
names_under t [] = []
names_under t (r ∷ rs) = elim r.mergeable_name [
  | none ↦ names_under t rs
  | some name ↦ if t == r.text then name ∷ names_under t rs else names_under t rs
]

unfoldable pub is_mergeable_text : Str → List Recommendation → Bool
is_mergeable_text t [] = false
is_mergeable_text t (r ∷ rs) = elim r.mergeable_name [
  | none ↦ is_mergeable_text t rs
  | some name ↦ t == r.text || is_mergeable_text t rs
]

lookup-add_name :
    (t text name : Str) (d : Merged)
    → Dict.lookup t (add_name text name d) ≡ (
        if t == text
        then elim (Dict.lookup t d) [ none ↦ none | some ns ↦ some (ns ++ (name ∷ [])) ]
        else Dict.lookup t d)
unfolding add_name Dict.lookup
lookup-add_name t text name [] = ground arith
lookup-add_name t text name ((u, ns) ∷ d) = ground (
  arith,
  lookup-add_name t text name d,
  list_beq_iff t text,
  list_beq_iff t u,
  list_beq_iff text u,
)

lookup-merge_keys :
    (t : Str) (d : Merged) (rs : List Recommendation)
    → Dict.lookup t (merge_keys d rs)
      ≡ (if is_mergeable_text t rs then some [] else Dict.lookup t d)
unfolding merge_keys is_mergeable_text
lookup-merge_keys t d [] = refl
lookup-merge_keys t d (r ∷ rs) = elim (Option-cases r.mergeable_name) [
  | inl e ↦ rw (e, merge_keys) (ground (arith, e, lookup-merge_keys t d rs))
  | inr (name, e) ↦
      ground
        (arith, e, lookup-merge_keys t (Dict.insert r.text [] d) rs, lookup-insert t r.text [] d)
]

lookup-merge_names :
    (t : Str) (d : Merged) (rs : List Recommendation) (ns : List Str)
    → Dict.lookup t d ≡ some ns
    → Dict.lookup t (merge_names d rs).1 ≡ some (ns ++ names_under t rs)
unfolding merge_names names_under
lookup-merge_names t d [] ns h = rw append-nil h
lookup-merge_names t d (r ∷ rs) ns h = elim (Option-cases r.mergeable_name) [
  | inl e ↦ ground (arith, e, lookup-merge_names t d rs ns h)
  | inr (name, e) ↦ ground (
    arith,
    e,
    h,
    lookup-add_name t r.text name d,
    lookup-merge_names t (add_name r.text name d) rs (ns ++ (name ∷ [])),
    lookup-merge_names t (add_name r.text name d) rs ns,
    append_assoc ns (name ∷ []) (names_under t rs),
  )
]

-- Each text of a mergeable recommendation ends with all the names that ask for it, in order.
pub merged_names :
    (t : Str) (rs : List Recommendation)
    → is_mergeable_text t rs ≡ true
    → Dict.lookup t (merge_names (merge_keys [] rs) rs).1 ≡ some (names_under t rs)
merged_names t rs h =
    lookup-merge_names t (merge_keys [] rs) rs [] (lookup-merge_keys t [] rs ∙ rw h)
