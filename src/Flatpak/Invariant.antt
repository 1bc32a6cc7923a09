-- ===== src/Flatpak/Invariant.antt =====
-- The status of an app is the worst of its notes, through each of the checks.
use secureblue.Base.{ℕ, ◌≤◌, arith}
use secureblue.Base.{◌≡◌, refl, sym, ap, ◌∙◌, ◌⊎◌, inl, inr}
use secureblue.Base.{Bool, true, false, ◌||◌, if◌then◌else◌, leb}
use secureblue.Base.{Option, none, some, List, [], ◌∷◌, ◌++◌, String}
use secureblue.Base.{◌==◌, nat_eq, string_eq, list_eq, contains}
use secureblue.Base.{any, all, any-append, all-append}
use secureblue.Base.Dict
use secureblue.Base.Dict.{Dict}
use secureblue.Base.{Str, codes, Option-cases}
use secureblue.Auditor.Status.{Status, info, warn, value, downgrade_to}
use secureblue.Auditor.Report.{Note, Recommendation}
use secureblue.Flatpak.Permissions.{Permissions}
use secureblue.Flatpak.State.{
  FlatpakPermissionsState, new_state, update, or_arbitrary, PermissionCheck,
}
use secureblue.Flatpak.State.{note_of, recommendation}
use secureblue.Flatpak.Checks.{arbitrary_permissions_expected}
use secureblue.Flatpak.Checks.{predefined_check_applies, bus_grants_arbitrary_permissions}
use secureblue.Flatpak.Checks.{check_predefined_flatpak_permissions, handle_buses}
use secureblue.Flatpak.Checks.{
  check_ld_preload, handle_arbitrary_permissions, bus_note, bus_rec, preloaded, malloc_note,
  malloc_rec, variant_note, arbitrary_note, expected_note,
}
use secureblue.Flatpak.Filesystem.{
  FilesystemPerms, check_hardened_malloc_access, check_overrides_access,
}
use secureblue.Flatpak.Filesystem.{check_dangerous_dirs}
use secureblue.Flatpak.Filesystem.{
  spelled, missing_note, missing_rec, overrides_note, overrides_rec,
}

abbrev pub note_value : Note → ℕ
note_value n = elim n.status [ none ↦ 0 | some s ↦ value s ]

-- No note is worse than the status.
abbrev pub bounds : Status → List Note → Bool
bounds s = all (λ n. leb (note_value n) (value s))

-- The status is PASS, or that of a note.
abbrev pub attains : Status → List Note → Bool
attains s notes = (value s == 0) || any (λ n. note_value n == value s) notes

pub record IsVerdict (name : Str) (s : FlatpakPermissionsState) : Type 0 where
  pub same_name : s.name ≡ name
  pub bounded : bounds s.status s.notes ≡ true
  pub attained : attains s.status s.notes ≡ true

pub bounds_mono :
    (s t : Status) (notes : List Note)
    → value s ≤ value t
    → bounds s notes ≡ true
    → bounds t notes ≡ true
unfolding all
bounds_mono s t [] h b = refl
bounds_mono s t (n ∷ ns) h b = ground (arith, bounds_mono s t ns)

pub downgrade_to-value :
    (s t : Status)
    → (value s ≤ value (downgrade_to s t))
      × (value t ≤ value (downgrade_to s t))
      × ((downgrade_to s t ≡ s) ⊎ (downgrade_to s t ≡ t))
unfolding downgrade_to
downgrade_to-value s t = ground arith

pub new_state-IsVerdict : (name : Str) → IsVerdict name (new_state name)
unfolding new_state all any
new_state-IsVerdict name = record { same_name = refl; bounded = refl; attained = refl }

-- The status after a note of a given status.
abbrev pub after : Status → Option Status → Status
after s t = elim t [ none ↦ s | some u ↦ downgrade_to s u ]

pub after-bounds :
    (s : Status) (x : Str) (t : Option Status) (notes : List Note)
    → bounds s notes ≡ true
    → bounds (after s t) (notes ++ (record { text = x; status = t } ∷ [])) ≡ true
after-bounds s x none notes h =
    all-append _ notes (record { text = x; status = none } ∷ []) ∙ unfold all in ground (arith, h)
after-bounds s x (some t) notes h =
    let (from, to, which) = downgrade_to-value s t in
    let old = bounds_mono s (downgrade_to s t) notes from h in
    all-append _ notes (record { text = x; status = some t } ∷ [])
    ∙ unfold all in ground (arith, old, to)

pub after-attains :
    (s : Status) (x : Str) (t : Option Status) (notes : List Note)
    → attains s notes ≡ true
    → attains (after s t) (notes ++ (record { text = x; status = t } ∷ [])) ≡ true
after-attains s x none notes h =
    unfold any in
    ground (
      arith,
      h,
      any-append (λ n. note_value n == value s) notes (record { text = x; status = none } ∷ []),
    )
after-attains s x (some t) notes h =
    let r = downgrade_to s t in
    let at_end =
      any-append (λ n. note_value n == value r) notes (record { text = x; status = some t } ∷ []) in
    elim (downgrade_to-value s t).2 [
      | inl same ↦
          let old : attains r notes ≡ true = ap (λ u. attains u notes) same ∙ h in
          unfold any in ground (arith, old, at_end)
      | inr other ↦
          let e : value t ≡ value r = ap value (sym other) in
          unfold any in ground (arith, e, at_end)
    ]

-- Every way to add a note keeps the verdict.
pub update-IsVerdict :
    (name : Str) (note : Note) (rec : Option Recommendation) (s : FlatpakPermissionsState)
    → IsVerdict name s
    → IsVerdict name (update note rec s)
unfolding update
update-IsVerdict name note rec s v = record {
  same_name = v.same_name;
  bounded = after-bounds s.status note.text note.status s.notes v.bounded;
  attained = after-attains s.status note.text note.status s.notes v.attained;
}

pub or_arbitrary-IsVerdict :
    (name : Str) (b : Bool) (s : FlatpakPermissionsState)
    → IsVerdict name s
    → IsVerdict name (or_arbitrary b s)
unfolding or_arbitrary
or_arbitrary-IsVerdict name b s v = record {
  same_name = v.same_name;
  bounded = v.bounded;
  attained = v.attained;
}

pub if-IsVerdict :
    (name : Str) (b : Bool) (s t : FlatpakPermissionsState)
    → IsVerdict name s
    → IsVerdict name t
    → IsVerdict name (if b then s else t)
if-IsVerdict name true s t v w = v
if-IsVerdict name false s t v w = w

pub predefined-IsVerdict :
    (name : Str) (cs : List PermissionCheck) (perms : Permissions) (b p : Bool)
    (s : FlatpakPermissionsState)
    → IsVerdict name s
    → IsVerdict name (check_predefined_flatpak_permissions cs perms b p s)
unfolding check_predefined_flatpak_permissions
predefined-IsVerdict name [] perms b p s v = v
predefined-IsVerdict name (c ∷ cs) perms b p s v = predefined-IsVerdict name cs perms b p _ (
    if-IsVerdict name (predefined_check_applies c perms b p) _ s
      (or_arbitrary-IsVerdict name c.arbitrary_permissions _
        (update-IsVerdict name (note_of c s.name) (some (recommendation c s.name)) s v))
      v)

pub handle_buses-IsVerdict :
    (name : Str) (is_session : Bool) (buses : List Str) (s : FlatpakPermissionsState)
    → IsVerdict name s
    → IsVerdict name (handle_buses is_session buses s)
unfolding handle_buses
handle_buses-IsVerdict name is_session [] s v = v
handle_buses-IsVerdict name is_session (bus ∷ rest) s v =
    let w = or_arbitrary-IsVerdict name true s v in
    handle_buses-IsVerdict name is_session rest _ (
      if-IsVerdict name (bus_grants_arbitrary_permissions bus is_session) _ s
        (if-IsVerdict name (contains arbitrary_permissions_expected s.name) _ _ w (
          update-IsVerdict name (bus_note s.name bus is_session)
            (some (bus_rec s.name bus is_session)) _ w))
        v)

pub check_ld_preload-IsVerdict :
    (name : Str) (perms : Permissions) (s : FlatpakPermissionsState)
    → IsVerdict name s
    → IsVerdict name (check_ld_preload perms s)
unfolding check_ld_preload
check_ld_preload-IsVerdict name perms s v =
    let has = λ (file : String). contains (preloaded perms) (codes file) in
    let rec = some (malloc_rec s.name) in
    let one = λ (status : Status). update-IsVerdict name (malloc_note s.name status) rec s v in
    let two = λ (variant : String).
      update-IsVerdict name (variant_note s.name (codes variant)) none _ (one info) in
    if-IsVerdict name (has "libhardened_malloc.so") s _ v (
      if-IsVerdict name (has "libhardened_malloc-light.so") _ _ (two "hardened_malloc-light") (
        if-IsVerdict name (has "libhardened_malloc-pkey.so") _ _ (two "hardened_malloc-pkey")
          (one warn)))

pub handle_arbitrary-IsVerdict :
    (name : Str) (s : FlatpakPermissionsState)
    → IsVerdict name s
    → IsVerdict name (handle_arbitrary_permissions s)
unfolding handle_arbitrary_permissions
handle_arbitrary-IsVerdict name s v =
    if-IsVerdict name s.arbitrary_permissions _ s
      (if-IsVerdict name (contains arbitrary_permissions_expected s.name) _ _
        (update-IsVerdict name (expected_note s.name) none s v)
        (update-IsVerdict name (arbitrary_note s.name) none s v))
      v

pub hardened_malloc-IsVerdict :
    (name : Str) (fs : FilesystemPerms) (s : FlatpakPermissionsState)
    → IsVerdict name s
    → IsVerdict name (check_hardened_malloc_access fs s)
unfolding check_hardened_malloc_access
hardened_malloc-IsVerdict name fs s v = elim (Option-cases (Dict.lookup (codes "host-os") fs)) [
  | inl e ↦
      rw (check_hardened_malloc_access, e)
        (update-IsVerdict name (missing_note s.name) (some (missing_rec s.name)) s v)
  | inr (p, e) ↦ rw (check_hardened_malloc_access, e) v
]

pub overrides-IsVerdict :
    (name : Str) (fs : FilesystemPerms) (s : FlatpakPermissionsState)
    → IsVerdict name s
    → IsVerdict name (check_overrides_access fs s)
unfolding check_overrides_access
overrides-IsVerdict name fs s v =
    if-IsVerdict name (contains arbitrary_permissions_expected s.name) s _ v
      (elim (Option-cases (Dict.lookup (codes "xdg-data/flatpak/overrides") fs)) [
        | inl e ↦ rw e v
        | inr (p, e) ↦ rw e (
            if-IsVerdict name p.readonly s _ v (
              update-IsVerdict name (overrides_note s.name)
                (some (overrides_rec s.name p.aliased_path)) _
                (or_arbitrary-IsVerdict name true s v)))
      ])

pub dangerous_dirs-IsVerdict :
    (name : Str) (ds : List PermissionCheck) (fs : FilesystemPerms) (s : FlatpakPermissionsState)
    → IsVerdict name s
    → IsVerdict name (check_dangerous_dirs ds fs s)
unfolding check_dangerous_dirs
dangerous_dirs-IsVerdict name [] fs s v = v
dangerous_dirs-IsVerdict name (d ∷ ds) fs s v =
    dangerous_dirs-IsVerdict name ds fs _ (elim (Option-cases (Dict.lookup d.permission fs)) [
      | inl e ↦ rw e v
      | inr (p, e) ↦ rw e (
          or_arbitrary-IsVerdict name d.arbitrary_permissions _ (
            update-IsVerdict name (note_of (spelled d p) s.name)
              (some (recommendation (spelled d p) s.name)) s v))
    ])
