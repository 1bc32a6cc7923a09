-- ===== src/Flatpak/Known.antt =====
-- The status of an app is never UNKNOWN, through each of the checks.
use secureblue.Base.{arith}
use secureblue.Base.{◌≡◌, refl, inl, inr}
use secureblue.Base.{Bool, true, false, if◌then◌else◌, leb}
use secureblue.Base.{none, some, List, [], ◌∷◌, String}
use secureblue.Base.{nat_eq, string_eq, list_eq, contains}
use secureblue.Base.{all}
use secureblue.Base.Dict
use secureblue.Base.{Str, codes, Option-cases}
use secureblue.Auditor.Status.{Status, info, warn, value, downgrade_to}
use secureblue.Auditor.Report.{Note, Recommendation}
use secureblue.Base.{Option}
use secureblue.Flatpak.Permissions.{Permissions}
use secureblue.Flatpak.State.{
  FlatpakPermissionsState, new_state, update, or_arbitrary, PermissionCheck, note_of,
  recommendation,
}
use secureblue.Flatpak.Checks.{
  arbitrary_permissions_expected, permission_checks, predefined_check_applies,
  bus_grants_arbitrary_permissions, check_predefined_flatpak_permissions, handle_buses,
  check_ld_preload, bus_note, bus_rec, preloaded, malloc_note, malloc_rec, variant_note,
}
use secureblue.Flatpak.Filesystem.{
  FilesystemPerms, check_hardened_malloc_access, check_overrides_access, check_dangerous_dirs,
  check_fs_permissions, dangerous_directory_checks, collect_perms, spelled, missing_note,
  missing_rec, overrides_note, overrides_rec,
}
use secureblue.Flatpak.Invariant.{note_value}

-- PASS, INFO, WARN or FAIL
pub record Known (s : FlatpakPermissionsState) : Type 0 where
  pub known : leb (value s.status) 3 ≡ true

pub new_state-Known : (name : Str) → Known (new_state name)
unfolding new_state
new_state-Known name = record { known = refl }

after_note-Known :
    (s : Status) (t : Option Status)
    → leb (elim t [ none ↦ 0 | some u ↦ value u ]) 3 ≡ true
    → leb (value s) 3 ≡ true
    → leb (value (elim t [ none ↦ s | some u ↦ downgrade_to s u ])) 3 ≡ true
unfolding downgrade_to
after_note-Known s none h k = k
after_note-Known s (some t) h k = ground arith

update-Known :
    (note : Note) (rec : Option Recommendation) (s : FlatpakPermissionsState)
    → leb (note_value note) 3 ≡ true
    → Known s
    → Known (update note rec s)
unfolding update
update-Known note rec s h k = record { known = after_note-Known s.status note.status h k.known }

or_arbitrary-Known : (b : Bool) (s : FlatpakPermissionsState) → Known s → Known (or_arbitrary b s)
unfolding or_arbitrary
or_arbitrary-Known b s k = record { known = k.known }

if-Known :
    (b : Bool) (s t : FlatpakPermissionsState) → Known s → Known t → Known (if b then s else t)
if-Known true s t v w = v
if-Known false s t v w = w

-- No check of the list reports UNKNOWN.
abbrev checks_known : List PermissionCheck → Bool
checks_known = all (λ c. leb (value c.status) 3)

predefined-Known :
    (cs : List PermissionCheck) (perms : Permissions) (b p : Bool) (s : FlatpakPermissionsState)
    → checks_known cs ≡ true
    → Known s
    → Known (check_predefined_flatpak_permissions cs perms b p s)
unfolding check_predefined_flatpak_permissions all note_of
predefined-Known [] perms b p s h k = k
predefined-Known (c ∷ cs) perms b p s h k = predefined-Known cs perms b p _ (ground (arith, h)) (
    if-Known (predefined_check_applies c perms b p) _ s
      (or_arbitrary-Known c.arbitrary_permissions _
        (update-Known (note_of c s.name) (some (recommendation c s.name)) s (ground (arith, h)) k))
      k)

-- The checks of the program
pub permission_checks-Known :
    (perms : Permissions) (b p : Bool) (s : FlatpakPermissionsState)
    → Known s
    → Known (check_predefined_flatpak_permissions permission_checks perms b p s)
unfolding permission_checks all
permission_checks-Known perms b p s k = predefined-Known permission_checks perms b p s refl k

pub handle_buses-Known :
    (is_session : Bool) (buses : List Str) (s : FlatpakPermissionsState)
    → Known s
    → Known (handle_buses is_session buses s)
unfolding handle_buses bus_note
handle_buses-Known is_session [] s k = k
handle_buses-Known is_session (bus ∷ rest) s k =
    let w = or_arbitrary-Known true s k in
    handle_buses-Known is_session rest _ (
      if-Known (bus_grants_arbitrary_permissions bus is_session) _ s
        (if-Known (contains arbitrary_permissions_expected s.name) _ _ w (
          update-Known (bus_note s.name bus is_session) (some (bus_rec s.name bus is_session)) _
            refl w))
        k)

pub check_ld_preload-Known :
    (perms : Permissions) (s : FlatpakPermissionsState) → Known s → Known (check_ld_preload perms s)
unfolding check_ld_preload malloc_note variant_note
check_ld_preload-Known perms s k =
    let has = λ (file : String). contains (preloaded perms) (codes file) in
    let rec = some (malloc_rec s.name) in
    let note_info = update-Known (malloc_note s.name info) rec s refl k in
    let two = λ (variant : String).
      update-Known (variant_note s.name (codes variant)) none _ refl note_info in
    if-Known (has "libhardened_malloc.so") s _ k (
      if-Known (has "libhardened_malloc-light.so") _ _ (two "hardened_malloc-light") (
        if-Known (has "libhardened_malloc-pkey.so") _ _ (two "hardened_malloc-pkey")
          (update-Known (malloc_note s.name warn) rec s refl k)))

hardened_malloc-Known :
    (fs : FilesystemPerms) (s : FlatpakPermissionsState)
    → Known s
    → Known (check_hardened_malloc_access fs s)
unfolding check_hardened_malloc_access missing_note
hardened_malloc-Known fs s k = elim (Option-cases (Dict.lookup (codes "host-os") fs)) [
  | inl e ↦
      rw (check_hardened_malloc_access, e)
        (update-Known (missing_note s.name) (some (missing_rec s.name)) s refl k)
  | inr (p, e) ↦ rw (check_hardened_malloc_access, e) k
]

overrides-Known :
    (fs : FilesystemPerms) (s : FlatpakPermissionsState)
    → Known s
    → Known (check_overrides_access fs s)
unfolding check_overrides_access overrides_note
overrides-Known fs s k =
    if-Known (contains arbitrary_permissions_expected s.name) s _ k
      (elim (Option-cases (Dict.lookup (codes "xdg-data/flatpak/overrides") fs)) [
        | inl e ↦ rw e k
        | inr (p, e) ↦ rw e (
            if-Known p.readonly s _ k (
              update-Known (overrides_note s.name) (some (overrides_rec s.name p.aliased_path)) _
                refl (or_arbitrary-Known true s k)))
      ])

dangerous_dirs-Known :
    (ds : List PermissionCheck) (fs : FilesystemPerms) (s : FlatpakPermissionsState)
    → checks_known ds ≡ true
    → Known s
    → Known (check_dangerous_dirs ds fs s)
unfolding check_dangerous_dirs all note_of spelled
dangerous_dirs-Known [] fs s h k = k
dangerous_dirs-Known (d ∷ ds) fs s h k =
    dangerous_dirs-Known ds fs _ (ground (arith, h))
      (elim (Option-cases (Dict.lookup d.permission fs)) [
        | inl e ↦ rw e k
        | inr (p, e) ↦ rw e (
            or_arbitrary-Known d.arbitrary_permissions _ (
              update-Known (note_of (spelled d p) s.name)
                (some (recommendation (spelled d p) s.name)) s (ground (arith, h)) k))
      ])

pub fs_permissions-Known :
    (perms : Permissions) (s : FlatpakPermissionsState)
    → Known s
    → Known (check_fs_permissions perms s)
unfolding check_fs_permissions dangerous_directory_checks all
fs_permissions-Known perms s k =
    elim (Option-cases (Dict.lookup (codes "filesystems") perms.permissions)) [
      | inl e ↦ rw (check_fs_permissions, e) (hardened_malloc-Known [] s k)
      | inr (strings, e) ↦
          let fs = collect_perms strings [] in
          rw (check_fs_permissions, e)
            (dangerous_dirs-Known dangerous_directory_checks fs _ refl
              (overrides-Known fs _ (hardened_malloc-Known fs s k)))
    ]
