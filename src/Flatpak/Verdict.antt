-- ===== src/Flatpak/Verdict.antt =====
-- The verdict on an app is the worst of its notes.
use secureblue.Base.{arith}
use secureblue.Base.{◌≡◌, refl, ap, ◌∙◌, inl, inr}
use secureblue.Base.{Bool, true, false, not, leb, Bool-cases}
use secureblue.Base.{List, [], ◌∷◌}
use secureblue.Base.{nat_eq, string_eq, list_eq, contains}
use secureblue.Base.{keep}
use secureblue.Base.Dict
use secureblue.Base.Dict.{Dict}
use secureblue.Base.{Str, codes, Option-cases}
use secureblue.Auditor.Status.{fail, value, downgrade_to}
use secureblue.Flatpak.Permissions.{Permissions}
use secureblue.Flatpak.State.{FlatpakPermissionsState, update}
use secureblue.Flatpak.Checks.{arbitrary_permissions_expected, permission_checks}
use secureblue.Flatpak.Checks.{handle_flatpak_buses}
use secureblue.Flatpak.Checks.{handle_arbitrary_permissions, arbitrary_note}
use secureblue.Flatpak.Filesystem.{filesystem, FilesystemPerms}
use secureblue.Flatpak.Filesystem.{check_fs_permissions, check_flatpak_permissions}
use secureblue.Flatpak.Filesystem.{dangerous_directory_checks, collect_perms}
use secureblue.Flatpak.Known.{
  new_state-Known, permission_checks-Known, fs_permissions-Known, handle_buses-Known,
  check_ld_preload-Known,
}
use secureblue.Flatpak.Invariant.{
  IsVerdict, new_state-IsVerdict, predefined-IsVerdict, handle_buses-IsVerdict,
  check_ld_preload-IsVerdict, handle_arbitrary-IsVerdict, hardened_malloc-IsVerdict,
  overrides-IsVerdict, dangerous_dirs-IsVerdict,
}

fs_permissions-IsVerdict :
    (name : Str) (perms : Permissions) (s : FlatpakPermissionsState)
    → IsVerdict name s
    → IsVerdict name (check_fs_permissions perms s)
unfolding check_fs_permissions
fs_permissions-IsVerdict name perms s v =
    elim (Option-cases (Dict.lookup (codes "filesystems") perms.permissions)) [
      | inl e ↦ rw (check_fs_permissions, e) (hardened_malloc-IsVerdict name [] s v)
      | inr (strings, e) ↦
          let fs = collect_perms strings [] in
          rw (check_fs_permissions, e)
            (dangerous_dirs-IsVerdict name dangerous_directory_checks fs _
              (overrides-IsVerdict name fs _ (hardened_malloc-IsVerdict name fs s v)))
    ]

-- The status of an app is the worst status among its notes, and PASS where it has none.
pub check_flatpak_permissions-IsVerdict :
    (name : Str) (perms : Permissions) (bluetooth_loaded ptrace_allowed : Bool)
    → IsVerdict name (check_flatpak_permissions name perms bluetooth_loaded ptrace_allowed)
unfolding check_flatpak_permissions handle_flatpak_buses
check_flatpak_permissions-IsVerdict name perms b p = handle_arbitrary-IsVerdict name _ (
    check_ld_preload-IsVerdict name perms _ (
      handle_buses-IsVerdict name false perms.system_bus_talk _ (
        handle_buses-IsVerdict name true perms.session_bus_talk _ (
          fs_permissions-IsVerdict name perms _
            (predefined-IsVerdict name permission_checks perms b p _ (new_state-IsVerdict name))))))

handle_arbitrary-fails :
    (name : Str) (s : FlatpakPermissionsState)
    → s.name ≡ name
    → (handle_arbitrary_permissions s).arbitrary_permissions ≡ true
    → contains arbitrary_permissions_expected name ≡ false
    → leb (value s.status) 3 ≡ true
    → (handle_arbitrary_permissions s).status ≡ fail
unfolding handle_arbitrary_permissions
handle_arbitrary-fails name s same h ne known =
    let unexpected : contains arbitrary_permissions_expected s.name ≡ false =
      ap (λ n. contains arbitrary_permissions_expected n) same ∙ ne in
    elim (Bool-cases s.arbitrary_permissions) [
      | inl found ↦
          simp (found, unexpected) (unfold update downgrade_to arbitrary_note in ground arith)
      | inr clear ↦ let kept = simp clear at h in ground (arith, kept, clear)
    ]

-- The status of an app that is found to be able to acquire arbitrary permissions, and is not one of
-- those that need this, is FAIL.
pub arbitrary_permissions_fail :
    (name : Str) (perms : Permissions) (bluetooth_loaded ptrace_allowed : Bool)
    → let s = check_flatpak_permissions name perms bluetooth_loaded ptrace_allowed in
      s.arbitrary_permissions ≡ true
      → contains arbitrary_permissions_expected name ≡ false
      → s.status ≡ fail
unfolding check_flatpak_permissions handle_flatpak_buses
arbitrary_permissions_fail name perms b p h ne =
    let before = check_ld_preload-IsVerdict name perms _ (
      handle_buses-IsVerdict name false perms.system_bus_talk _ (
        handle_buses-IsVerdict name true perms.session_bus_talk _ (
          fs_permissions-IsVerdict name perms _ (
            predefined-IsVerdict name permission_checks perms b p _
              (new_state-IsVerdict name))))) in
    let known = check_ld_preload-Known perms _ (
      handle_buses-Known false perms.system_bus_talk _ (
        handle_buses-Known true perms.session_bus_talk _ (
          fs_permissions-Known perms _
            (permission_checks-Known perms b p _ (new_state-Known name))))) in
    handle_arbitrary-fails name _ before.same_name h ne known.known

-- Negated permissions do not count, wherever they stand.
pub collect_perms-negated :
    (perm_strings : List Str) (d : FilesystemPerms)
    → collect_perms perm_strings d
      ≡ collect_perms (keep (λ p. not (filesystem p).negated) perm_strings) d
unfolding collect_perms keep
collect_perms-negated [] d = refl
collect_perms-negated (x ∷ xs) d = elim (Bool-cases (filesystem x).negated) [
  | inl e ↦ simp e (collect_perms-negated xs d)
  | inr e ↦
      simp e (collect_perms-negated xs (Dict.insert (filesystem x).canon_path (filesystem x) d))
]
