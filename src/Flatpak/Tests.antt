-- ===== src/Flatpak/Tests.antt =====
-- The audit of a flatpak app at concrete permissions.
use secureblue.Base.{
  ◌≡◌, refl, true, false, [], ◌∷◌, ◌++◌, starts_with, ends_with, Str, codes, contains,
}
use secureblue.Base.{list_eq, nat_eq, list_beq}
use secureblue.Base.Dict
use secureblue.Base.Exec.{ok}
use secureblue.Auditor.Status.{fail}
use secureblue.Flatpak.Permissions.{Permissions, no_permissions, parse_flatpak_permissions}
use secureblue.Flatpak.State.{update, or_arbitrary, new_state}
use secureblue.Flatpak.Checks.{
  arbitrary_permissions_expected, preloaded, predefined_check_applies, check_ld_preload,
  handle_buses, handle_flatpak_buses,
}
use secureblue.Flatpak.Checks.{
  check_predefined_flatpak_permissions, handle_arbitrary_permissions, permission_checks,
}
use secureblue.Flatpak.Filesystem.{
  check_flatpak_permissions, check_fs_permissions, check_dangerous_dirs,
}
use secureblue.Flatpak.Filesystem.{
  check_overrides_access, check_hardened_malloc_access, dangerous_directory_checks, spelled,
  canonical, without_mode, filesystem, collect_perms,
}
use secureblue.Flatpak.Invariant.{IsVerdict}
use secureblue.Flatpak.Verdict.{check_flatpak_permissions-IsVerdict, arbitrary_permissions_fail}

abbrev app : Str
app = codes "org.example.App"

abbrev printed : Str
printed =
    codes "[Context]"
    ++ (10 ∷ codes "filesystems=!home;xdg-data/flatpak/overrides:create;" ++ (10 ∷ []))

abbrev perms : Permissions
perms = record no_permissions {
  permissions =
      (codes "filesystems", codes "!home" ∷ codes "xdg-data/flatpak/overrides:create" ∷ []) ∷ [];
}

parsed : parse_flatpak_permissions printed ≡ ok perms
unfolding parse_flatpak_permissions
parsed = refl

check_flatpak_permissions-IsVerdict_example :
    IsVerdict app (check_flatpak_permissions app perms false false)
check_flatpak_permissions-IsVerdict_example =
    check_flatpak_permissions-IsVerdict app perms false false

acquires : (check_flatpak_permissions app perms false false).arbitrary_permissions ≡ true
unfolding check_flatpak_permissions handle_arbitrary_permissions check_ld_preload update
    handle_flatpak_buses handle_buses check_fs_permissions check_dangerous_dirs
    dangerous_directory_checks collect_perms filesystem Dict.insert check_overrides_access
    check_hardened_malloc_access check_predefined_flatpak_permissions permission_checks or_arbitrary
    new_state preloaded predefined_check_applies Dict.lookup contains list_beq spelled canonical
    without_mode starts_with ends_with
acquires = refl

unexpected : contains arbitrary_permissions_expected app ≡ false
unfolding contains list_beq
unexpected = refl

arbitrary_permissions_fail_example : (check_flatpak_permissions app perms false false).status ≡ fail
arbitrary_permissions_fail_example =
    arbitrary_permissions_fail app perms false false acquires unexpected
