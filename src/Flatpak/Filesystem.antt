-- ===== src/Flatpak/Filesystem.antt =====
-- Filesystem permissions: audit_flatpak/filesystem.py.
use secureblue.Base.{Bool, true, false, if◌then◌else◌}
use secureblue.Base.{none, some, List, [], ◌∷◌, ◌++◌, String}
use secureblue.Base.{nat_eq, string_eq, list_eq, contains}
use secureblue.Base.{length, drop}
use secureblue.Base.Dict
use secureblue.Base.Dict.{Dict}
use secureblue.Base.{
  Str, codes, join, starts_with, ends_with, remove_suffix, remove_prefix, rstrip_char,
}
use secureblue.Auditor.Status.{warn, fail}
use secureblue.Auditor.Report.{Note, Recommendation}
use secureblue.Flatpak.Permissions.{Permissions}
use secureblue.Flatpak.State.{FlatpakPermissionsState, update, or_arbitrary, PermissionCheck}
use secureblue.Flatpak.State.{filesystems, note_of, recommendation, names_placeholder, app_id_line}
use secureblue.Flatpak.State.{new_state}
use secureblue.Flatpak.Checks.{plain, arbitrary_permissions_expected, permission_checks}
use secureblue.Flatpak.Checks.{check_predefined_flatpak_permissions, handle_flatpak_buses}
use secureblue.Flatpak.Checks.{check_ld_preload, handle_arbitrary_permissions}

-- ALIASES: the name, and the path that it stands for.
abbrev pub aliases : List (Str × Str)
aliases =
    (codes "xdg-cache", codes "~/.cache")
    ∷ (codes "xdg-config", codes "~/.config")
    ∷ (codes "xdg-data", codes "~/.local/share")
    ∷ (codes "xdg-desktop", codes "~/Desktop")
    ∷ (codes "xdg-documents", codes "~/Documents")
    ∷ (codes "xdg-downloads", codes "~/Downloads")
    ∷ (codes "xdg-music", codes "~/Music")
    ∷ (codes "xdg-pictures", codes "~/Pictures")
    ∷ (codes "xdg-public-share", codes "~/Public")
    ∷ (codes "xdg-templates", codes "~/Templates")
    ∷ (codes "xdg-videos", codes "~/Videos")
    ∷ (codes "home", codes "~")
    ∷ []

pub record Filesystem : Type 0 where
  pub canon_path : Str
  pub aliased_path : Str
  pub is_aliased : Bool
  pub negated : Bool
  pub readonly : Bool

-- The path with the first alias that begins it put back, and whether there is one.
unfoldable pub canonical : List (Str × Str) → Str → Str × Bool
unfolding starts_with
canonical [] path = (path, false)
canonical ((name, alias) ∷ rest) path =
    let next = canonical rest path in
    if starts_with path alias then (name ++ drop (length alias) path, true) else next

unfoldable pub without_mode : Str → Str
unfolding ends_with remove_suffix
without_mode perm =
    if ends_with perm (codes ":ro")
    then remove_suffix perm (codes ":ro")
    else if ends_with perm (codes ":rw")
    then remove_suffix perm (codes ":rw")
    else if ends_with perm (codes ":create")
    then remove_suffix perm (codes ":create")
    else perm

unfoldable pub filesystem : Str → Filesystem
unfolding without_mode remove_prefix rstrip_char canonical ends_with starts_with
filesystem perm =
    let path = rstrip_char b'/' (remove_prefix (without_mode perm) (codes "!")) in
    let c = canonical aliases path in
    record {
      canon_path = c.0;
      aliased_path = path;
      is_aliased = c.1;
      negated = starts_with perm (codes "!");
      readonly = ends_with perm (codes ":ro");
    }

abbrev pub FilesystemPerms : Type 0
FilesystemPerms = Dict Str Filesystem

unfoldable pub missing_note : Str → Note
missing_note name = record {
  text = name ++ codes " is missing host-os:ro permission";
  status = some warn;
}

unfoldable pub missing_rec : Str → Recommendation
unfolding join
missing_rec name = record {
  text = join (10 ∷ []) (
      codes "The following flatpak app(s) are missing host-os:ro permission:"
      ∷ names_placeholder
      ∷ codes "This is required to load hardened_malloc."
      ∷ codes "To add this permission to an app, use Flatseal or run:"
      ∷ codes "$ flatpak override -u --filesystem=host-os:ro com.example.Example"
      ∷ app_id_line
      ∷ []);
  mergeable_name = some name;
}

unfoldable pub check_hardened_malloc_access :
    FilesystemPerms → FlatpakPermissionsState → FlatpakPermissionsState
check_hardened_malloc_access perms s = elim (Dict.lookup (codes "host-os") perms) [
  | some p ↦ s
  | none ↦ update (missing_note s.name) (some (missing_rec s.name)) s
]

unfoldable pub overrides_note : Str → Note
overrides_note name = record {
  text = name ++ codes " can modify flatpak permissions.";
  status = some fail;
}

unfoldable pub overrides_rec : Str → Str → Recommendation
unfolding join
overrides_rec name aliased_path = record {
  text = join (10 ∷ []) (
      codes "The following flatpak app(s) can modify flatpak permissions:"
      ∷ names_placeholder
      ∷ codes "This grants the ability to acquire arbitrary permissions."
      ∷ codes "To remove this permission from an app, use Flatseal or run:"
      ∷ (codes "$ flatpak override -u --nofilesystem="
          ++ (aliased_path ++ codes " com.example.Example"))
      ∷ app_id_line
      ∷ []);
  mergeable_name = some name;
}

unfoldable pub check_overrides_access :
    FilesystemPerms → FlatpakPermissionsState → FlatpakPermissionsState
check_overrides_access perms s =
    if contains arbitrary_permissions_expected s.name
    then s
    else elim (Dict.lookup (codes "xdg-data/flatpak/overrides") perms) [
      | none ↦ s
      | some p ↦
          if p.readonly
          then s
          else update (overrides_note s.name) (some (overrides_rec s.name p.aliased_path))
              (or_arbitrary true s)
    ]

-- A DirectoryCheck: its comment is put into a sentence, and it has no description.
abbrev pub directory : String → String → PermissionCheck
directory path comment = record (plain filesystems (codes path) fail none) {
  comment = some (codes "This grants access to " ++ (codes comment ++ codes "."));
}

abbrev pub escape : PermissionCheck → PermissionCheck
escape c = record c { sandbox_escape = true; arbitrary_permissions = true }

-- DANGEROUS_DIRECTORY_CHECKS
unfoldable pub dangerous_directory_checks : List PermissionCheck
dangerous_directory_checks =
    escape (directory "host-root" "all system files")
    ∷ directory "host" "all system files"
    ∷ directory "home" "all user files"
    ∷ directory "/var/home" "all user files"
    ∷ directory "xdg-config" "other applications' configuration files"
    ∷ directory "xdg-config/autostart" "user autostart configuration files"
    ∷ directory "xdg-config/environment.d" "user environment configuration files"
    ∷ directory "xdg-config/systemd" "user systemd configuration files"
    ∷ directory "xdg-config/systemd/user" "user systemd configuration files"
    ∷ directory "xdg-cache" "other applications' cache files"
    ∷ directory "home/.local" "other applications' data files"
    ∷ directory "xdg-data" "other applications' data files"
    ∷ escape (directory "xdg-data/flatpak" "other flatpak applications' installation files")
    ∷ directory "home/.var" "other flatpak applications' data files"
    ∷ directory "home/.var/app" "other flatpak applications' data files"
    ∷ directory "home/.bashrc" "user shell configuration files"
    ∷ directory "home/.bashrc.d" "user shell configuration files"
    ∷ directory "home/.bash_login" "user shell configuration files"
    ∷ directory "home/.bash_logout" "user shell configuration files"
    ∷ directory "home/.bash_profile" "user shell configuration files"
    ∷ directory "home/.profile" "user shell configuration files"
    ∷ directory "xdg-config/bash_completion" "user shell configuration files"
    ∷ []

-- The report on one directory: the permission is named as the app spells it.
unfoldable pub spelled : PermissionCheck → Filesystem → PermissionCheck
spelled c p = if p.is_aliased then record c { permission = p.aliased_path } else c

unfoldable pub check_dangerous_dirs :
    List PermissionCheck → FilesystemPerms → FlatpakPermissionsState → FlatpakPermissionsState
check_dangerous_dirs [] perms s = s
check_dangerous_dirs (d ∷ ds) perms s =
    check_dangerous_dirs ds perms (elim (Dict.lookup d.permission perms) [
      | none ↦ s
      | some p ↦
          or_arbitrary d.arbitrary_permissions
            (update (note_of (spelled d p) s.name) (some (recommendation (spelled d p) s.name)) s)
    ])

-- The permissions that are not negated, by their canonical paths; the last of a path counts.
unfoldable pub collect_perms : List Str → FilesystemPerms → FilesystemPerms
collect_perms [] d = d
collect_perms (perm ∷ rest) d =
    let p = filesystem perm in
    collect_perms rest (if p.negated then d else Dict.insert p.canon_path p d)

unfoldable pub check_fs_permissions :
    Permissions → FlatpakPermissionsState → FlatpakPermissionsState
check_fs_permissions perms s = elim (Dict.lookup (codes "filesystems") perms.permissions) [
  | none ↦ check_hardened_malloc_access [] s
  | some perm_strings ↦
      let fs = collect_perms perm_strings [] in
      check_dangerous_dirs dangerous_directory_checks fs
        (check_overrides_access fs (check_hardened_malloc_access fs s))
]

unfoldable pub check_flatpak_permissions :
    Str → Permissions → (bluetooth_loaded ptrace_allowed : Bool) → FlatpakPermissionsState
check_flatpak_permissions name perms bluetooth_loaded ptrace_allowed =
    handle_arbitrary_permissions (
      check_ld_preload perms (
        handle_flatpak_buses perms (
          check_fs_permissions perms (
            check_predefined_flatpak_permissions permission_checks perms bluetooth_loaded
              ptrace_allowed (new_state name)))))
