-- ===== src/Flatpak/Checks.antt =====
-- The predefined checks, the message buses, LD_PRELOAD and the verdict on arbitrary permissions.
use secureblue.Base.{Bool, true, false, not, ◌&&◌, ◌||◌, if◌then◌else◌}
use secureblue.Base.{Option, none, some, List, [], ◌∷◌, ◌++◌, map, String}
use secureblue.Base.{◌==◌, nat_eq, string_eq, list_eq, list_beq, contains}
use secureblue.Base.{any}
use secureblue.Base.Dict
use secureblue.Base.Dict.{Dict}
use secureblue.Base.{Str, codes, join, starts_with}
use secureblue.Auditor.Status.{Status, info, warn, fail}
use secureblue.Auditor.Report.{Note, Recommendation}
use secureblue.Flatpak.Permissions.{Permissions}
use secureblue.Flatpak.State.{
  FlatpakPermissionsState, update, or_arbitrary, Category, category_name, PermissionCheck,
}
use secureblue.Flatpak.State.{
  shared, sockets, devices, features, note_of, recommendation, names_placeholder, app_id_line,
}
use secureblue.Base.Words.{split_on, words}

abbrev pub plain : Category → Str → Status → Option Str → PermissionCheck
plain category permission status description = record {
  category = category;
  permission = permission;
  status = status;
  description = description;
  comment = none;
  endnote = none;
  sandbox_escape = false;
  arbitrary_permissions = false;
}

abbrev pub text : String → Option Str
text s = some (codes s)

-- FLATPAK_PERMISSION_CHECKS
unfoldable pub permission_checks : List PermissionCheck
permission_checks =
    plain shared (codes "network") info (text "network access")
    ∷ record (plain shared (codes "ipc") info (text "inter-process communications access")) {
      comment = text "This is only necessary for better X11 performance.";
    }
    ∷ record (plain sockets (codes "x11") fail (text "X11 access")) {
      comment = text "X11 apps can monitor and modify each other's graphics and inputs.";
    }
    ∷ record (plain sockets (codes "pulseaudio") warn (text "access to the PulseAudio socket")) {
      comment = some (
          10 ∷ codes "            This grants access to all audio input and output streams."
          ++ (10 ∷ codes "            However, this is necessary for most apps to play sound."
              ++ (10 ∷ codes "        ")));
    }
    ∷ plain sockets (codes "session-bus") fail (text "access to the D-Bus session bus")
    ∷ plain sockets (codes "system-bus") fail (text "access to the D-Bus system bus")
    ∷ plain sockets (codes "ssh-auth") warn (text "access to the SSH agent")
    ∷ record (plain sockets (codes "gpg-agent") fail (text "access to the GPG agent")) {
      comment = text "For more info, see: https://github.com/flatpak/flatpak/issues/6564";
      sandbox_escape = true;
    }
    ∷ record (plain devices (codes "all") fail (text "access to all devices")) {
      comment = text "This includes input devices, GPUs, raw USB, and virtualization.";
      sandbox_escape = true;
      endnote = text "If GPU access is required, allow device=dri instead.";
    }
    ∷ record (plain devices (codes "input") info (text "access to input devices")) {
      comment = text "This is required for game controllers.";
    }
    ∷ plain devices (codes "kvm") warn (text "access to kernel-based virtualization")
    ∷ record (plain devices (codes "shm") fail (text "access to shared memory.")) {
      sandbox_escape = true;
    }
    ∷ record (plain devices (codes "usb") warn (text "raw access to USB devices.")) {
      sandbox_escape = true;
    }
    ∷ plain features (codes "bluetooth") warn (text "bluetooth access")
    ∷ plain features (codes "devel") warn (text "ptrace access")
    ∷ []

-- ARBITRARY_PERMISSIONS_EXPECTED
abbrev pub arbitrary_permissions_expected : List Str
arbitrary_permissions_expected =
    codes "com.github.tchx84.Flatseal" ∷ codes "io.github.kolunmi.Bazaar" ∷ []

unfoldable pub is_features : Category → Bool
is_features features = true
is_features _ = false

unfoldable pub predefined_check_applies : PermissionCheck → Permissions → Bool → Bool → Bool
unfolding is_features list_beq contains Dict.lookup
predefined_check_applies c perms bluetooth_loaded ptrace_allowed =
    let is_irrelevant_permission =
      is_features c.category
      && ((c.permission == codes "bluetooth" && not bluetooth_loaded)
          || (c.permission == codes "devel" && not ptrace_allowed)) in
    not is_irrelevant_permission
    && elim (Dict.lookup (category_name c.category) perms.permissions) [
      | none ↦ false
      | some ps ↦ contains ps c.permission
    ]

unfoldable pub check_predefined_flatpak_permissions :
    List PermissionCheck
    → Permissions
    → (bluetooth_loaded ptrace_allowed : Bool) → FlatpakPermissionsState
    → FlatpakPermissionsState
check_predefined_flatpak_permissions [] perms bluetooth_loaded ptrace_allowed s = s
check_predefined_flatpak_permissions (c ∷ cs) perms bluetooth_loaded ptrace_allowed s =
    check_predefined_flatpak_permissions cs perms bluetooth_loaded ptrace_allowed (
      if predefined_check_applies c perms bluetooth_loaded ptrace_allowed
      then or_arbitrary c.arbitrary_permissions
          (update (note_of c s.name) (some (recommendation c s.name)) s)
      else s)

unfoldable pub bus_grants_arbitrary_permissions : Str → Bool → Bool
unfolding any contains starts_with list_beq
bus_grants_arbitrary_permissions name is_session =
    any (starts_with name) (codes "org.freedesktop.Flatpak." ∷ codes "org.freedesktop.DBus." ∷ [])
    || (contains
          (codes "org.freedesktop.*"
            ∷ codes "org.gnome.*"
            ∷ codes "org.kde.*"
            ∷ codes "org.freedesktop.DBus"
            ∷ codes "org.freedesktop.systemd1"
            ∷ codes "org.freedesktop.login1"
            ∷ codes "org.kde.KWin"
            ∷ codes "org.kde.plasmashell"
            ∷ [])
          name
        || (is_session
            && contains
                (codes "org.freedesktop.Flatpak"
                  ∷ codes "org.freedesktop.impl.portal.PermissionStore"
                  ∷ [])
                name))

unfoldable pub bus_note : Str → Str → Bool → Note
bus_note name bus is_session = record {
  text =
      name
      ++ (codes " can talk to "
          ++ (bus
              ++ (if is_session
                  then codes " on the session bus."
                  else codes " on the system bus.")));
  status = some fail;
}

unfoldable pub bus_rec : Str → Str → Bool → Recommendation
unfolding join
bus_rec name bus is_session = record {
  text = join (10 ∷ []) (
      (codes "The following flatpak app(s) can talk to "
        ++ (bus
            ++ (if is_session then codes " on the session bus:" else codes " on the system bus:")))
      ∷ names_placeholder
      ∷ codes "This grants the ability to acquire arbitrary permissions."
      ∷ codes "To remove this permission from an app, use Flatseal or run:"
      ∷ (codes "$ flatpak override -u --"
          ++ ((if is_session then codes "no-talk-name" else codes "system-no-talk-name")
              ++ (codes "=" ++ (bus ++ codes " com.example.Example"))))
      ∷ app_id_line
      ∷ []);
  mergeable_name = some name;
}

unfoldable pub handle_buses : Bool → List Str → FlatpakPermissionsState → FlatpakPermissionsState
handle_buses is_session [] s = s
handle_buses is_session (bus ∷ rest) s =
    let t = or_arbitrary true s in
    handle_buses is_session rest (
      if bus_grants_arbitrary_permissions bus is_session
      then (if contains arbitrary_permissions_expected s.name
          then t
          else update (bus_note s.name bus is_session) (some (bus_rec s.name bus is_session)) t)
      else s)

-- The dangerous names on the session bus, then those on the system bus.
unfoldable pub handle_flatpak_buses :
    Permissions → FlatpakPermissionsState → FlatpakPermissionsState
handle_flatpak_buses perms s =
    handle_buses false perms.system_bus_talk (handle_buses true perms.session_bus_talk s)

-- `s.rsplit("/", maxsplit=1)[-1]`
unfoldable pub last_part : List Str → Str
last_part [] = []
last_part (p ∷ []) = p
last_part (p ∷ q ∷ ps) = last_part (q ∷ ps)

unfoldable pub preloaded : Permissions → List Str
unfolding Dict.lookup words last_part split_on list_beq
preloaded perms = elim (Dict.lookup (codes "LD_PRELOAD") perms.environment) [
  | none ↦ []
  | some ld_preload ↦ map (λ s. last_part (split_on b'/' s)) (words ld_preload)
]

unfoldable pub malloc_rec : Str → Recommendation
unfolding join
malloc_rec name = record {
  text = join (10 ∷ []) (
      codes "The following flatpak app(s) are not requesting hardened_malloc:"
      ∷ names_placeholder
      ∷ codes "To enable it for an app, run:"
      ∷ codes "$ ujust harden-flatpak com.example.Example"
      ∷ app_id_line
      ∷ []);
  mergeable_name = some name;
}

unfoldable pub malloc_note : Str → Status → Note
malloc_note name status = record {
  text = name ++ codes " is not requesting hardened_malloc";
  status = some status;
}

unfoldable pub variant_note : Str → Str → Note
variant_note name variant = record {
  text = name ++ (codes " is requesting " ++ variant);
  status = some info;
}

unfoldable pub check_ld_preload : Permissions → FlatpakPermissionsState → FlatpakPermissionsState
check_ld_preload perms s =
    let files = preloaded perms in
    let rec = some (malloc_rec s.name) in
    if contains files (codes "libhardened_malloc.so")
    then s
    else if contains files (codes "libhardened_malloc-light.so")
    then update (variant_note s.name (codes "hardened_malloc-light")) none
        (update (malloc_note s.name info) rec s)
    else if contains files (codes "libhardened_malloc-pkey.so")
    then update (variant_note s.name (codes "hardened_malloc-pkey")) none
        (update (malloc_note s.name info) rec s)
    else update (malloc_note s.name warn) rec s

unfoldable pub arbitrary_note : Str → Note
arbitrary_note name = record {
  text = name ++ codes " can acquire arbitrary permissions.";
  status = some fail;
}

unfoldable pub expected_note : Str → Note
expected_note name = record {
  text =
      name
      ++ (codes " can acquire arbitrary permissions."
          ++ (10 ∷ codes "However, this is required for its functionality."));
  status = some info;
}

unfoldable pub handle_arbitrary_permissions : FlatpakPermissionsState → FlatpakPermissionsState
handle_arbitrary_permissions s =
    if s.arbitrary_permissions
    then (if contains arbitrary_permissions_expected s.name
        then update (expected_note s.name) none s
        else update (arbitrary_note s.name) none s)
    else s
