-- ===== src/Sandbox/Command.antt =====
-- `SandboxedFunction`, its validation, its run0 arguments and the command line of `run`.
use secureblue.Base.{Bool, not, ◌&&◌, if◌then◌else◌}
use secureblue.Base.{Option, none, some, List, [], ◌∷◌, ◌++◌}
use secureblue.Base.{◌==◌, nat_eq, string_eq, list_eq, list_beq}
use secureblue.Base.{any, all, keep}
use secureblue.Base.{Str, codes, starts_with, join}

abbrev pub inner_dir : Str
inner_dir = codes "/usr/libexec/secureblue/inner"

abbrev pub syscalls_to_allow : List Str
syscalls_to_allow = codes "@system-service" ∷ []

abbrev pub syscalls_to_deny : List Str
syscalls_to_deny =
    codes "@aio"
    ∷ codes "@chown"
    ∷ codes "@keyring"
    ∷ codes "@memlock"
    ∷ codes "@mount"
    ∷ codes "@privileged"
    ∷ codes "@resources"
    ∷ codes "@setuid"
    ∷ codes "memfd_create"
    ∷ []

-- `f"--property={name}={value}"`
unfoldable pub property : Str → Str → Str
property name value = codes "--property=" ++ (name ++ (codes "=" ++ value))

unfoldable pub run0_base_arguments : List Str
unfolding property join
run0_base_arguments =
    property (codes "DevicePolicy") (codes "closed")
    ∷ property (codes "InaccessiblePaths") (codes "/run/dbus/ /run/user/")
    ∷ property (codes "LockPersonality") (codes "yes")
    ∷ property (codes "MemoryDenyWriteExecute") (codes "yes")
    ∷ property (codes "NoNewPrivileges") (codes "yes")
    ∷ property (codes "PrivateDevices") (codes "yes")
    ∷ property (codes "PrivateIPC") (codes "yes")
    ∷ property (codes "PrivateNetwork") (codes "yes")
    ∷ property (codes "ProcSubset") (codes "pid")
    ∷ property (codes "ProtectClock") (codes "yes")
    ∷ property (codes "ProtectControlGroups") (codes "yes")
    ∷ property (codes "ProtectHostname") (codes "yes")
    ∷ property (codes "ProtectKernelLogs") (codes "yes")
    ∷ property (codes "ProtectKernelModules") (codes "yes")
    ∷ property (codes "ProtectKernelTunables") (codes "yes")
    ∷ property (codes "ReadOnlyPaths") (codes "/")
    ∷ property (codes "PrivateTmp") (codes "yes")
    ∷ property (codes "RestrictAddressFamilies") (codes "AF_UNIX")
    ∷ property (codes "RestrictNamespaces") (codes "yes")
    ∷ property (codes "RestrictRealtime") (codes "yes")
    ∷ property (codes "RestrictSUIDSGID") (codes "yes")
    ∷ property (codes "SystemCallArchitectures") (codes "native")
    ∷ property (codes "SystemCallFilter") (join (codes " ") syscalls_to_allow)
    ∷ property (codes "SystemCallFilter") (codes "~" ++ join (codes " ") syscalls_to_deny)
    ∷ property (codes "SystemCallErrorNumber") (codes "EPERM")
    ∷ []

pub record SandboxedFunction : Type 0 where
  pub file_name : Str
  pub capabilities : List Str
  pub read_write_paths : List Str
  pub allowed_syscalls : List Str
  pub additional_sandbox_properties : List Str
  pub remove_sandbox_arguments : List Str
  pub subprocess_interactive : Bool

-- `arg.startswith("--") and arg != "--"`
unfoldable pub is_option : Str → Bool
unfolding starts_with list_beq
is_option arg = starts_with arg (codes "--") && not (arg == codes "--")

-- `__post_init__` past the checks of types: `false` is the ValueError.
unfoldable pub post_init : SandboxedFunction → Bool
unfolding all
post_init f = all is_option (f.additional_sandbox_properties ++ f.remove_sandbox_arguments)

-- `arg.startswith(tuple(prefixes))`
unfoldable pub starts_with_any : List Str → Str → Bool
unfolding any
starts_with_any prefixes arg = any (starts_with arg) prefixes

unfoldable pub default_arguments : SandboxedFunction → List Str
unfolding run0_base_arguments
default_arguments f =
    run0_base_arguments
    ++ (property (codes "CapabilityBoundingSet") (join (codes " ") f.capabilities)
        ∷ property (codes "ReadWritePaths") (join (codes " ") f.read_write_paths)
        ∷ (elim f.allowed_syscalls [
          | [] ↦ []
          | s ∷ ss ↦ property (codes "SystemCallFilter") (join (codes " ") (s ∷ ss)) ∷ []
        ]))

-- The arguments before the one for the background is seen to.
unfoldable pub selected_arguments : SandboxedFunction → List Str
unfolding starts_with_any keep
selected_arguments f =
    keep (λ arg. not (starts_with_any f.remove_sandbox_arguments arg)) (default_arguments f)
    ++ f.additional_sandbox_properties

unfoldable pub needs_background : SandboxedFunction → Bool
unfolding any
needs_background f =
    not f.subprocess_interactive
    && not (any (λ arg. starts_with arg (codes "--background")) (selected_arguments f))

unfoldable pub get_arguments : SandboxedFunction → List Str
get_arguments f =
    selected_arguments f ++ (if needs_background f then codes "--background=" ∷ [] else [])

-- The worker's own command line.
unfoldable pub worker_command : SandboxedFunction → List Str → List Str
worker_command f args =
    codes "/usr/bin/python3"
    ∷ codes "-Es"
    ∷ codes "-B"
    ∷ (inner_dir ++ (codes "/" ++ f.file_name))
    ∷ args

unfoldable pub command : SandboxedFunction → List Str → List Str
command f args = codes "/usr/bin/run0" ∷ get_arguments f ++ (codes "--" ∷ worker_command f args)

-- Where the standard input of the process comes from.
pub data Stdin : Type 0 where
  text : Str → Stdin
  inherited devnull : Stdin

-- What `run` hands to `subprocess.run`; `none` is the ValueError.
unfoldable pub run : SandboxedFunction → List Str → Option Str → Option (List Str × Stdin)
run f args (some input) =
    if f.subprocess_interactive then none else some (command f args, text input)
run f args none = some (command f args, if f.subprocess_interactive then inherited else devnull)
