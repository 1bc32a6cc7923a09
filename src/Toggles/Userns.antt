-- ===== src/Toggles/Userns.antt =====
-- set_container_userns.py, set_unconfined_userns.py and inner/set_selinux_module.py, over an interface
-- for semodule.
use secureblue.Base.{ℕ, suc}
use secureblue.Base.{◌≡◌}
use secureblue.Base.{Bool, true, false, not, if◌then◌else◌}
use secureblue.Base.{Option, none, some, List, [], ◌∷◌}
use secureblue.Base.{◌==◌, nat_eq, string_eq, list_eq, list_beq, contains}
use secureblue.Base.Exec.{Result, ok, err}
use secureblue.Base.{Str, codes}
use secureblue.Utils.Ask.{Entered, AskError, ask_yes_no}
use secureblue.Utils.Toggle.{
  ToggleMode, on, off, status, help, ToggleError, usage_error, asking, parse_basic_toggle_args,
}
use secureblue.Toggles.Host.{Grant, granted, refused}

-- `semodule -l` lists the modules that are enabled, or fails; `--enable` and `--disable` have an exit
-- status. `unshares` is whether the test command of the script for a module succeeds, and `stops`
-- whether `podman stop --all` does.
pub record Semodule : Type 1 where
  pub State : Type 0
  pub has_module : Str → State → Bool
  pub listed : State → Option (List Str)
  pub set_enabled : Bool → Str → State → ℕ × State
  pub unshares : Str → State → Bool
  pub stops : State → Bool

-- What the manual of semodule and the comments of the scripts promise.
pub record IsLawful (se : Semodule) : Type 0 where
  pub listed_law :
      (name : Str) (s : se.State) (ls : List Str)
      → se.listed s ≡ some ls
      → contains ls name ≡ se.has_module name s
  pub set_law :
      (enable : Bool) (name : Str) (s : se.State)
      → (se.set_enabled enable name s).0 ≡ 0
      → se.has_module name (se.set_enabled enable name s).1 ≡ enable
  pub unshare_law : (name : Str) (s : se.State) → se.unshares name s ≡ not (se.has_module name s)

abbrev pub container_userns_module : Str
container_userns_module = codes "harden_container_userns"

abbrev pub unconfined_userns_module : Str
unconfined_userns_module = codes "harden_userns"

-- `Mode(sys.argv[1])`
unfoldable pub module_mode : Str → Option Bool
unfolding list_beq
module_mode mode =
    if mode == codes "enable"
    then some true
    else if mode == codes "disable"
    then some false
    else none

-- What the user enters after the question for the mode.
unfoldable pub entered_after : List Str → List Entered → List Entered
unfolding ask_yes_no
entered_after [] entered = (ask_yes_no entered).1
entered_after (arg ∷ rest) entered = entered

-- The answer to the warning, and then `podman stop --all`.
unfoldable pub proceed : Result AskError Bool → (stopped : Bool) → Result AskError (Option Bool)
proceed (err e) stopped = err e
proceed (ok false) stopped = ok (some false)
proceed (ok true) true = ok (some true)
proceed (ok true) false = ok none

-- Without the list, the test command tells.
unfoldable pub enabled_by : Option (List Str) → Bool → Str → Bool
unfolding contains list_beq
enabled_by none unshared module_name = unshared
enabled_by (some modules) unshared module_name = not (contains modules module_name)

module _ (se : Semodule) where
  open se use {State, has_module, listed, set_enabled, unshares, stops}

  abbrev pub Ended : Type 0
  Ended = Result AskError ℕ × State

  unfoldable pub set_module : Option Bool → Str → State → ℕ × State
  set_module none module_name s = (2, s)
  set_module (some enable) module_name s = set_enabled enable module_name s

  unfoldable pub set_selinux_module : List Str → State → ℕ × State
  unfolding set_module module_mode
  set_selinux_module (mode ∷ module_name ∷ []) s = set_module (module_mode mode) module_name s
  set_selinux_module _ s = (2, s)

  unfoldable pub run_semodule : Grant → List Str → State → Ended
  unfolding set_selinux_module
  run_semodule (refused code) args s = (ok (suc code), s)
  run_semodule granted args s = let (code, after) = set_selinux_module args s in (ok code, after)

  unfoldable pub userns_enabled : Str → State → Bool
  unfolding enabled_by
  userns_enabled module_name s = enabled_by (listed s) (unshares module_name s) module_name

  unfoldable pub enable_userns : Str → Grant → Bool → State → Ended
  unfolding run_semodule
  enable_userns module_name grant true s = (ok 0, s)
  enable_userns module_name grant false s =
      run_semodule grant (codes "disable" ∷ module_name ∷ []) s

  unfoldable pub disable_unconfined_userns : Grant → Bool → State → Ended
  unfolding run_semodule
  disable_unconfined_userns grant false s = (ok 0, s)
  disable_unconfined_userns grant true s =
      run_semodule grant (codes "enable" ∷ unconfined_userns_module ∷ []) s

  -- `none` is the CalledProcessError.
  unfoldable pub stop_containers : List Entered → State → Result AskError (Option Bool)
  unfolding ask_yes_no proceed
  stop_containers entered s = proceed (ask_yes_no entered).0 (stops s)

  unfoldable pub after_stop : Grant → Result AskError (Option Bool) → State → Ended
  unfolding run_semodule
  after_stop grant (err e) s = (err e, s)
  after_stop grant (ok none) s = (ok 1, s)
  after_stop grant (ok (some false)) s = (ok 0, s)
  after_stop grant (ok (some true)) s =
      run_semodule grant (codes "enable" ∷ container_userns_module ∷ []) s

  unfoldable pub disable_container_userns : Grant → Bool → List Entered → State → Ended
  unfolding after_stop stop_containers
  disable_container_userns grant false entered s = (ok 0, s)
  disable_container_userns grant true entered s = after_stop grant (stop_containers entered s) s

  unfoldable pub run_container : Grant → ToggleMode → List Entered → State → Ended
  unfolding userns_enabled enable_userns disable_container_userns
  run_container grant help entered s = (ok 0, s)
  run_container grant status entered s = (ok 0, s)
  run_container grant on entered s =
      enable_userns container_userns_module grant (userns_enabled container_userns_module s) s
  run_container grant off entered s =
      disable_container_userns grant (userns_enabled container_userns_module s) entered s

  unfoldable pub run_unconfined : Grant → ToggleMode → List Entered → State → Ended
  unfolding userns_enabled enable_userns disable_unconfined_userns
  run_unconfined grant help entered s = (ok 0, s)
  run_unconfined grant status entered s = (ok 0, s)
  run_unconfined grant on entered s =
      enable_userns unconfined_userns_module grant (userns_enabled unconfined_userns_module s) s
  run_unconfined grant off entered s =
      disable_unconfined_userns grant (userns_enabled unconfined_userns_module s) s

  -- `main` of both scripts, given their `run`.
  unfoldable pub main_with :
      (ToggleMode → List Entered → State → Ended)
      → Result ToggleError ToggleMode
      → List Entered
      → State
      → Ended
  main_with run (err (usage_error message)) entered s = (ok 2, s)
  main_with run (err (asking e)) entered s = (err e, s)
  main_with run (ok mode) entered s = run mode entered s

  unfoldable pub container_main : Grant → List Str → List Entered → State → Ended
  unfolding main_with run_container parse_basic_toggle_args entered_after
  container_main grant args entered s =
      main_with (run_container grant) (parse_basic_toggle_args true args entered)
        (entered_after args entered) s

  unfoldable pub unconfined_main : Grant → List Str → List Entered → State → Ended
  unfolding main_with run_unconfined parse_basic_toggle_args entered_after
  unconfined_main grant args entered s =
      main_with (run_unconfined grant) (parse_basic_toggle_args true args entered)
        (entered_after args entered) s
