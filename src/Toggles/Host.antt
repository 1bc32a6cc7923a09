-- ===== src/Toggles/Host.antt =====
-- What the toggles act on, and `sandbox.run` of a worker.
use secureblue.Base.{ℕ, suc}
use secureblue.Base.{Bool, true, false, not, if◌then◌else◌}
use secureblue.Base.{Option, none, some, List, [], ◌∷◌, String}
use secureblue.Base.{nat_eq, string_eq, list_eq}
use secureblue.Base.Dict
use secureblue.Base.Dict.{Dict}
use secureblue.Base.Exec.{Result, ok, err, Exec}
use secureblue.Base.{Str, codes}
use secureblue.Dns.World.{ConfFile}
use secureblue.Utils.Ask.{Entered, AskError, ask_yes_no}
use secureblue.Auditor.Status.{casefold}

pub record Host (Units : Type 0) : Type 0 where
  pub units : Units
  pub files : Dict String ConfFile

-- What ends a worker before it returns.
pub data WorkerError : Type 0 where
  file_not_found : WorkerError
  exit : ℕ → WorkerError

abbrev pub Worker : Type 0 → Type 0
Worker Units = Exec (Host Units) WorkerError ℕ

module _ {Units : Type 0} where
  -- `Path(path).exists()`
  unfoldable pub file_exists : String → Host Units → Bool
  unfolding Dict.lookup
  file_exists path host = elim (Dict.lookup path host.files) [ none ↦ false | some f ↦ true ]

  -- `open(path, "w")`, the text, and `os.chmod(path, 0o644)`
  unfoldable pub write_file : String → Str → Exec (Host Units) WorkerError (Unit {0})
  unfolding Dict.insert
  write_file path text host = (
    ok tt,
    record host { files = Dict.insert path (record { content = text; mode = 0o644 }) host.files },
  )

  -- `os.remove(path)`
  unfoldable pub remove_file : String → Exec (Host Units) WorkerError (Unit {0})
  unfolding Dict.erase file_exists
  remove_file path host =
      if file_exists path host
      then (ok tt, record host { files = Dict.erase path host.files })
      else (err file_not_found, host)

-- The exit status of a worker: an exception that is not caught is 1.
unfoldable pub worker_status : Result WorkerError ℕ → ℕ
worker_status (ok code) = code
worker_status (err file_not_found) = 1
worker_status (err (exit code)) = code

-- `sandbox.run`: run0 may refuse, with an exit status that is not 0.
pub data Grant : Type 0 where
  granted : Grant
  refused : ℕ → Grant

unfoldable pub run_sandboxed : {Units : Type 0} → Grant → Worker Units → Host Units → ℕ × Host Units
unfolding worker_status
run_sandboxed (refused code) worker host = (suc code, host)
run_sandboxed granted worker host =
    let (result, after) = worker host in (worker_status result, after)

abbrev pub same : Bool → Bool → Bool
same true b = b
same false b = not b

abbrev pub mode_text : Bool → Str
mode_text true = codes "on"
mode_text false = codes "off"

-- The mode of a script that reads `sys.argv[1:]` itself; `none` is too many arguments.
unfoldable pub asked_text : Result AskError Bool → Result AskError (Option Str)
asked_text (err e) = err e
asked_text (ok b) = ok (some (mode_text b))

unfoldable pub read_mode : List Str → List Entered → Result AskError (Option Str)
unfolding asked_text ask_yes_no casefold
read_mode [] entered = asked_text (ask_yes_no entered).0
read_mode (mode ∷ []) entered = ok (some (casefold mode))
read_mode (mode ∷ more ∷ rest) entered = ok none
