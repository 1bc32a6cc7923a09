-- ===== src/Systemd.antt =====
-- `SystemdService` of shared/utils.py: systemctl actions with one retry. systemctl is a parameter.
pub mod Sample
use secureblue.Base.{ℕ}
use secureblue.Base.{Bool, false, if◌then◌else◌}
use secureblue.Base.{List, [], ◌∷◌, String}
use secureblue.Base.{◌==◌, nat_eq, string_eq, list_eq}
use secureblue.Base.Exec.{ok, err, Exec}

-- The program `systemctl` over the state of the units: `call` gives the exit status of an action on a
-- unit and the state after it, `is-enabled` and `is-active` are queries.
pub record Systemctl : Type 1 where
  pub Units : Type 0
  pub call : List String → String → Units → ℕ × Units
  pub is_enabled : String → Units → Bool
  pub is_active : String → Units → Bool

abbrev pub disable : List String
disable = "disable" ∷ []

abbrev pub disable_now : List String
disable_now = "disable" ∷ "--now" ∷ []

abbrev pub enable : List String
enable = "enable" ∷ []

abbrev pub enable_now : List String
enable_now = "enable" ∷ "--now" ∷ []

abbrev pub stop : List String
stop = "stop" ∷ []

abbrev pub start : List String
start = "start" ∷ []

abbrev pub mask : List String
mask = "mask" ∷ []

abbrev pub unmask : List String
unmask = "unmask" ∷ []

pub record SystemdService : Type 0 where
  pub name : String
  pub is_user : Bool

-- A system service, as `SystemdService(name)` makes one.
abbrev pub system_service : String → SystemdService
system_service name = record { name = name; is_user = false }

module _ (ctl : Systemctl) where
  -- One call, and another one three seconds after a failure; `exit` is `sys.exit` with a status.
  unfoldable pub do_systemctl_action :
      {E : Type 0} → (ℕ → E) → SystemdService → List String → Exec ctl.Units E (Unit {0})
  do_systemctl_action exit service actions s =
      let arguments = if service.is_user then "--user" ∷ actions else actions in
      let (status, t) = ctl.call arguments service.name s in
      let (again, u) = ctl.call arguments service.name t in
      if status == 0 then (ok tt, t) else if again == 0 then (ok tt, u) else (err (exit again), u)
