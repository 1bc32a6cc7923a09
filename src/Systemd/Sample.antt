-- ===== src/Systemd/Sample.antt =====
-- A concrete systemctl for tests: units that are enabled, active and masked.
use secureblue.Base.{ℕ}
use secureblue.Base.{Bool, true, false, not, ◌&&◌, if◌then◌else◌}
use secureblue.Base.{List, [], ◌∷◌, String}
use secureblue.Base.{◌==◌, nat_eq, string_eq, list_eq}
use secureblue.Systemd.{Systemctl}

pub record Units : Type 0 where
  pub enabled : String → Bool
  pub active : String → Bool
  pub masked : String → Bool

abbrev pub at : String → Bool → (String → Bool) → String → Bool
at unit b f other = if unit == other then b else f other

-- A masked unit is not enabled or started.
abbrev pub call : List String → String → Units → ℕ × Units
call (a ∷ []) unit s =
    if a == "enable"
    then (if s.masked unit then (1, s) else (0, record s { enabled = at unit true s.enabled }))
    else if a == "disable"
    then (0, record s { enabled = at unit false s.enabled })
    else if a == "mask"
    then (0, record s { masked = at unit true s.masked })
    else if a == "unmask"
    then (0, record s { masked = at unit false s.masked })
    else if a == "start"
    then (if s.masked unit then (1, s) else (0, record s { active = at unit true s.active }))
    else if a == "stop"
    then (0, record s { active = at unit false s.active })
    else (0, s)
call _ unit s = (0, s)

abbrev pub systemctl : Systemctl
systemctl = record {
  Units = Units;
  call = call;
  is_enabled = λ unit s. s.enabled unit && not (s.masked unit);
  is_active = λ unit s. s.active unit;
}
