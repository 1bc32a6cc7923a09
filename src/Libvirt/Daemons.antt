-- ===== src/Libvirt/Daemons.antt =====
-- The choice among the modular daemons of libvirt, set_libvirt_daemons.py, over an interface for systemctl.
use secureblue.Base.{ℕ, arith}
use secureblue.Base.{◌≡◌, ◌↔◌}
use secureblue.Base.{Bool, true, false, not, ◌&&◌, ◌||◌, if◌then◌else◌}
use secureblue.Base.{Option, none, some, List, [], ◌∷◌, ◌++◌, map, String}
use secureblue.Base.{Eq, ◌==◌, nat_eq, string_eq, list_eq, list_beq, contains}
use secureblue.Base.{any, keep}
use secureblue.Base.Exec.{Result, ok, err, Exec, pure, or_raise, ◌>>=◌, ◌>>◌, when}
use secureblue.Base.{Str, codes}
use secureblue.Auditor.Status.{casefold}

-- A selection (enum.Flag) is a test of the daemons, and is iterated in this order.
pub data Daemon : Type 0 where
  qemud interfaced networkd nodedevd nwfilterd : Daemon
  secretd storaged logd lockd proxyd : Daemon

abbrev pub Selection : Type 0
Selection = Daemon → Bool

abbrev pub all_daemons : List Daemon
all_daemons =
    qemud ∷ interfaced ∷ networkd ∷ nodedevd ∷ nwfilterd ∷ secretd ∷ storaged ∷ logd ∷ lockd
    ∷ proxyd ∷ []

abbrev pub index : Daemon → ℕ
index qemud = 0
index interfaced = 1
index networkd = 2
index nodedevd = 3
index nwfilterd = 4
index secretd = 5
index storaged = 6
index logd = 7
index lockd = 8
index proxyd = 9

pub index_iff : (a b : Daemon) → ((index a == index b) ≡ true) ↔ (a ≡ b)
index_iff a b = ground arith

instance abbrev pub daemon_eq : Eq Daemon
daemon_eq = record { beq = λ a b. index a == index b; beq_iff = index_iff }

pub data UnitKind : Type 0 where
  service socket socket_ro socket_admin : UnitKind

-- The units virt<daemon>.service and so on, and the units of the monolithic daemon.
pub data LibvirtUnit : Type 0 where
  modular : Daemon → UnitKind → LibvirtUnit
  monolithic : String → LibvirtUnit

unfoldable pub daemons : Selection → List Daemon
daemons selection = keep selection all_daemons

unfoldable pub units_of : UnitKind → Selection → List LibvirtUnit
units_of kind selection = map (λ d. modular d kind) (daemons selection)

abbrev pub is_qemud : Selection
is_qemud qemud = true
is_qemud _ = false

abbrev pub is_log : Selection
is_log logd = true
is_log lockd = true
is_log _ = false

-- `self & sockets_ro_mask`
unfoldable pub sockets_ro : Selection → List LibvirtUnit
sockets_ro selection = units_of socket_ro (λ d. selection d && not (is_log d))

unfoldable pub enabled_units : Selection → List LibvirtUnit
enabled_units selection =
    units_of service (λ d. selection d && is_qemud d)
    ++ (units_of socket selection ++ (sockets_ro selection ++ units_of socket_admin selection))

unfoldable pub disabled_units : Selection → List LibvirtUnit
disabled_units selection =
    let others : Selection = λ d. not (selection d) in
    units_of service others
    ++ (units_of socket others ++ (sockets_ro others ++ units_of socket_admin others))

abbrev pub monolithic_units : List LibvirtUnit
monolithic_units = map monolithic (
    "libvirtd.service" ∷ "libvirtd.socket" ∷ "libvirtd-ro.socket" ∷ "libvirtd-admin.socket"
    ∷ "libvirtd-tcp.socket" ∷ "libvirtd-tls.socket" ∷ [])

pub data LibvirtError : Type 0 where
  called_process_error value_error : LibvirtError

-- `systemctl is-enabled` prints a line per unit and has an exit status; `enable --now` and
-- `disable --now` succeed or fail.
pub record Systemctl : Type 1 where
  pub State : Type 0
  pub is_on : LibvirtUnit → State → Bool
  pub is_enabled : List LibvirtUnit → State → List Str × Bool
  pub run_enable : List LibvirtUnit → State → Bool × State
  pub run_disable : List LibvirtUnit → State → Bool × State

-- `zip(…, strict=True)`: the daemons whose line says "enabled"; `none` is the ValueError.
unfoldable pub enabled_lines : List Daemon → List Str → Option (List Daemon)
unfolding list_beq
enabled_lines [] [] = some []
enabled_lines (d ∷ ds) (status ∷ lines) = elim (enabled_lines ds lines) [
  | none ↦ none
  | some on ↦ some (if status == codes "enabled" then d ∷ on else on)
]
enabled_lines _ _ = none

-- `a != b` of two selections
abbrev pub differs : Selection → Selection → Bool
differs a b = any (λ d. if a d then not (b d) else b d) all_daemons

module _ (sys : Systemctl) where
  abbrev pub Action : Type 0 → Type 0
  Action = Exec sys.State LibvirtError

  -- `subprocess.run(…, check=True)`
  abbrev pub checked : Bool × sys.State → Result LibvirtError (Unit {0}) × sys.State
  checked (true, s) = (ok tt, s)
  checked (false, s) = (err called_process_error, s)

  unfoldable pub enable_systemd_units : List LibvirtUnit → Action (Unit {0})
  enable_systemd_units units s = checked (sys.run_enable units s)

  unfoldable pub disable_systemd_units : List LibvirtUnit → Action (Unit {0})
  disable_systemd_units units s = checked (sys.run_disable units s)

  unfoldable pub current_status : Action (List Daemon)
  current_status s =
      or_raise value_error
        (enabled_lines all_daemons (sys.is_enabled (units_of socket (λ d. true)) s).0) s

  unfoldable pub disable_monolithic_daemon : Action (Unit {0})
  disable_monolithic_daemon s =
      when (sys.is_enabled monolithic_units s).1 (disable_systemd_units monolithic_units) s

  unfoldable pub enable_all : Action (Unit {0})
  enable_all = enable_systemd_units (enabled_units (λ d. true))

  unfoldable pub disable_all : Action (Unit {0})
  disable_all = disable_systemd_units (disabled_units (λ d. false))

  -- `toggle` once the current selection is known and another one is chosen.
  unfoldable pub toggle_to : Selection → Selection → Action (Unit {0})
  toggle_to current selected = do
    let newly_enabled : Selection = λ d. selected d && not (current d)
    let newly_disabled : Selection = λ d. current d && not (selected d)
    when (any newly_enabled all_daemons) (enable_systemd_units (enabled_units newly_enabled))
    when (any newly_disabled all_daemons)
        (disable_systemd_units (disabled_units (λ d. not (newly_disabled d))))

  -- What follows the menu; `none` is Ctrl+C.
  unfoldable pub apply_selection : Selection → Option Selection → Action (Unit {0})
  apply_selection current none = pure tt
  apply_selection current (some selected) =
      if differs selected current then toggle_to current selected else pure tt

  -- `choice` is what the menu gives for the current selection.
  unfoldable pub toggle : (Selection → Option Selection) → Action (Unit {0})
  toggle choice = do on ← current_status; apply_selection (contains on) (choice (contains on))

  -- A CalledProcessError ends the script with 1; other exceptions leave it.
  unfoldable pub caught : Action (Unit {0}) → Action ℕ
  caught m s =
      let (r, t) = m s in
      elim r [
        | ok x ↦ (ok 0, t)
        | err called_process_error ↦ (ok 1, t)
        | err value_error ↦ (err value_error, t)
      ]

  unfoldable pub main : (Selection → Option Selection) → Option Str → Action ℕ
  unfolding caught casefold list_beq
  main choice none = caught (disable_monolithic_daemon >> toggle choice)
  main choice (some arg) =
      let mode = casefold arg in
      if mode == codes "help" || (mode == codes "-h" || mode == codes "--help")
      then pure 0
      else if mode == codes "status"
      then caught (current_status >> pure tt)
      else if mode == codes "on"
      then caught (disable_monolithic_daemon >> enable_all)
      else if mode == codes "off"
      then caught (disable_monolithic_daemon >> disable_all)
      else pure 2
