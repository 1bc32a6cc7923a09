-- ===== src/Toggles/Hostname.antt =====
-- dhcp_hostname_sending_main.py and inner/dhcp_hostname_sending.py.
use secureblue.Base.{ℕ, zero, suc, arith}
use secureblue.Base.{◌≡◌, refl, sym, ap, ◌∙◌, inl, inr}
use secureblue.Base.{Bool, true, false, not, if◌then◌else◌, Bool-cases}
use secureblue.Base.{List, [], ◌∷◌, ◌++◌, String}
use secureblue.Base.{nat_eq, string_eq, list_eq, list_beq}
use secureblue.Base.Dict
use secureblue.Base.Dict.{Dict}
use secureblue.Base.Exec.{Result, ok, err, ◌>>◌}
use secureblue.Base.{Str, codes}
use secureblue.Base.{Option-cases}
use secureblue.Base.Exec.{ok-injective}
use secureblue.Utils.Ask.{Entered, AskError}
use secureblue.Utils.Toggle.{
  ToggleMode, on, off, status, help, ToggleError, usage_error, asking, parse_basic_toggle_args,
}
use secureblue.Toggles.Host.{
  Host, Worker, file_exists, write_file, remove_file, Grant, run_sandboxed, same, mode_text,
  worker_status,
}
use secureblue.Toggles.Modprobe.{on_off}
use secureblue.Toggles.SwitchLaws.{
  Switch, IsSwitch, Leaves, sandboxed-Leaves, same-eq, file_exists-write, file_exists-erased,
  erased, remove_missing, remove_there,
}

abbrev pub hostname_sending_file : String
hostname_sending_file = "/etc/NetworkManager/conf.d/dhcp_no_hostname.conf"

abbrev pub hostname_sending_text : Str
hostname_sending_text =
    codes "[connection]"
    ++ (10 ∷ codes "ipv4.dhcp-send-hostname=0"
        ++ (10 ∷ codes "ipv6.dhcp-send-hostname=0" ++ (10 ∷ [])))

abbrev pub mode_of : Bool → ToggleMode
mode_of true = on
mode_of false = off

-- `restart` is `systemctl restart NetworkManager.service`.
module _ {Units : Type 0} (restart : Units → ℕ × Units) where
  -- A second try follows a failure.
  unfoldable pub second_try : ℕ × Units → ℕ × Units
  second_try (zero, units) = (0, units)
  second_try (suc code, units) = restart units

  unfoldable pub restart_nm : Worker Units
  unfolding second_try
  restart_nm host =
      let (code, units) = second_try (restart host.units) in
      (ok code, record host { units = units })

  unfoldable pub hostname_off : Worker Units
  unfolding write_file restart_nm
  hostname_off = do write_file hostname_sending_file hostname_sending_text; restart_nm

  unfoldable pub hostname_on : Worker Units
  unfolding remove_file restart_nm
  hostname_on = do remove_file hostname_sending_file; restart_nm

  unfoldable pub hostname_worker : List Str → Worker Units
  unfolding on_off hostname_on hostname_off
  hostname_worker = on_off hostname_on hostname_off

  unfoldable pub hostname_sending_enabled : Host Units → Bool
  unfolding file_exists
  hostname_sending_enabled host = not (file_exists hostname_sending_file host)

  unfoldable pub set_hostname_sending : Grant → Bool → Host Units → ℕ × Host Units
  unfolding run_sandboxed hostname_worker hostname_sending_enabled
  set_hostname_sending grant target host =
      if same target (hostname_sending_enabled host)
      then (0, host)
      else run_sandboxed grant (hostname_worker (mode_text target ∷ [])) host

  unfoldable pub run_hostname : Grant → ToggleMode → Host Units → ℕ × Host Units
  unfolding set_hostname_sending
  run_hostname grant help host = (0, host)
  run_hostname grant status host = (0, host)
  run_hostname grant on host = set_hostname_sending grant true host
  run_hostname grant off host = set_hostname_sending grant false host

  unfoldable pub hostname_asked :
      Grant → Result ToggleError ToggleMode → Host Units → Result AskError ℕ × Host Units
  unfolding run_hostname
  hostname_asked grant (err (usage_error message)) host = (ok 2, host)
  hostname_asked grant (err (asking e)) host = (err e, host)
  hostname_asked grant (ok mode) host =
      let (code, after) = run_hostname grant mode host in (ok code, after)

  unfoldable pub hostname_main :
      Grant → List Str → List Entered → Host Units → Result AskError ℕ × Host Units
  unfolding hostname_asked parse_basic_toggle_args
  hostname_main grant args entered host =
      hostname_asked grant (parse_basic_toggle_args true args entered) host

  restart_files : (host : Host Units) → (restart_nm host).1.files ≡ host.files
  unfolding restart_nm
  restart_files host = refl

  exists_restart :
      (host : Host Units)
      → file_exists hostname_sending_file (restart_nm host).1
        ≡ file_exists hostname_sending_file host
  unfolding file_exists
  exists_restart host = rw (file_exists, restart_files host) refl

  hostname_law :
      (target : Bool) (host : Host Units)
      → worker_status (hostname_worker (mode_text target ∷ []) host).0 ≡ 0
      → hostname_sending_enabled (hostname_worker (mode_text target ∷ []) host).1 ≡ target
  unfolding hostname_worker on_off list_beq hostname_sending_enabled hostname_on hostname_off
  hostname_law false host h =
      let wrote = (write_file hostname_sending_file hostname_sending_text host).1 in
      ap not
        (exists_restart wrote ∙ file_exists-write hostname_sending_file hostname_sending_text host)
  hostname_law true host h = elim (Option-cases (Dict.lookup hostname_sending_file host.files)) [
    | inl e ↦
        let failed = rw (remove_missing hostname_sending_file host e) at h in
        absurd (unfold worker_status in omega (arith, failed))
    | inr (f, e) ↦ rw (remove_there hostname_sending_file host f e) (
        ap not (
          exists_restart (erased hostname_sending_file host)
          ∙ file_exists-erased hostname_sending_file host))
  ]

  hostname_switch : Switch Units
  hostname_switch = record { is_on = hostname_sending_enabled; worker = hostname_worker }

  hostname-IsSwitch : IsSwitch hostname_switch
  unfolding hostname_switch
  hostname-IsSwitch = record { set_law = hostname_law }

  set-Leaves :
      (target : Bool) (grant : Grant) (host : Host Units)
      → Leaves hostname_switch hostname-IsSwitch target grant host
          (set_hostname_sending grant target host)
  unfolding set_hostname_sending hostname_switch
  set-Leaves target grant host = elim (Bool-cases (same target (hostname_sending_enabled host))) [
    | inl e ↦ rw e (λ _. same-eq _ _ e, λ _. (refl, refl))
    | inr ne ↦ rw ne (sandboxed-Leaves hostname_switch hostname-IsSwitch target grant host ne)
  ]

  run_hostname-set :
      (target : Bool) (grant : Grant) (host : Host Units)
      → run_hostname grant (mode_of target) host ≡ set_hostname_sending grant target host
  unfolding run_hostname
  run_hostname-set true grant host = refl
  run_hostname-set false grant host = refl

  asked-run :
      (grant : Grant) (r : Result ToggleError ToggleMode) (mode : ToggleMode)
      (host after : Host Units)
      → r ≡ ok mode
      → hostname_asked grant r host ≡ (ok 0, after)
      → run_hostname grant mode host ≡ (0, after)
  unfolding hostname_asked
  asked-run grant r mode host after e h =
      let ran = rw (e, hostname_asked) at h in
      let code : (run_hostname grant mode host).0 ≡ 0 = ok-injective _ _ (ap (λ x. x.0) ran) in
      ap (λ n. (n, (run_hostname grant mode host).1)) code ∙ ap (λ a. (0, a)) (ap (λ x. x.1) ran)

  -- Where the script is asked to switch the sending of the host name on or off, by its argument or by
  -- an answer, and ends with status 0, the sending is as asked for.
  pub hostname_main-switched :
      (grant : Grant) (args : List Str) (entered : List Entered) (target : Bool)
      (host after : Host Units)
      → parse_basic_toggle_args true args entered ≡ ok (mode_of target)
      → hostname_main grant args entered host ≡ (ok 0, after)
      → hostname_sending_enabled after ≡ target
  unfolding hostname_main hostname_switch
  hostname_main-switched grant args entered target host after asked h =
      let ran =
        asked-run grant (parse_basic_toggle_args true args entered) (mode_of target) host after
          asked h in
      let e = sym (run_hostname-set target grant host) ∙ ran in
      sym (ap (λ x. hostname_sending_enabled x.1) e)
      ∙ (set-Leaves target grant host).0 (ap (λ x. x.0) e)
