-- ===== src/Toggles/Switches.antt =====
-- bluetooth_main.py keeps the law of a switch, and what it and webcam_main.py leave.
use secureblue.Base.{ℕ, arith}
use secureblue.Base.{◌≡◌, refl, ◌∙◌, inl, inr}
use secureblue.Base.{Bool, true, false, not}
use secureblue.Base.{some, List, [], ◌∷◌, String}
use secureblue.Base.{nat_eq, string_eq, list_eq, list_beq}
use secureblue.Base.Dict
use secureblue.Base.Dict.{Dict}
use secureblue.Base.Exec.{
  Result, ok, err, Exec, pure, raise, gets, or_raise, ◌>>=◌, ◌>>◌, modify, when, for_each,
}
use secureblue.Base.{Str}
use secureblue.Base.Dict.{lookup-insert, lookup-erase}
use secureblue.Base.Exec.{>>=-eq-ok}
use secureblue.Systemd.{Systemctl, disable_now, enable_now, mask, unmask}
use secureblue.Base.{Option-cases}
use secureblue.Base.Exec
use secureblue.Base.Exec.{ok-injective}
use secureblue.Utils.Ask.{Entered, AskError}
use secureblue.Toggles.Host.{
  Host, WorkerError, Worker, file_exists, write_file, Grant, mode_text, worker_status, read_mode,
}
use secureblue.Toggles.Modprobe.{
  on_off, bluetooth_worker, bluetooth_on, bluetooth_off, bluetooth_service, blue_mod_file,
  webcam_mod_file, blue_mod_text, bluetooth_main, webcam_main,
}
use secureblue.Toggles.SwitchLaws.{
  Switch, IsSwitch, remove_missing, file_exists-write, webcam_switch, webcam-IsSwitch,
  run_read-switched, erased, file_exists-erased, remove_there,
}

module _ (ctl : Systemctl) where
  -- The services are switched beside the files.
  service_files :
      (actions : List String) (host : Host ctl.Units)
      → (bluetooth_service ctl actions host).1.files ≡ host.files
  unfolding bluetooth_service
  service_files actions host = refl

  AlwaysKeeps : {A : Type 0} → Exec (Host ctl.Units) WorkerError A → Type 0
  AlwaysKeeps m = (host : Host ctl.Units) → (m host).1.files ≡ host.files

  continue-files :
      {A B : Type 0} (r : Result WorkerError A) (f : A → Exec (Host ctl.Units) WorkerError B)
      (host : Host ctl.Units)
      → ((a : A) → AlwaysKeeps (f a))
      → (Exec.continue r f host).1.files ≡ host.files
  unfolding AlwaysKeeps
  continue-files (ok a) f host k = k a host
  continue-files (err e) f host k = refl

  services-AlwaysKeeps :
      (actions more : List String)
      → AlwaysKeeps {A = ℕ} (do bluetooth_service ctl actions; bluetooth_service ctl more; pure 0)
  unfolding AlwaysKeeps
  services-AlwaysKeeps actions more host =
      let first = bluetooth_service ctl actions host in
      let second = bluetooth_service ctl more first.1 in
      continue-files first.0 _ first.1 (λ _ h.
        continue-files (bluetooth_service ctl more h).0 _ (bluetooth_service ctl more h).1
          (λ _ g. refl)
        ∙ service_files more h)
      ∙ service_files actions host

  -- The file decides, whatever became of the services.
  exists-files :
      (path : String) (a b : Host ctl.Units)
      → a.files ≡ b.files
      → file_exists path a ≡ file_exists path b
  unfolding file_exists
  exists-files path a b e = rw (file_exists, e) refl

  abbrev services : (actions more : List String) → Worker ctl.Units
  services actions more = do bluetooth_service ctl actions; bluetooth_service ctl more; pure 0

  services-exists :
      (actions more : List String) (path : String) (host : Host ctl.Units)
      → file_exists path (services actions more host).1 ≡ file_exists path host
  unfolding AlwaysKeeps
  services-exists actions more path host =
      exists-files path (services actions more host).1 host (services-AlwaysKeeps actions more host)

  bluetooth_off_law :
      (host : Host ctl.Units)
      → worker_status (bluetooth_off ctl host).0 ≡ 0
      → file_exists blue_mod_file (bluetooth_off ctl host).1 ≡ false
  unfolding bluetooth_off worker_status
  bluetooth_off_law host h = elim (Option-cases (Dict.lookup blue_mod_file host.files)) [
    | inl e ↦
        let failed = rw (remove_missing blue_mod_file host e) at h in absurd (omega (arith, failed))
    | inr (f, e) ↦ rw (remove_there blue_mod_file host f e) (
        services-exists disable_now mask blue_mod_file (erased blue_mod_file host)
        ∙ file_exists-erased blue_mod_file host)
  ]

  bluetooth_on_law :
      (host : Host ctl.Units) → file_exists blue_mod_file (bluetooth_on ctl host).1 ≡ true
  unfolding bluetooth_on
  bluetooth_on_law host =
      services-exists unmask enable_now blue_mod_file
        (write_file blue_mod_file blue_mod_text host).1
      ∙ file_exists-write blue_mod_file blue_mod_text host

  bluetooth_law :
      (target : Bool) (host : Host ctl.Units)
      → worker_status (bluetooth_worker ctl (mode_text target ∷ []) host).0 ≡ 0
      → file_exists blue_mod_file (bluetooth_worker ctl (mode_text target ∷ []) host).1 ≡ target
  unfolding bluetooth_worker on_off list_beq
  bluetooth_law true host h = bluetooth_on_law host
  bluetooth_law false host h = bluetooth_off_law host h

  bluetooth_switch : Switch ctl.Units
  bluetooth_switch = record {
    is_on = λ host. file_exists blue_mod_file host;
    worker = bluetooth_worker ctl;
  }

  bluetooth-IsSwitch : IsSwitch bluetooth_switch
  unfolding bluetooth_switch
  bluetooth-IsSwitch = record { set_law = λ target host h. bluetooth_law target host h }

-- The two scripts, what each runs, and when what it switches is on: bluetooth has its modprobe file
-- then, and the webcam has none.
pub data SwitchScript : Type 0 where
  bluetooth webcam : SwitchScript

abbrev pub script_main :
    (ctl : Systemctl)
    → Grant
    → SwitchScript
    → List Str
    → List Entered
    → Host ctl.Units
    → Result AskError ℕ × Host ctl.Units
script_main ctl grant bluetooth = bluetooth_main ctl grant
script_main ctl grant webcam = webcam_main grant

abbrev pub is_on : {U : Type 0} → SwitchScript → Host U → Bool
is_on bluetooth host = file_exists blue_mod_file host
is_on webcam host = not (file_exists webcam_mod_file host)

-- Where bluetooth_main.py or webcam_main.py is asked to switch its device on or off, by its argument or
-- by an answer, and ends with status 0, the device is as asked for: the modprobe file of bluetooth is
-- there exactly if it was to be on, and that of the webcam exactly if it was to be off.
pub main-switched :
    (ctl : Systemctl) (grant : Grant) (script : SwitchScript) (args : List Str)
    (entered : List Entered) (target : Bool) (host after : Host ctl.Units)
    → read_mode args entered ≡ ok (some (mode_text target))
    → script_main ctl grant script args entered host ≡ (ok 0, after)
    → is_on script after ≡ target
unfolding bluetooth_main webcam_main bluetooth_switch webcam_switch
main-switched ctl grant bluetooth args entered target host after h e =
    run_read-switched (bluetooth_switch ctl) (bluetooth-IsSwitch ctl) (read_mode args entered)
      target grant host after h e
main-switched ctl grant webcam args entered target host after h e =
    run_read-switched webcam_switch webcam-IsSwitch (read_mode args entered) target grant host after
      h e
