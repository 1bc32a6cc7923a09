-- ===== src/Toggles/Modprobe.antt =====
-- bluetooth_main.py and webcam_main.py, with their workers.
use secureblue.Base.{ℕ}
use secureblue.Base.{Bool, not, ◌||◌, if◌then◌else◌}
use secureblue.Base.{Option, none, some, List, [], ◌∷◌, ◌++◌, String}
use secureblue.Base.{◌==◌, nat_eq, string_eq, list_eq, list_beq}
use secureblue.Base.Exec.{Result, ok, err, Exec, pure, ◌>>◌}
use secureblue.Base.{Str, codes}
use secureblue.Systemd.{
  Systemctl, disable_now, enable_now, mask, unmask, system_service, do_systemctl_action,
}
use secureblue.Utils.Ask.{Entered, AskError}
use secureblue.Toggles.Host.{
  Host, WorkerError, exit, Worker, file_exists, write_file, remove_file, Grant, run_sandboxed, same,
  read_mode,
}

-- A worker that takes one argument, `on` or `off`.
unfoldable pub on_off : {Units : Type 0} → (on off : Worker Units) → List Str → Worker Units
unfolding list_beq
on_off on off (mode ∷ []) =
    if mode == codes "on" then on else if mode == codes "off" then off else pure 1
on_off on off _ = pure 1

abbrev pub blue_mod_file : String
blue_mod_file = "/etc/modprobe.d/99-bluetooth.conf"

abbrev pub blue_mod_text : Str
blue_mod_text =
    codes "install bluetooth /sbin/modprobe --ignore-install bluetooth"
    ++ (10 ∷ codes "install btusb /sbin/modprobe --ignore-install btusb" ++ (10 ∷ []))

abbrev pub webcam_mod_file : String
webcam_mod_file = "/etc/modprobe.d/99-disable-webcam.conf"

abbrev pub webcam_mod_text : Str
webcam_mod_text =
    10 ∷ codes "install ipu-bridge /bin/false"
    ++ (10 ∷ codes "install ipu3-imgu /bin/false"
        ++ (10 ∷ codes "install ipu3-cio2 /bin/false"
            ++ (10 ∷ codes "install intel_ipu6 /bin/false"
                ++ (10 ∷ codes "install intel_ipu6_isys /bin/false"
                    ++ (10 ∷ codes "install intel_ipu7 /bin/false"
                        ++ (10 ∷ codes "install intel_ipu7_isys /bin/false"
                            ++ (10 ∷ codes "install uvcvideo /bin/false" ++ (10 ∷ []))))))))

module _ (ctl : Systemctl) where
  -- A method of `SystemdService("bluetooth.service")`
  unfoldable pub bluetooth_service : List String → Exec (Host ctl.Units) WorkerError (Unit {0})
  unfolding do_systemctl_action
  bluetooth_service actions host =
      let (r, u) =
        do_systemctl_action ctl exit (system_service "bluetooth.service") actions host.units in
      (r, record host { units = u })

  unfoldable pub bluetooth_on : Worker ctl.Units
  unfolding write_file
  bluetooth_on = do
    write_file blue_mod_file blue_mod_text
    bluetooth_service unmask
    bluetooth_service enable_now
    pure 0

  unfoldable pub bluetooth_off : Worker ctl.Units
  unfolding remove_file
  bluetooth_off = do
    remove_file blue_mod_file
    bluetooth_service disable_now
    bluetooth_service mask
    pure 0

  unfoldable pub bluetooth_worker : List Str → Worker ctl.Units
  unfolding on_off bluetooth_on bluetooth_off
  bluetooth_worker = on_off bluetooth_on bluetooth_off

module _ {Units : Type 0} where
  unfoldable pub webcam_on : Worker Units
  unfolding remove_file
  webcam_on = do remove_file webcam_mod_file; pure 0

  unfoldable pub webcam_off : Worker Units
  unfolding write_file
  webcam_off = do write_file webcam_mod_file webcam_mod_text; pure 0

  unfoldable pub webcam_worker : List Str → Worker Units
  unfolding on_off webcam_on webcam_off
  webcam_worker = on_off webcam_on webcam_off

  -- The `match` of the two scripts: `enabled` is what the file says.
  unfoldable pub run_mode :
      Grant
      → (enabled : Bool) → (worker : List Str → Worker Units) → Str
      → Host Units
      → ℕ × Host Units
  unfolding list_beq run_sandboxed
  run_mode grant enabled worker mode host =
      if mode == codes "on" || mode == codes "off"
      then (if same (mode == codes "on") enabled
          then (0, host)
          else run_sandboxed grant (worker (mode ∷ [])) host)
      else if mode == codes "status" || mode == codes "--help"
      then (0, host)
      else (1, host)

  unfoldable pub run_read :
      Grant
      → (enabled : Bool) → (worker : List Str → Worker Units) → Result AskError (Option Str)
      → Host Units
      → Result AskError ℕ × Host Units
  unfolding run_mode
  run_read grant enabled worker (err e) host = (err e, host)
  run_read grant enabled worker (ok none) host = (ok 1, host)
  run_read grant enabled worker (ok (some mode)) host =
      let (code, after) = run_mode grant enabled worker mode host in (ok code, after)

  unfoldable pub webcam_main :
      Grant → List Str → List Entered → Host Units → Result AskError ℕ × Host Units
  unfolding run_read read_mode file_exists
  webcam_main grant args entered host =
      run_read grant (not (file_exists webcam_mod_file host)) webcam_worker (read_mode args entered)
        host

module _ (ctl : Systemctl) where
  unfoldable pub bluetooth_main :
      Grant → List Str → List Entered → Host ctl.Units → Result AskError ℕ × Host ctl.Units
  unfolding run_read read_mode file_exists
  bluetooth_main grant args entered host =
      run_read grant (file_exists blue_mod_file host) (bluetooth_worker ctl)
        (read_mode args entered) host
