-- ===== src/Toggles/Tests.antt =====
-- The toggles at concrete inputs.
use secureblue.Base.{ℕ, arith}
use secureblue.Base.{◌≡◌, refl}
use secureblue.Base.{Bool, true, false, not, if◌then◌else◌}
use secureblue.Base.{none, some, List, [], ◌∷◌, String}
use secureblue.Base.{◌==◌, nat_eq, string_eq, list_eq}
use secureblue.Base.Dict
use secureblue.Base.Dict.{Dict}
use secureblue.Base.Exec.{ok}
use secureblue.Base.{Str, codes}
use secureblue.Auditor.Status.{casefold, pass}
use secureblue.Checks.System.{webcam_report}
use secureblue.Checks.Updates.{grade_cups}
use secureblue.Systemd.Sample.{Units, systemctl}
use secureblue.Utils.Ask.{Entered, typed, ask_yes_no}
use secureblue.Utils.Toggle.{parse_basic_toggle_args}
use secureblue.Toggles.Host.{Host, granted, mode_text, read_mode}
use secureblue.Toggles.Modprobe.{bluetooth_main, bluetooth_service, bluetooth_worker, webcam_main}
use secureblue.Toggles.Switches.{bluetooth, is_on, main-switched}
use secureblue.Toggles.WebcamAudit.{WebcamFile, webcam_file, opened, webcam_main-report}
use secureblue.Toggles.WebcamAudit
use secureblue.Toggles.Userns
use secureblue.Toggles.Userns.{Semodule, container_main, userns_enabled, container_userns_module}
use secureblue.Toggles.UsernsSet
use secureblue.Toggles.UsernsSet.{SwitchedOrDeclined, container_main-switched}
use secureblue.Toggles.Hostname
use secureblue.Toggles.Hostname.{hostname_main, hostname_sending_enabled, hostname_main-switched}
use secureblue.Toggles.Cups
use secureblue.Toggles.Cups.{cups_main, cups_main-graded}

-- Neither modprobe file is there: bluetooth is off and the webcam on.
abbrev fresh : Host Units
fresh = record {
  units = record { enabled = λ unit. false; active = λ unit. false; masked = λ unit. false };
  files = [];
}

abbrev on_args : List Str
on_args = codes "ON" ∷ []

on_asked : read_mode on_args [] ≡ ok (some (mode_text true))
unfolding read_mode casefold
on_asked = refl

abbrev bluetooth_set : Host Units
bluetooth_set = (bluetooth_main systemctl granted on_args [] fresh).1

bluetooth_set-eq : bluetooth_main systemctl granted on_args [] fresh ≡ (ok 0, bluetooth_set)
unfolding bluetooth_main bluetooth_service bluetooth_worker
bluetooth_set-eq = refl

main-switched_example : is_on bluetooth bluetooth_set ≡ true
main-switched_example =
    main-switched systemctl granted bluetooth on_args [] true fresh bluetooth_set on_asked
      bluetooth_set-eq

-- The answer `n` to the question of webcam_main.py.
abbrev no_entered : List Entered
no_entered = typed (codes "n") ∷ []

no_asked : read_mode [] no_entered ≡ ok (some (mode_text false))
unfolding read_mode ask_yes_no
no_asked = refl

fresh-WebcamFile : WebcamFile (webcam_file fresh)
unfolding Dict.lookup
fresh-WebcamFile = tt

webcam_main-report_example :
    ((webcam_main granted [] no_entered fresh).0 ≡ ok 0)
    × WebcamFile (webcam_file (webcam_main granted [] no_entered fresh).1)
    × ((webcam_report
          (opened (webcam_file (webcam_main granted [] no_entered fresh).1))
          (some [])).status
        ≡ WebcamAudit.wanted false (some []))
webcam_main-report_example =
    webcam_main-report [] no_entered false fresh (some []) no_asked fresh-WebcamFile

-- Whether the module of the containers is enabled.
abbrev one_module : Semodule
one_module = record {
  State = Bool;
  has_module = λ name s. if name == container_userns_module then s else false;
  listed = λ s. none;
  set_enabled = λ enable name s. if name == container_userns_module then (0, enable) else (1, s);
  unshares = λ name s. not (if name == container_userns_module then s else false);
  stops = λ s. true;
}

one_module-IsLawful : Userns.IsLawful one_module
one_module-IsLawful = record {
  listed_law = λ name s ls h. cc;
  set_law = λ enable name s h. ground (arith, h);
  unshare_law = λ name s. refl;
}

abbrev yes_entered : List Entered
yes_entered = typed (codes "y") ∷ []

abbrev off_args : List Str
off_args = codes "off" ∷ []

userns_asked : parse_basic_toggle_args true off_args yes_entered ≡ ok (UsernsSet.mode_of false)
unfolding parse_basic_toggle_args
userns_asked = refl

userns_off-eq : container_main one_module granted off_args yes_entered false ≡ (ok 0, true)
unfolding container_main
userns_off-eq = refl

container_main-switched_example :
    SwitchedOrDeclined one_module one_module-IsLawful false yes_entered false true
unfolding Userns.entered_after
container_main-switched_example =
    container_main-switched one_module one_module-IsLawful granted off_args yes_entered false false
      true userns_asked userns_off-eq

-- A NetworkManager that restarts at the second try.
abbrev second_restart : Bool → ℕ × Bool
second_restart tried = if tried then (0, true) else (1, true)

abbrev quiet : Host Bool
quiet = record { units = false; files = [] }

abbrev hostname_off : Host Bool
hostname_off = (hostname_main second_restart granted off_args [] quiet).1

hostname_asked : parse_basic_toggle_args true off_args [] ≡ ok (Hostname.mode_of false)
unfolding parse_basic_toggle_args
hostname_asked = refl

hostname_off-eq : hostname_main second_restart granted off_args [] quiet ≡ (ok 0, hostname_off)
unfolding hostname_main
hostname_off-eq = refl

hostname_main-switched_example : hostname_sending_enabled second_restart hostname_off ≡ false
hostname_main-switched_example =
    hostname_main-switched second_restart granted off_args [] false quiet hostname_off
      hostname_asked hostname_off-eq

abbrev call : List String → Str → ℕ × Str
call (action ∷ units) s =
    if action == "enable"
    then (0, codes "enabled")
    else if action == "mask"
    then (0, codes "masked")
    else (0, s)
call [] s = (0, s)

-- The state is what `is-enabled` prints.
abbrev printing : Cups.Systemctl
printing = record { State = Str; call = call; cups_status = λ s. s }

printing-IsLawful : Cups.IsLawful printing
printing-IsLawful = record {
  enable_law = λ s h. refl;
  mask_law = λ s h. refl;
  reload_law = λ s. refl;
}

cups_asked : parse_basic_toggle_args true off_args [] ≡ ok (Cups.mode_of false)
unfolding parse_basic_toggle_args
cups_asked = refl

cups_off-eq : cups_main printing granted off_args [] (codes "enabled") ≡ (ok 0, codes "masked")
unfolding cups_main
cups_off-eq = refl

cups_main-graded_example :
    (codes "masked" ≡ Cups.wanted false) × ((grade_cups (codes "masked")).graded.0 ≡ pass)
cups_main-graded_example =
    cups_main-graded printing printing-IsLawful granted off_args [] false (codes "enabled")
      (codes "masked") cups_asked cups_off-eq
