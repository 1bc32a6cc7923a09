-- ===== src/Toggles/Cups.antt =====
-- set_cups.py and inner/cups.py, over an interface for systemctl, and the check of the print services.
use secureblue.Base.{ℕ, suc, arith}
use secureblue.Base.{◌≡◌, refl, sym, ap, ◌∙◌, inl, inr}
use secureblue.Base.{Bool, true, false, if◌then◌else◌, Bool-cases}
use secureblue.Base.{List, [], ◌∷◌, ◌++◌, String}
use secureblue.Base.{◌==◌, nat_eq, string_eq, list_eq, list_beq}
use secureblue.Base.Exec.{Result, ok, err, Exec, ◌>>◌}
use secureblue.Base.{Str, codes}
use secureblue.Base.{list_beq_iff}
use secureblue.Base.Exec.{ok-injective, >>=-eq-ok}
use secureblue.Auditor.Status.{casefold, pass, warn}
use secureblue.Utils.Ask.{Entered, AskError}
use secureblue.Utils.Toggle.{
  ToggleMode, on, off, status, help, ToggleError, usage_error, asking, parse_basic_toggle_args,
}
use secureblue.Checks.Updates.{grade_cups}
use secureblue.Toggles.Host.{Grant, granted, refused}

-- systemctl on several units, with its exit status, and what `is-enabled cups.service` prints.
pub record Systemctl : Type 1 where
  pub State : Type 0
  pub call : List String → State → ℕ × State
  pub cups_status : State → Str

abbrev pub units : List String
units = "cups.service" ∷ "cups.socket" ∷ []

abbrev pub mask_units : List String
mask_units = units ++ ("avahi-daemon.service" ∷ "avahi-daemon.socket" ∷ [])

abbrev pub unmask_args : List String
unmask_args = "unmask" ∷ "--quiet" ∷ mask_units

abbrev pub enable_args : List String
enable_args = "enable" ∷ "--now" ∷ "--quiet" ∷ units

abbrev pub disable_args : List String
disable_args = "disable" ∷ "--now" ∷ "--quiet" ∷ units

abbrev pub mask_args : List String
mask_args = "mask" ∷ "--now" ∷ "--quiet" ∷ mask_units

abbrev pub reload_args : List String
reload_args = "daemon-reload" ∷ []

-- What the manual of systemctl promises of the calls that succeed.
pub record IsLawful (ctl : Systemctl) : Type 0 where
  pub enable_law :
      (s : ctl.State)
      → (ctl.call enable_args s).0 ≡ 0
      → ctl.cups_status (ctl.call enable_args s).1 ≡ codes "enabled"
  pub mask_law :
      (s : ctl.State)
      → (ctl.call mask_args s).0 ≡ 0
      → ctl.cups_status (ctl.call mask_args s).1 ≡ codes "masked"
  pub reload_law : (s : ctl.State) → ctl.cups_status (ctl.call reload_args s).1 ≡ ctl.cups_status s

module _ (ctl : Systemctl) where
  open ctl use {State, call, cups_status}

  -- `subprocess.run(…, check=True)`: a failure raises CalledProcessError.
  unfoldable pub check_call : List String → Exec State (Unit {0}) (Unit {0})
  check_call args s =
      let (code, after) = call args s in (if code == 0 then ok tt else err tt, after)

  unfoldable pub enable_units : Exec State (Unit {0}) (Unit {0})
  unfolding check_call
  enable_units = do check_call unmask_args; check_call enable_args; check_call reload_args

  unfoldable pub disable_units : Exec State (Unit {0}) (Unit {0})
  unfolding check_call
  disable_units = do check_call disable_args; check_call mask_args; check_call reload_args

  -- The exception is caught.
  unfoldable pub caught_code : Result (Unit {0}) (Unit {0}) × State → ℕ × State
  caught_code (ok a, s) = (0, s)
  caught_code (err e, s) = (1, s)

  unfoldable pub cups_mode : Str → State → ℕ × State
  unfolding caught_code enable_units disable_units list_beq
  cups_mode mode s =
      if mode == codes "on"
      then caught_code (enable_units s)
      else if mode == codes "off"
      then caught_code (disable_units s)
      else (1, s)

  unfoldable pub cups_worker : List Str → State → ℕ × State
  unfolding cups_mode casefold
  cups_worker (mode ∷ []) s = cups_mode (casefold mode) s
  cups_worker _ s = (1, s)

  unfoldable pub run_cups : Grant → List Str → State → ℕ × State
  unfolding cups_worker
  run_cups (refused code) args s = (suc code, s)
  run_cups granted args s = cups_worker args s

  unfoldable pub enable_cups : Grant → State → ℕ × State
  unfolding run_cups list_beq
  enable_cups grant s =
      if cups_status s == codes "enabled" then (0, s) else run_cups grant (codes "on" ∷ []) s

  unfoldable pub disable_cups : Grant → State → ℕ × State
  unfolding run_cups list_beq
  disable_cups grant s =
      if cups_status s == codes "masked" then (0, s) else run_cups grant (codes "off" ∷ []) s

  unfoldable pub cups_asked :
      Grant → Result ToggleError ToggleMode → State → Result AskError ℕ × State
  unfolding enable_cups disable_cups
  cups_asked grant (err (usage_error message)) s = (ok 2, s)
  cups_asked grant (err (asking e)) s = (err e, s)
  cups_asked grant (ok on) s = let (code, after) = enable_cups grant s in (ok code, after)
  cups_asked grant (ok off) s = let (code, after) = disable_cups grant s in (ok code, after)
  cups_asked grant (ok status) s = (ok 0, s)
  cups_asked grant (ok help) s = (ok 0, s)

  unfoldable pub cups_main : Grant → List Str → List Entered → State → Result AskError ℕ × State
  unfolding cups_asked parse_basic_toggle_args
  cups_main grant args entered s = cups_asked grant (parse_basic_toggle_args true args entered) s

abbrev pub wanted : Bool → Str
wanted true = codes "enabled"
wanted false = codes "masked"

abbrev pub mode_of : Bool → ToggleMode
mode_of true = on
mode_of false = off

module _ (ctl : Systemctl) (law : IsLawful ctl) where
  -- A sequence whose last call but one succeeds.
  check_call-ok :
      (args : List String) (s t : ctl.State)
      → check_call ctl args s ≡ (ok tt, t)
      → ((ctl.call args s).0 ≡ 0) × ((ctl.call args s).1 ≡ t)
  unfolding check_call
  check_call-ok args s t h = ground (arith, h)

  sequence-status :
      (first args : List String) (text : Str) (s t : ctl.State)
      → ((u : ctl.State) → (ctl.call args u).0 ≡ 0 → ctl.cups_status (ctl.call args u).1 ≡ text)
      → (do check_call ctl first; check_call ctl args; check_call ctl reload_args) s ≡ (ok tt, t)
      → ctl.cups_status t ≡ text
  sequence-status first args text s t effect h =
      let (a, s1, e1, h1) = >>=-eq-ok (check_call ctl first) _ s t tt h in
      let (b, s2, e2, h2) = >>=-eq-ok (check_call ctl args) _ s1 t tt h1 in
      let (code, at2) = check_call-ok args s1 s2 e2 in
      let (_, at3) = check_call-ok reload_args s2 t h2 in
      sym (ap ctl.cups_status at3)
      ∙ law.reload_law s2
      ∙ sym (ap ctl.cups_status at2)
      ∙ effect s1 code

  caught-zero :
      (m : Exec ctl.State (Unit {0}) (Unit {0})) (r : Result (Unit {0}) (Unit {0}))
      (s t after : ctl.State)
      → m s ≡ (r, t)
      → caught_code ctl (r, t) ≡ (0, after)
      → m s ≡ (ok tt, after)
  unfolding caught_code
  caught-zero m (ok tt) s t after e h = e ∙ ap (λ x. (ok tt, x)) (ap (λ x. x.1) h)
  caught-zero m (err x) s t after e h =
      let one : 1 ≡ 0 = ap (λ y. y.0) h in absurd (omega (arith, one))

  run_cups-status :
      (grant : Grant) (target : Bool) (s after : ctl.State)
      → run_cups ctl grant ((if target then codes "on" else codes "off") ∷ []) s ≡ (0, after)
      → ctl.cups_status after ≡ wanted target
  unfolding run_cups cups_worker cups_mode list_beq casefold
  run_cups-status (refused code) target s after h =
      let e : suc code ≡ 0 = ap (λ x. x.0) h in absurd (omega (arith, e))
  run_cups-status granted true s after h =
      sequence-status unmask_args enable_args (codes "enabled") s after law.enable_law (
        caught-zero (enable_units ctl) (enable_units ctl s).0 s (enable_units ctl s).1 after refl h)
  run_cups-status granted false s after h =
      sequence-status disable_args mask_args (codes "masked") s after law.mask_law (
        caught-zero (disable_units ctl) (disable_units ctl s).0 s (disable_units ctl s).1 after refl
          h)

  set_cups : Bool → Grant → ctl.State → ℕ × ctl.State
  set_cups true grant s = enable_cups ctl grant s
  set_cups false grant s = disable_cups ctl grant s

  set_cups-status :
      (target : Bool) (grant : Grant) (s after : ctl.State)
      → set_cups target grant s ≡ (0, after)
      → ctl.cups_status after ≡ wanted target
  unfolding set_cups enable_cups disable_cups
  set_cups-status true grant s after h = elim (Bool-cases (ctl.cups_status s == codes "enabled")) [
    | inl e ↦
        let kept = rw e at h in
        sym (ap (λ x. ctl.cups_status x.1) kept)
        ∙ (list_beq_iff (ctl.cups_status s) (codes "enabled")).0 e
    | inr ne ↦ let ran = rw ne at h in run_cups-status grant true s after ran
  ]
  set_cups-status false grant s after h = elim (Bool-cases (ctl.cups_status s == codes "masked")) [
    | inl e ↦
        let kept = rw e at h in
        sym (ap (λ x. ctl.cups_status x.1) kept)
        ∙ (list_beq_iff (ctl.cups_status s) (codes "masked")).0 e
    | inr ne ↦ let ran = rw ne at h in run_cups-status grant false s after ran
  ]

  asked-set :
      (grant : Grant) (r : Result ToggleError ToggleMode) (target : Bool) (s after : ctl.State)
      → r ≡ ok (mode_of target)
      → cups_asked ctl grant r s ≡ (ok 0, after)
      → set_cups target grant s ≡ (0, after)
  unfolding cups_asked set_cups
  asked-set grant r true s after e h =
      let ran = rw (e, cups_asked) at h in
      let code : (enable_cups ctl grant s).0 ≡ 0 = ok-injective _ _ (ap (λ x. x.0) ran) in
      ap (λ n. (n, (enable_cups ctl grant s).1)) code ∙ ap (λ a. (0, a)) (ap (λ x. x.1) ran)
  asked-set grant r false s after e h =
      let ran = rw (e, cups_asked) at h in
      let code : (disable_cups ctl grant s).0 ≡ 0 = ok-injective _ _ (ap (λ x. x.0) ran) in
      ap (λ n. (n, (disable_cups ctl grant s).1)) code ∙ ap (λ a. (0, a)) (ap (λ x. x.1) ran)

  grade_wanted :
      (target : Bool) → (grade_cups (wanted target)).graded.0 ≡ (if target then warn else pass)
  unfolding grade_cups
  grade_wanted true = refl
  grade_wanted false = refl

  -- Where set_cups.py is asked to enable or to disable the printing service, by its argument or by an
  -- answer, and ends with status 0, the service is enabled or masked as asked for; and the audit of the
  -- print services then starts from WARN if it is enabled, and from PASS if it is masked.
  pub cups_main-graded :
      (grant : Grant) (args : List Str) (entered : List Entered) (target : Bool)
      (s after : ctl.State)
      → parse_basic_toggle_args true args entered ≡ ok (mode_of target)
      → cups_main ctl grant args entered s ≡ (ok 0, after)
      → (ctl.cups_status after ≡ wanted target)
        × ((grade_cups (ctl.cups_status after)).graded.0 ≡ (if target then warn else pass))
  unfolding cups_main
  cups_main-graded grant args entered target s after asked h =
      let found =
        set_cups-status target grant s after
          (asked-set grant (parse_basic_toggle_args true args entered) target s after asked h) in
      (found, ap (λ x. (grade_cups x).graded.0) found ∙ grade_wanted target)
