-- ===== src/Toggles/UsernsSet.antt =====
-- What the scripts for user namespaces leave.
use secureblue.Base.{suc, arith}
use secureblue.Base.{◌≡◌, refl, sym, ap, ◌∙◌, ◌⊎◌, inl, inr}
use secureblue.Base.{Bool, true, false, not}
use secureblue.Base.{Option, none, some, List, [], ◌∷◌}
use secureblue.Base.{nat_eq, string_eq, list_eq, list_beq}
use secureblue.Base.Exec.{Result, ok, err}
use secureblue.Base.{Str, codes}
use mathlib.Core.Path.{subst}
use secureblue.Base.Exec.{ok-injective}
use secureblue.Utils.Ask.{Entered, AskError, ask_yes_no}
use secureblue.Utils.Toggle.{ToggleMode, on, off, ToggleError, parse_basic_toggle_args}
use secureblue.Toggles.Host.{Grant, granted, refused}
use secureblue.Toggles.Userns.{
  Semodule, IsLawful, container_userns_module, unconfined_userns_module, module_mode, entered_after,
  Ended, set_module, set_selinux_module, run_semodule, enabled_by, userns_enabled, enable_userns,
  disable_unconfined_userns, stop_containers, proceed, after_stop, disable_container_userns,
  run_container, run_unconfined, main_with, container_main, unconfined_main,
}

abbrev pub mode_of : Bool → ToggleMode
mode_of true = on
mode_of false = off

abbrev argument : Bool → Str
argument true = codes "enable"
argument false = codes "disable"

module _ (se : Semodule) (law : IsLawful se) where
  enabled-has :
      (listing : Option (List Str)) (name : Str) (s : se.State)
      → se.listed s ≡ listing
      → enabled_by listing (se.unshares name s) name ≡ not (se.has_module name s)
  unfolding enabled_by
  enabled-has none name s e = law.unshare_law name s
  enabled-has (some ls) name s e = ap not (law.listed_law name s ls e)

  -- The script sees the state of the module, with the list or without it.
  userns_enabled-has :
      (name : Str) (s : se.State) → userns_enabled se name s ≡ not (se.has_module name s)
  unfolding userns_enabled
  userns_enabled-has name s = enabled-has (se.listed s) name s refl

  run_semodule-has :
      (grant : Grant) (enable : Bool) (name : Str) (s after : se.State)
      → run_semodule se grant (argument enable ∷ name ∷ []) s ≡ (ok 0, after)
      → se.has_module name after ≡ enable
  unfolding run_semodule set_selinux_module set_module module_mode list_beq
  run_semodule-has (refused code) enable name s after e =
      let zero_code : suc code ≡ 0 = ok-injective _ _ (ap (λ x. x.0) e) in
      absurd (omega (arith, zero_code))
  run_semodule-has granted true name s after e =
      subst (λ t. se.has_module name t ≡ true) (ap (λ x. x.1) e)
        (law.set_law true name s (ok-injective _ _ (ap (λ x. x.0) e)))
  run_semodule-has granted false name s after e =
      subst (λ t. se.has_module name t ≡ false) (ap (λ x. x.1) e)
        (law.set_law false name s (ok-injective _ _ (ap (λ x. x.0) e)))

  enable-has :
      (name : Str) (grant : Grant) (enabled : Bool) (s after : se.State)
      → userns_enabled se name s ≡ enabled
      → enable_userns se name grant enabled s ≡ (ok 0, after)
      → userns_enabled se name after ≡ true
  unfolding enable_userns
  enable-has name grant true s after now e =
      subst (λ t. userns_enabled se name t ≡ true) (ap (λ x. x.1) e) now
  enable-has name grant false s after now e =
      userns_enabled-has name after ∙ ap not (run_semodule-has grant false name s after e)

  unconfined-has :
      (grant : Grant) (enabled : Bool) (s after : se.State)
      → userns_enabled se unconfined_userns_module s ≡ enabled
      → disable_unconfined_userns se grant enabled s ≡ (ok 0, after)
      → userns_enabled se unconfined_userns_module after ≡ false
  unfolding disable_unconfined_userns
  unconfined-has grant false s after now e =
      subst (λ t. userns_enabled se unconfined_userns_module t ≡ false) (ap (λ x. x.1) e) now
  unconfined-has grant true s after now e =
      userns_enabled-has unconfined_userns_module after
      ∙ ap not (run_semodule-has grant true unconfined_userns_module s after e)

  main-run :
      (run : ToggleMode → List Entered → se.State → Ended se) (r : Result ToggleError ToggleMode)
      (mode : ToggleMode) (entered : List Entered) (s : se.State)
      → r ≡ ok mode
      → main_with se run r entered s ≡ run mode entered s
  unfolding main_with
  main-run run r mode entered s e = rw (e, main_with) refl

  -- Where set_unconfined_userns.py is asked to allow or to forbid user namespaces, by its argument or by
  -- an answer, and ends with status 0, it afterwards sees them as asked for. This takes the list of
  -- semodule, or else the test command, to tell the state of the module.
  pub unconfined_main-switched :
      (grant : Grant) (args : List Str) (entered : List Entered) (target : Bool)
      (s after : se.State)
      → parse_basic_toggle_args true args entered ≡ ok (mode_of target)
      → unconfined_main se grant args entered s ≡ (ok 0, after)
      → userns_enabled se unconfined_userns_module after ≡ target
  unfolding unconfined_main run_unconfined
  unconfined_main-switched grant args entered true s after asked e =
      let run = run_unconfined se grant in
      enable-has unconfined_userns_module grant (userns_enabled se unconfined_userns_module s) s
        after refl (sym (main-run run _ on (entered_after args entered) s asked) ∙ e)
  unconfined_main-switched grant args entered false s after asked e =
      let run = run_unconfined se grant in
      unconfined-has grant (userns_enabled se unconfined_userns_module s) s after refl
        (sym (main-run run _ off (entered_after args entered) s asked) ∙ e)

  -- Switched; or allowed and to be forbidden, the user has declined, and nothing is changed.
  abbrev pub SwitchedOrDeclined : Bool → List Entered → se.State → se.State → Type 0
  SwitchedOrDeclined target entered s after =
      (userns_enabled se container_userns_module after ≡ target)
      ⊎ ((target ≡ false)
          × (userns_enabled se container_userns_module s ≡ true)
          × ((ask_yes_no entered).0 ≡ ok false)
          × (after ≡ s))

  -- The answer to the warning, told from what the script makes of it.
  proceed-declined :
      (r : Result AskError Bool) (stopped : Bool)
      → proceed r stopped ≡ ok (some false)
      → r ≡ ok false
  unfolding proceed
  proceed-declined (err e) stopped h = cc
  proceed-declined (ok false) stopped h = refl
  proceed-declined (ok true) true h = ground (arith, h)
  proceed-declined (ok true) false h = ground (arith, h)

  after_stop-SwitchedOrDeclined :
      (grant : Grant) (r : Result AskError (Option Bool)) (entered : List Entered)
      (s after : se.State)
      → userns_enabled se container_userns_module s ≡ true
      → r ≡ stop_containers se entered s
      → after_stop se grant r s ≡ (ok 0, after)
      → SwitchedOrDeclined false entered s after
  unfolding after_stop stop_containers
  after_stop-SwitchedOrDeclined grant (err x) entered s after now r e = cc
  after_stop-SwitchedOrDeclined grant (ok none) entered s after now r e =
      let one : 1 ≡ 0 = ok-injective _ _ (ap (λ x. x.0) e) in absurd (omega (arith, one))
  after_stop-SwitchedOrDeclined grant (ok (some false)) entered s after now r e = inr (
    refl,
    now,
    proceed-declined (ask_yes_no entered).0 (se.stops s) (sym r),
    sym (ap (λ x. x.1) e),
  )
  after_stop-SwitchedOrDeclined grant (ok (some true)) entered s after now r e = inl (
      userns_enabled-has container_userns_module after
      ∙ ap not (run_semodule-has grant true container_userns_module s after e))

  disable-SwitchedOrDeclined :
      (grant : Grant) (enabled : Bool) (entered : List Entered) (s after : se.State)
      → userns_enabled se container_userns_module s ≡ enabled
      → disable_container_userns se grant enabled entered s ≡ (ok 0, after)
      → SwitchedOrDeclined false entered s after
  unfolding disable_container_userns
  disable-SwitchedOrDeclined grant false entered s after now e =
      inl (subst (λ t. userns_enabled se container_userns_module t ≡ false) (ap (λ x. x.1) e) now)
  disable-SwitchedOrDeclined grant true entered s after now e =
      after_stop-SwitchedOrDeclined grant (stop_containers se entered s) entered s after now refl e

  -- Where set_container_userns.py is asked to allow or to forbid user namespaces, by its argument or by
  -- an answer, and ends with status 0, it afterwards sees them as asked for; or they were allowed and
  -- to be forbidden, the user has declined to stop the containers, and nothing is changed. This takes
  -- the list of semodule, or else the test command, to tell the state of the module.
  pub container_main-switched :
      (grant : Grant) (args : List Str) (entered : List Entered) (target : Bool)
      (s after : se.State)
      → parse_basic_toggle_args true args entered ≡ ok (mode_of target)
      → container_main se grant args entered s ≡ (ok 0, after)
      → SwitchedOrDeclined target (entered_after args entered) s after
  unfolding container_main run_container
  container_main-switched grant args entered true s after asked e =
      let run = run_container se grant in
      inl (
        enable-has container_userns_module grant (userns_enabled se container_userns_module s) s
          after refl (sym (main-run run _ on (entered_after args entered) s asked) ∙ e))
  container_main-switched grant args entered false s after asked e =
      let run = run_container se grant in
      disable-SwitchedOrDeclined grant (userns_enabled se container_userns_module s)
        (entered_after args entered) s after refl
        (sym (main-run run _ off (entered_after args entered) s asked) ∙ e)
