-- ===== src/Toggles/SwitchLaws.antt =====
-- What a run of a script leaves, for any worker that keeps the law of a switch; and that the worker of
-- the webcam keeps it.
use secureblue.Base.{ℕ, arith}
use secureblue.Base.{◌≡◌, refl, sym, ap, ◌∙◌, inl, inr}
use secureblue.Base.{Bool, true, false, not, ◌||◌, Bool-cases}
use secureblue.Base.{Option, none, some, List, [], ◌∷◌, String}
use secureblue.Base.{◌==◌, nat_eq, string_eq, list_eq, list_beq, beq_self}
use secureblue.Base.Dict
use secureblue.Base.Dict.{Dict}
use secureblue.Base.Exec.{Result, ok, err}
use secureblue.Base.{Str, codes}
use secureblue.Base.Dict.{lookup-insert, lookup-erase}
use mathlib.Core.Option.{some-injective}
use secureblue.Base.{Option-cases}
use secureblue.Base.Exec.{ok-injective}
use secureblue.Utils.Ask.{AskError}
use secureblue.Dns.World.{ConfFile}
use secureblue.Toggles.Host.{
  Host, file_not_found, Worker, file_exists, write_file, remove_file, Grant, granted, refused,
  run_sandboxed, same, mode_text, worker_status,
}
use secureblue.Toggles.Modprobe.{
  run_mode, run_read, on_off, webcam_worker, webcam_on, webcam_off, webcam_mod_file,
  webcam_mod_text,
}

-- What is switched, and the worker that does it.
pub record Switch (Units : Type 0) : Type 0 where
  pub is_on : Host Units → Bool
  pub worker : List Str → Worker Units

-- Where the worker ends with status 0, the switch is as asked.
pub record IsSwitch {Units : Type 0} (switch : Switch Units) : Type 0 where
  pub set_law :
      (target : Bool) (host : Host Units)
      → worker_status (switch.worker (mode_text target ∷ []) host).0 ≡ 0
      → switch.is_on (switch.worker (mode_text target ∷ []) host).1 ≡ target

pub same-eq : (a b : Bool) → same a b ≡ true → b ≡ a
same-eq a b h = ground arith

pub ne-same : (a b : Bool) → same a b ≡ false → b ≡ a → ⊥
ne-same a b h e = ground (arith, h, e)

pub mode_is : (target : Bool) → (mode_text target == codes "on") ≡ target
mode_is true = unfold list_beq in refl
mode_is false = unfold list_beq in refl

pub is_mode :
    (target : Bool) → (mode_text target == codes "on" || mode_text target == codes "off") ≡ true
is_mode true = unfold list_beq in refl
is_mode false = unfold list_beq in refl

module _ {Units : Type 0} (switch : Switch Units) (law : IsSwitch switch) where
  -- What a run leaves: with status 0 the switch is as asked; a switch that is as asked is not touched;
  -- and where run0 refuses, the status is not 0 and nothing is changed.
  abbrev pub Leaves : Bool → Grant → Host Units → ℕ × Host Units → Type 0
  Leaves target grant host (code, after) =
      (code ≡ 0 → switch.is_on after ≡ target)
      × (switch.is_on host ≡ target → (code ≡ 0) × (after ≡ host))

  pub sandboxed-Leaves :
      (target : Bool) (grant : Grant) (host : Host Units)
      → same target (switch.is_on host) ≡ false
      → Leaves target grant host (run_sandboxed grant (switch.worker (mode_text target ∷ [])) host)
  unfolding run_sandboxed
  sandboxed-Leaves target granted host ne =
      (λ zero_code. law.set_law target host zero_code, λ e. absurd (ne-same _ _ ne e))
  sandboxed-Leaves target (refused code) host ne =
      (λ zero_code. absurd (omega (arith, zero_code)), λ e. absurd (ne-same _ _ ne e))

  run_mode-Leaves :
      (target : Bool) (grant : Grant) (host : Host Units)
      → Leaves target grant host
          (run_mode grant (switch.is_on host) switch.worker (mode_text target) host)
  unfolding run_mode
  run_mode-Leaves target grant host =
      rw (is_mode target, mode_is target)
        (elim (Bool-cases (same target (switch.is_on host))) [
          | inl e ↦ rw e (λ _. same-eq _ _ e, λ _. (refl, refl))
          | inr ne ↦ rw ne (sandboxed-Leaves target grant host ne)
        ])

  run_read-status :
      (r : Result AskError (Option Str)) (target : Bool) (grant : Grant) (host after : Host Units)
      → r ≡ ok (some (mode_text target))
      → run_read grant (switch.is_on host) switch.worker r host ≡ (ok 0, after)
      → run_mode grant (switch.is_on host) switch.worker (mode_text target) host ≡ (0, after)
  unfolding run_read
  run_read-status (err e) target grant host after h k = cc
  run_read-status (ok none) target grant host after h k = cc
  run_read-status (ok (some mode)) target grant host after h k =
      let same_mode : mode ≡ mode_text target = some-injective _ _ (ok-injective _ _ h) in
      let out = run_mode grant (switch.is_on host) switch.worker mode host in
      let code : out.0 ≡ 0 = ok-injective _ _ (ap (λ x. x.0) k) in
      ap (λ m. run_mode grant (switch.is_on host) switch.worker m host) (sym same_mode)
      ∙ ap (λ n. (n, out.1)) code
      ∙ ap (λ a. (0, a)) (ap (λ x. x.1) k)

  -- A run that was asked for a mode and ends with status 0 leaves the switch as asked.
  pub run_read-switched :
      (r : Result AskError (Option Str)) (target : Bool) (grant : Grant) (host after : Host Units)
      → r ≡ ok (some (mode_text target))
      → run_read grant (switch.is_on host) switch.worker r host ≡ (ok 0, after)
      → switch.is_on after ≡ target
  run_read-switched r target grant host after h k =
      let e = run_read-status r target grant host after h k in
      let left = (run_mode-Leaves target grant host).0 in
      sym (ap (λ x. switch.is_on x.1) e) ∙ left (ap (λ x. x.0) e)

module _ {Units : Type 0} where
  pub file_exists-write :
      (path : String) (text : Str) (host : Host Units)
      → file_exists path (write_file path text host).1 ≡ true
  unfolding file_exists write_file
  file_exists-write path text host =
      let written : ConfFile = record { content = text; mode = 0o644 } in
      rw (file_exists, lookup-insert path path written host.files, beq_self path) refl

  unfoldable pub erased : String → Host Units → Host Units
  erased path host = record host { files = Dict.erase path host.files }

  pub file_exists-erased :
      (path : String) (host : Host Units) → file_exists path (erased path host) ≡ false
  unfolding file_exists erased
  file_exists-erased path host =
      rw (file_exists, lookup-erase path path host.files, beq_self path) refl

  pub remove_missing :
      (path : String) (host : Host Units)
      → Dict.lookup path host.files ≡ none
      → remove_file path host ≡ (err file_not_found, host)
  unfolding remove_file file_exists
  remove_missing path host e = rw (e, remove_file, file_exists) refl

  pub remove_there :
      (path : String) (host : Host Units) (f : ConfFile)
      → Dict.lookup path host.files ≡ some f
      → remove_file path host ≡ (ok tt, erased path host)
  unfolding remove_file file_exists erased
  remove_there path host f e = rw (e, remove_file, file_exists) refl

  webcam_on_law :
      (host : Host Units)
      → worker_status (webcam_on host).0 ≡ 0
      → not (file_exists webcam_mod_file (webcam_on host).1) ≡ true
  unfolding webcam_on worker_status
  webcam_on_law host h = elim (Option-cases (Dict.lookup webcam_mod_file host.files)) [
    | inl e ↦
        let failed = rw (remove_missing webcam_mod_file host e) at h in
        absurd (omega (arith, failed))
    | inr (f, e) ↦
        rw (remove_there webcam_mod_file host f e, file_exists-erased webcam_mod_file host) refl
  ]

  webcam_law :
      (target : Bool) (host : Host Units)
      → worker_status (webcam_worker (mode_text target ∷ []) host).0 ≡ 0
      → not (file_exists webcam_mod_file (webcam_worker (mode_text target ∷ []) host).1) ≡ target
  unfolding webcam_worker on_off list_beq
  webcam_law true host h = webcam_on_law host h
  webcam_law false host h =
      unfold webcam_off in ap not (file_exists-write webcam_mod_file webcam_mod_text host)

  unfoldable pub webcam_switch : Switch Units
  webcam_switch = record {
    is_on = λ host. not (file_exists webcam_mod_file host);
    worker = webcam_worker;
  }

  pub webcam-IsSwitch : IsSwitch webcam_switch
  unfolding webcam_switch webcam_worker list_beq
  webcam-IsSwitch = record { set_law = λ target host h. webcam_law target host h }
