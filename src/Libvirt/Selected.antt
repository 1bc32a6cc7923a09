-- ===== src/Libvirt/Selected.antt =====
-- What a toggle of the daemons of libvirt leaves enabled.
use secureblue.Base.{arith}
use secureblue.Base.{◌≡◌, refl, sym, ap, ◌∙◌, inl, inr}
use secureblue.Base.{Bool, true, false, not, ◌&&◌, ◌||◌, Bool-cases}
use secureblue.Base.{Option, some, List, [], ◌∷◌, map}
use secureblue.Base.{◌==◌, nat_eq, string_eq, list_eq, contains}
use secureblue.Base.{any, keep}
use secureblue.Base.Exec.{Result, ok, when}
use secureblue.Base.{Str, codes}
use secureblue.Base.Exec.{>>=-eq-ok}
use secureblue.Libvirt.Daemons.{
  Daemon, all_daemons, Selection, daemon_eq, socket, LibvirtUnit, modular, daemons, units_of,
  enabled_units, disabled_units, LibvirtError, Systemctl, enabled_lines, enable_systemd_units,
  disable_systemd_units, current_status, differs, toggle_to, apply_selection, toggle, checked,
}
use secureblue.Libvirt.Units.{
  has_socket, is_of, has_socket-enabled_units, has_socket-disabled_units, belongs-enabled_units,
  belongs-disabled_units, any-all_daemons, differs-all, contains-daemons,
}

-- What the manual of systemctl promises of the main sockets: one line for each unit, "enabled" for one
-- that is, and the effect of a call that succeeds. `pulls` tells of which main sockets a unit file is
-- installed and removed along with, by the `Also=` of its [Install] section.
pub record IsLawful (sys : Systemctl) : Type 0 where
  pub pulls : LibvirtUnit → Daemon → Bool
  pub is_enabled_law :
      (ds : List Daemon) (s : sys.State)
      → map (λ line. line == codes "enabled") (sys.is_enabled (map (λ d. modular d socket) ds) s).0
        ≡ map (λ d. sys.is_on (modular d socket) s) ds
  pub enable_law :
      (us : List LibvirtUnit) (s : sys.State) (d : Daemon)
      → (sys.run_enable us s).0 ≡ true
      → sys.is_on (modular d socket) (sys.run_enable us s).1
        ≡ ((has_socket d us || any (λ u. pulls u d) us) || sys.is_on (modular d socket) s)
  pub disable_law :
      (us : List LibvirtUnit) (s : sys.State) (d : Daemon)
      → (sys.run_disable us s).0 ≡ true
      → sys.is_on (modular d socket) (sys.run_disable us s).1
        ≡ (not (has_socket d us || any (λ u. pulls u d) us) && sys.is_on (modular d socket) s)

abbrev lines_on : List Str → List Bool
lines_on lines = map (λ line. line == codes "enabled") lines

abbrev tail_of : List Bool → List Bool
tail_of [] = []
tail_of (b ∷ bs) = bs

abbrev head_of : List Bool → Bool
head_of [] = false
head_of (b ∷ bs) = b

enabled_lines-keep :
    (p : Daemon → Bool) (ds : List Daemon) (lines : List Str)
    → lines_on lines ≡ map p ds
    → enabled_lines ds lines ≡ some (keep p ds)
unfolding enabled_lines keep
enabled_lines-keep p [] [] h = refl
enabled_lines-keep p [] (l ∷ lines) h = ground (arith, h)
enabled_lines-keep p (d ∷ ds) [] h = ground (arith, h)
enabled_lines-keep p (d ∷ ds) (l ∷ lines) h =
    let ih = enabled_lines-keep p ds lines (ap tail_of h) in
    let head : (l == codes "enabled") ≡ p d = ap head_of h in rw (ih, head) refl

module _ (sys : Systemctl) (law : IsLawful sys) where
  abbrev pub on : sys.State → Selection
  on s d = sys.is_on (modular d socket) s

  -- No other daemon's unit is enabled and disabled together with the main socket of this one.
  abbrev pub Own : Daemon → Type 0
  Own d = (u : LibvirtUnit) → law.pulls u d ≡ true → is_of d u ≡ true

  pulled-belongs :
      (d : Daemon) (us : List LibvirtUnit)
      → Own d
      → any (λ u. law.pulls u d) us ≡ true
      → any (is_of d) us ≡ true
  unfolding any
  pulled-belongs d [] own h = h
  pulled-belongs d (u ∷ us) own h = elim (Bool-cases (law.pulls u d)) [
    | inl e ↦ ground (arith, own u e)
    | inr e ↦ ground (arith, h, e, pulled-belongs d us own)
  ]

  reached-enabled :
      (selection : Selection) (d : Daemon)
      → Own d
      → (has_socket d (enabled_units selection)
          || any (λ u. law.pulls u d) (enabled_units selection))
        ≡ selection d
  reached-enabled selection d own =
      elim (Bool-cases (any (λ u. law.pulls u d) (enabled_units selection))) [
        | inl e ↦
            let chosen =
              belongs-enabled_units selection d
                (pulled-belongs d (enabled_units selection) own e) in
            rw (has_socket-enabled_units selection d, chosen) refl
        | inr e ↦ rw (has_socket-enabled_units selection d, e) (ground arith)
      ]

  reached-disabled :
      (selection : Selection) (d : Daemon)
      → Own d
      → (has_socket d (disabled_units selection)
          || any (λ u. law.pulls u d) (disabled_units selection))
        ≡ not (selection d)
  reached-disabled selection d own =
      elim (Bool-cases (any (λ u. law.pulls u d) (disabled_units selection))) [
        | inl e ↦
            let dropped =
              belongs-disabled_units selection d
                (pulled-belongs d (disabled_units selection) own e) in
            rw (has_socket-disabled_units selection d, dropped) refl
        | inr e ↦ rw (has_socket-disabled_units selection d, e) (ground arith)
      ]

  checked-ok :
      (r : Bool × sys.State) (t : sys.State) → checked sys r ≡ (ok tt, t) → (r.0 ≡ true) × (r.1 ≡ t)
  checked-ok (true, s) t h = (refl, ap (λ (x : Result LibvirtError (Unit {0}) × sys.State). x.1) h)
  checked-ok (false, s) t h = ground (arith, h)

  same_state :
      (s t : sys.State)
      → ◌≡◌ {A = Result LibvirtError (Unit {0}) × sys.State} (ok tt, s) (ok tt, t)
      → s ≡ t
  same_state s t h = ap (λ (x : Result LibvirtError (Unit {0}) × sys.State). x.1) h

  enable-on :
      (wanted : Bool) (selection : Selection) (s t : sys.State) (d : Daemon)
      → Own d
      → (wanted ≡ false → selection d ≡ false)
      → when wanted (enable_systemd_units sys (enabled_units selection)) s ≡ (ok tt, t)
      → on t d ≡ (selection d || on s d)
  unfolding enable_systemd_units
  enable-on true selection s t d own none_wanted h =
      let (fine, e) = checked-ok (sys.run_enable (enabled_units selection) s) t h in
      ap (λ x. on x d) (sym e)
      ∙ law.enable_law (enabled_units selection) s d fine
      ∙ rw (reached-enabled selection d own) refl
  enable-on false selection s t d own none_wanted h =
      ap (λ x. on x d) (sym (same_state s t h)) ∙ ground (arith, none_wanted refl)

  disable-on :
      (wanted : Bool) (selection : Selection) (s t : sys.State) (d : Daemon)
      → Own d
      → (wanted ≡ false → selection d ≡ true)
      → when wanted (disable_systemd_units sys (disabled_units selection)) s ≡ (ok tt, t)
      → on t d ≡ (selection d && on s d)
  unfolding disable_systemd_units
  disable-on true selection s t d own none_wanted h =
      let (fine, e) = checked-ok (sys.run_disable (disabled_units selection) s) t h in
      ap (λ x. on x d) (sym e)
      ∙ law.disable_law (disabled_units selection) s d fine
      ∙ rw (reached-disabled selection d own) (ground arith)
  disable-on false selection s t d own none_wanted h =
      ap (λ x. on x d) (sym (same_state s t h)) ∙ ground (arith, none_wanted refl)

  -- When a choice of daemons is applied to the current selection without an error, the main socket of
  -- a daemon that no other daemon's unit pulls in is enabled afterwards exactly if it was chosen.
  pub toggle_to-on :
      (selected : Selection) (s t : sys.State) (d : Daemon)
      → Own d
      → toggle_to sys (on s) selected s ≡ (ok tt, t)
      → on t d ≡ selected d
  unfolding toggle_to
  toggle_to-on selected s t d own h =
      let newly_enabled : Selection = λ e. selected e && not (on s e) in
      let newly_disabled : Selection = λ e. on s e && not (selected e) in
      let (x, u, first, second) =
        >>=-eq-ok
          (when (any newly_enabled all_daemons)
            (enable_systemd_units sys (enabled_units newly_enabled)))
          _ s t tt h in
      let after_first =
        enable-on (any newly_enabled all_daemons) newly_enabled s u d own
          (any-all_daemons newly_enabled d) first in
      let kept : Selection = λ e. not (newly_disabled e) in
      let after_second =
        disable-on (any newly_disabled all_daemons) kept u t d own
          (λ e. ground (arith, any-all_daemons newly_disabled d e)) second in
      ground (arith, after_first, after_second)

  -- Reading the lines of systemctl gives the daemons whose main socket is enabled.
  current_status-on : (s : sys.State) → current_status sys s ≡ (ok (daemons (on s)), s)
  unfolding current_status units_of daemons keep
  current_status-on s =
      rw (enabled_lines-keep (on s) all_daemons _ (law.is_enabled_law all_daemons s)) refl

  on_current : (s : sys.State) → ◌≡◌ {A = Selection} (contains (daemons (on s))) (on s)
  on_current s = λ i d. contains-daemons (on s) d i

  apply_selection-on :
      (current selected : Selection) (s t : sys.State) (d : Daemon)
      → Own d
      → current ≡ on s
      → apply_selection sys current (some selected) s ≡ (ok tt, t)
      → on t d ≡ selected d
  unfolding apply_selection
  apply_selection-on current selected s t d own c h = elim (Bool-cases (differs selected current)) [
    | inl e ↦ toggle_to-on selected s t d own (rw (e, c) at h)
    | inr e ↦
        ap (λ x. on x d) (sym (same_state s t (rw e at h)))
        ∙ ap (λ (x : Selection). x d) (sym c)
        ∙ sym (differs-all selected current d e)
  ]

  -- When the user chooses a selection and the toggle ends without an error, the main socket of a daemon
  -- is enabled afterwards exactly if the daemon was chosen; this is so of each daemon whose main socket
  -- no unit of another daemon names in the `Also=` of its [Install] section.
  pub toggle-on :
      (choice : Selection → Option Selection) (selected : Selection) (s t : sys.State) (d : Daemon)
      → Own d
      → choice (on s) ≡ some selected
      → toggle sys choice s ≡ (ok tt, t)
      → on t d ≡ selected d
  unfolding toggle
  toggle-on choice selected s t d own c h =
      let now : Selection = contains (daemons (on s)) in
      let g : apply_selection sys now (choice now) s ≡ (ok tt, t) = rw (current_status-on s) at h in
      let chosen : choice now ≡ some selected = ap choice (on_current s) ∙ c in
      apply_selection-on now selected s t d own (on_current s) (rw chosen at g)
