-- ===== src/Dns/Restart.antt =====
-- Which runs of the DNS worker leave NetworkManager running.
use secureblue.Base.{ℕ, arith}
use secureblue.Base.{◌≡◌, refl, sym, ap, ◌∙◌, ◌≢◌, ◌⊎◌, inl, inr}
use secureblue.Base.{Bool, true, false, not, if◌then◌else◌, Bool-cases}
use secureblue.Base.{Option, [], String}
use secureblue.Base.{nat_eq, string_eq, list_eq}
use secureblue.Base.Exec.{Result, ok, Exec, pure, gets, ◌>>=◌, >>=-eq-ok}
use mathlib.Core.Path.{subst}
use secureblue.Base.{Str}
use secureblue.Systemd.{Systemctl, stop, start}
use secureblue.Dns.World.{World, Exit, act}
use secureblue.Dns.Settings.{set_global_nm_servers, set_trivalent_doh_endpoint, set_dnssec_enabled}
use secureblue.Dns.Worker.{
  DnsResolver, is_unbound, unbound, service, network_manager, Command, reset,
}
use secureblue.Dns.Worker.{set_dnssec, set_global, set_resolver_to, set_trivalent_doh, get_current}
use secureblue.Dns.Worker.{set_resolver, configure, restart, reconfigure, main}
use secureblue.Dns.Actions.{
  act-gives, StopsOnly, get_current-kept_manager, get_current-kept_service,
}
use secureblue.Dns.Actions.{Ends, Ends-last}

module _ {U : Type 0} where
  -- What a configuration that returns answers.
  abbrev Answers : Bool → Exec (World U) Exit Bool → Type 0
  Answers b m = (w t : World U) (r : Bool) → m w ≡ (ok r, t) → r ≡ b

  Answers-pure : (b : Bool) → Answers b (pure b)
  Answers-pure b w t r e = cc

  Answers-last :
      {A : Type 0} (b : Bool) (m : Exec (World U) Exit A) (f : A → Exec (World U) Exit Bool)
      → ((a : A) → Answers b (f a))
      → Answers b (m >>= f)
  Answers-last b m f h w t r e = let (a, s, _, g) = >>=-eq-ok m f w t r e in h a s t r g

module _ (ctl : Systemctl) (uid : Option ℕ) where
  -- The branch of `set-global` that returns early.
  unfoldable pub returns_early : Command → World ctl.Units → Bool
  returns_early (set_global s d u) w = not (is_unbound (get_current ctl uid w))
  returns_early reset w = false
  returns_early (set_dnssec d) w = false
  returns_early (set_resolver_to r) w = false
  returns_early (set_trivalent_doh u) w = false

-- When `systemctl start` of NetworkManager succeeds, NetworkManager is active.
pub record StartsManager (ctl : Systemctl) : Type 0 where
  pub start_manager :
      (s : ctl.Units)
      → (ctl.call start network_manager s).0 ≡ 0
      → ctl.is_active network_manager (ctl.call start network_manager s).1 ≡ true

module _ (ctl : Systemctl) (law : StopsOnly ctl) (starts : StartsManager ctl) (uid : Option ℕ) where
  abbrev Active : String → Bool → ctl.Units → Type 0
  Active unit b s = ctl.is_active unit s ≡ b

  Ends-start : Ends (Active network_manager true) (act ctl network_manager start)
  Ends-start w t a e =
      ap (λ (r : Result Exit (Unit {0}) × World ctl.Units). ctl.is_active network_manager r.1.units)
        (sym e)
      ∙ act-gives ctl network_manager start (Active network_manager true) starts.start_manager w
          (ap (λ (r : Result Exit (Unit {0}) × World ctl.Units). r.0) e)

  restart-Ends : Ends (Active network_manager true) (restart ctl uid)
  unfolding restart
  restart-Ends =
      let P = Active network_manager true in
      Ends-last P (gets (get_current ctl uid)) _
        (λ current. Ends-last P (act ctl (service current) start) _ (λ _. Ends-start))

  abbrev Answer : Command → Type 0
  Answer command =
      (s s' : World ctl.Units) (r : Bool)
      → configure ctl uid command s ≡ (ok r, s')
      → (r ≡ returns_early ctl uid command s) × (returns_early ctl uid command s ≡ true → s' ≡ s)

  from_false :
      (command : Command)
      → ((s : World ctl.Units) → returns_early ctl uid command s ≡ false)
      → Answers false (configure ctl uid command)
      → Answer command
  from_false command never answers s s' r e = ground (arith, never s, answers s s' r e)

  configure-Answer : (command : Command) → Answer command
  unfolding configure returns_early
  configure-Answer reset =
      from_false reset (λ _. refl)
        (Answers-last false (set_resolver ctl uid unbound) _ (λ _.
          Answers-last false (set_global_nm_servers []) _ (λ _.
            Answers-last false (set_dnssec_enabled false) _ (λ _.
              Answers-last false (set_trivalent_doh_endpoint []) _ (λ _. Answers-pure false)))))
  configure-Answer (set_dnssec d) =
      from_false (set_dnssec d) (λ _. refl)
        (Answers-last false (set_resolver ctl uid unbound) _
          (λ _. Answers-last false (set_dnssec_enabled d) _ (λ _. Answers-pure false)))
  configure-Answer (set_global servers d u) = λ s s' r e.
      elim (Bool-cases (is_unbound (get_current ctl uid s))) [
        | inl it_is ↦
            let go = rw it_is at e in
            let answer =
              Answers-last false (set_global_nm_servers servers) _
                (λ _. Answers-last false (set_dnssec_enabled d) _ (λ _.
                  Answers-last false (set_trivalent_doh_endpoint u) _ (λ _. Answers-pure false)))
                s s' r go in
            ground (arith, it_is, answer)
        | inr not_so ↦ let stop_here = rw not_so at e in ground (arith, not_so, stop_here)
      ]
  configure-Answer (set_resolver_to r) =
      from_false (set_resolver_to r) (λ _. refl)
        (Answers-last false (set_global_nm_servers []) _ (λ _.
          Answers-last false (set_dnssec_enabled false) _
            (λ _. Answers-last false (set_resolver ctl uid r) _ (λ _. Answers-pure false))))
  configure-Answer (set_trivalent_doh u) =
      from_false (set_trivalent_doh u) (λ _. refl) (Answers-pure false)

  returns_early-current :
      (command : Command) (w w' : World ctl.Units)
      → get_current ctl uid w' ≡ get_current ctl uid w
      → returns_early ctl uid command w' ≡ returns_early ctl uid command w
  unfolding returns_early
  returns_early-current reset w w' h = refl
  returns_early-current (set_dnssec d) w w' h = refl
  returns_early-current (set_global s d u) w w' h = ap (λ r. not (is_unbound r)) h
  returns_early-current (set_resolver_to r) w w' h = refl
  returns_early-current (set_trivalent_doh u) w w' h = refl

  -- What the worker has done before it configures anything: NetworkManager and the current resolver
  -- are stopped.
  abbrev pub stopped : World ctl.Units → World ctl.Units
  stopped w = (act ctl (service (get_current ctl uid w)) stop (act ctl network_manager stop w).1).1

  -- NetworkManager is active, or the run has returned early with the two units stopped.
  abbrev pub Finished : Command → World ctl.Units → World ctl.Units → Type 0
  Finished command w t =
      ((returns_early ctl uid command w ≡ false) × (ctl.is_active network_manager t.units ≡ true))
      ⊎ ((returns_early ctl uid command w ≡ true) × (t ≡ stopped w))

  -- The end of the worker, from the state in which both units are stopped.
  finish_active :
      (command : Command) (s t : World ctl.Units)
      → (configure ctl uid command >>= (λ returned. if returned then pure tt else restart ctl uid))
          s
        ≡ (ok tt, t)
      → ((returns_early ctl uid command s ≡ false) × (ctl.is_active network_manager t.units ≡ true))
        ⊎ ((returns_early ctl uid command s ≡ true) × (t ≡ s))
  finish_active command s t e =
      let (r, s', e1, g) = >>=-eq-ok (configure ctl uid command) _ s t tt e in
      let (answer, same) = configure-Answer command s s' r e1 in
      elim (Bool-cases r) [
        | inl early ↦
            let g' =
              subst (λ (b : Bool). (if b then pure tt else restart ctl uid) s' ≡ (ok tt, t)) early
                g in
            inr (
              sym answer ∙ early,
              sym (ap (λ (x : Result Exit (Unit {0}) × World ctl.Units). x.1) g')
                  ∙ same (sym answer ∙ early),
            )
        | inr late ↦ inl (
          sym answer ∙ late,
          restart-Ends s' t tt (
              subst (λ (b : Bool). (if b then pure tt else restart ctl uid) s' ≡ (ok tt, t)) late
                g),
        )
      ]

  reconfigure_active :
      (command : Command) (w t : World ctl.Units)
      → reconfigure ctl uid command w ≡ (ok tt, t)
      → Finished command w t
  unfolding reconfigure
  reconfigure_active command w t e =
      let (a1, w1, e1, g1) = >>=-eq-ok (act ctl network_manager stop) _ w t tt e in
      let r1 = get_current ctl uid w1 in
      let (a2, w2, e2, g2) = >>=-eq-ok (act ctl (service r1) stop) _ w1 t tt g1 in
      let left : (act ctl network_manager stop w).1 ≡ w1 =
        ap (λ (x : Result Exit (Unit {0}) × World ctl.Units). x.1) e1 in
      let left' : (act ctl (service r1) stop w1).1 ≡ w2 =
        ap (λ (x : Result Exit (Unit {0}) × World ctl.Units). x.1) e2 in
      let same1 : r1 ≡ get_current ctl uid w =
        ap (get_current ctl uid) (sym left) ∙ get_current-kept_manager ctl law uid w in
      let same2 : get_current ctl uid w2 ≡ r1 =
        ap (get_current ctl uid) (sym left') ∙ get_current-kept_service ctl law uid r1 w1 in
      let before : stopped w ≡ w2 =
        ap (λ (x : World ctl.Units). (act ctl (service (get_current ctl uid w)) stop x).1) left
        ∙ (ap (λ (r : DnsResolver). (act ctl (service r) stop w1).1) (sym same1) ∙ left') in
      let test = returns_early-current command w w2 (same2 ∙ same1) in
      elim (finish_active command w2 t g2) [
        | inl (on, active) ↦ inl (sym test ∙ on, active)
        | inr (early, kept) ↦ inr (sym test ∙ early, kept ∙ sym before)
      ]

  -- Of the commands that reconfigure the resolver: when the worker returns, NetworkManager is active;
  -- but `set-global` with systemd-resolved as the current resolver returns with NetworkManager and
  -- systemd-resolved stopped, and has done nothing else.
  pub main_active :
      (command : Command) (w t : World ctl.Units)
      → ((url : Str) → command ≢ set_trivalent_doh url)
      → main ctl uid command w ≡ (ok tt, t)
      → Finished command w t
  unfolding main
  main_active reset w t h e = reconfigure_active reset w t e
  main_active (set_dnssec d) w t h e = reconfigure_active (set_dnssec d) w t e
  main_active (set_resolver_to r) w t h e = reconfigure_active (set_resolver_to r) w t e
  main_active (set_global s d u) w t h e = reconfigure_active (set_global s d u) w t e
  main_active (set_trivalent_doh u) w t h e = absurd (h u refl)
