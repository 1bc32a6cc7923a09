-- ===== src/Dns/Shows.antt =====
-- What a run of dns_selector.py that ends has shown.
use secureblue.Base.{ℕ}
use secureblue.Base.{◌≡◌, sym, ap, ◌∙◌, ◌⊎◌, inl, inr}
use secureblue.Base.{Bool}
use secureblue.Base.{Option, none, some, List, []}
use secureblue.Base.{nat_eq, string_eq, list_eq}
use secureblue.Base.Exec.{Result, ok, err}
use secureblue.Base.{Str}
use secureblue.Base.Exec.{ok-injective}
use secureblue.Utils.Ask.{Entered, AskError}
use secureblue.Dns.Worker.{Command, reset, set_dnssec, set_resolver_to}
use secureblue.Dns.Questions.{Parsers, Provider}
use secureblue.Dns.Status.{
  EffectiveResolver, unbound, resolved, unknown, Readers, detect, Printed, print_all_status,
}
use secureblue.Dns.Selector.{
  Args, interactive, status, reset_all, dnssec, resolver, Machine, with_code, end_with,
  set_dnssec_with, run_request, run_session, main, Finished,
}

module _ (machine : Machine) (readers : Readers) (parsers : Parsers)
    (providers : List Provider) where
  open machine use {Host, sources, run}

  -- One run of the worker, whose exit code is passed on; or the host as it was.
  abbrev pub AtMostOnce : Host → ℕ → Host → Type 0
  AtMostOnce host code after =
      ((command : Command) × (run command host ≡ (code, after))) ⊎ (after ≡ host)

  abbrev pub Shows : Host → ℕ → List Str → Host → Type 0
  Shows host code ls after =
      AtMostOnce host code after
      × ((print_all_status readers (sources after) ≡ some ls)
          ⊎ ((code ≡ 1) × (ls ≡ []) × (after ≡ host)))

  coded-lines :
      (code c : ℕ) (p : Printed) (ls : List Str)
      → with_code machine readers parsers providers code p ≡ ok (c, ls)
      → p ≡ some ls
  unfolding with_code
  coded-lines code c none ls h = cc
  coded-lines code c (some xs) ls h = ap some (ap (λ (x : ℕ × List Str). x.1) (ok-injective _ _ h))

  coded-code :
      (code c : ℕ) (p : Printed) (ls : List Str)
      → with_code machine readers parsers providers code p ≡ ok (c, ls)
      → code ≡ c
  unfolding with_code
  coded-code code c none ls h = cc
  coded-code code c (some xs) ls h = ap (λ (x : ℕ × List Str). x.0) (ok-injective _ _ h)

  end_with-lines :
      (code c : ℕ) (t after : Host) (ls : List Str)
      → end_with machine readers parsers providers (code, t) ≡ (ok (c, ls), after)
      → ◌≡◌ {A = ℕ × Host} (code, t) (c, after)
        × (print_all_status readers (sources after) ≡ some ls)
  unfolding end_with
  end_with-lines code c t after ls h =
      let at = ap (λ x. x.1) h in
      let result = ap (λ x. x.0) h in
      (
        ap (λ n. (n, t)) (coded-code code c (print_all_status readers (sources t)) ls result)
            ∙ ap (λ x. (c, x)) at,
        sym (ap (λ x. print_all_status readers (sources x)) at)
            ∙ coded-lines code c (print_all_status readers (sources t)) ls result,
      )

  run-Shows :
      (command : Command) (host after : Host) (c : ℕ) (ls : List Str)
      → end_with machine readers parsers providers (run command host) ≡ (ok (c, ls), after)
      → Shows host c ls after
  run-Shows command host after c ls h =
      let (at, lines) = end_with-lines (run command host).0 c (run command host).1 after ls h in
      (inl (command, at), inl lines)

  kept-Shows :
      (code : ℕ) (host after : Host) (c : ℕ) (ls : List Str)
      → end_with machine readers parsers providers (code, host) ≡ (ok (c, ls), after)
      → Shows host c ls after
  kept-Shows code host after c ls h =
      let (at, lines) = end_with-lines code c host after ls h in
      (inr (sym (ap (λ x. x.1) at)), inl lines)

  request-Shows :
      (r : Result AskError (Option Command)) (host after : Host) (c : ℕ) (ls : List Str)
      → run_request machine readers parsers providers r host ≡ (ok (c, ls), after)
      → Shows host c ls after
  unfolding run_request
  request-Shows (err e) host after c ls h = cc
  request-Shows (ok none) host after c ls h = kept-Shows 1 host after c ls h
  request-Shows (ok (some command)) host after c ls h = run-Shows command host after c ls h

  session-Shows :
      (p : Printed) (current : Option EffectiveResolver) (entered : List Entered)
      (host after : Host) (c : ℕ) (ls : List Str)
      → run_session machine readers parsers providers p current entered host ≡ (ok (c, ls), after)
      → Shows host c ls after
  unfolding run_session
  session-Shows none current entered host after c ls h = cc
  session-Shows (some p) none entered host after c ls h = cc
  session-Shows (some p) (some current) entered host after c ls h =
      request-Shows _ host after c ls h

  refused-Shows :
      (host after : Host) (c : ℕ) (ls : List Str)
      → ◌≡◌ {A = Finished machine readers parsers providers} (ok (1, []), host) (ok (c, ls), after)
      → Shows host c ls after
  refused-Shows host after c ls h =
      let at = ap (λ x. x.1) h in
      let result = ok-injective _ _ (ap (λ x. x.0) h) in
      (inr (sym at), inr (sym (ap (λ x. x.0) result), sym (ap (λ x. x.1) result), sym at))

  dnssec-Shows :
      (current : Option EffectiveResolver) (enable : Bool) (host after : Host) (c : ℕ)
      (ls : List Str)
      → set_dnssec_with machine readers parsers providers current enable host ≡ (ok (c, ls), after)
      → Shows host c ls after
  unfolding set_dnssec_with
  dnssec-Shows none enable host after c ls h = cc
  dnssec-Shows (some unbound) enable host after c ls h =
      run-Shows (set_dnssec enable) host after c ls h
  dnssec-Shows (some resolved) enable host after c ls h = refused-Shows host after c ls h
  dnssec-Shows (some unknown) enable host after c ls h = refused-Shows host after c ls h

  -- A run of dns_selector.py that ends with an exit code has run the worker at most once, and if it has,
  -- the code is the worker's; the status that it prints at its end is that of the machine as it is left,
  -- or it has printed none, ends with 1 and has changed nothing.
  pub main-Shows :
      (args : Args) (entered : List Entered) (host after : Host) (c : ℕ) (ls : List Str)
      → main machine readers parsers providers args entered host ≡ (ok (c, ls), after)
      → Shows host c ls after
  unfolding main
  main-Shows interactive entered host after c ls h =
      session-Shows (print_all_status readers (sources host)) (detect (sources host).resolv_conf)
        entered host after c ls h
  main-Shows status entered host after c ls h = kept-Shows 0 host after c ls h
  main-Shows (dnssec enable) entered host after c ls h =
      dnssec-Shows (detect (sources host).resolv_conf) enable host after c ls h
  main-Shows reset_all entered host after c ls h = run-Shows reset host after c ls h
  main-Shows (resolver backend) entered host after c ls h =
      run-Shows (set_resolver_to backend) host after c ls h
