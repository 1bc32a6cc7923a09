-- ===== src/Dns/Requests.antt =====
-- The requests that a session of the menu of dns_selector.py can lead to.
use secureblue.Base.{ℕ, ◌≤◌, arith}
use secureblue.Base.{◌≡◌, refl, inl, inr}
use secureblue.Base.{Bool, true, false, if◌then◌else◌, Bool-cases}
use secureblue.Base.{Option, none, some, List, []}
use secureblue.Base.{◌==◌, nat_eq, string_eq, list_eq}
use secureblue.Base.{all}
use secureblue.Base.Exec.{pure, ◌>>=◌}
use secureblue.Base.{Str}
use secureblue.Utils.Ask.{Entered}
use secureblue.Dns.Worker.{
  DnsResolver, Command, reset, set_dnssec, set_global, set_resolver_to, set_trivalent_doh,
}
use secureblue.Dns.Questions.{
  Parsers, Provider, ask_first, ask_endpoint, ask_doh, trivalent_request, global_request,
  request_of_mode, run_interactive,
}
use secureblue.Dns.Outcome.{Outcome, Safe, Any, Within, bind-Safe, ask_option-Safe, ask_first-Safe}
use secureblue.Dns.Choices.{
  is_endpoint, IsEndpoint, HasEndpoint, provider_ok, no_endpoint, ask_servers-Safe,
}

module _ (parsers : Parsers) where
  ask_doh-Safe :
      (providers : List Provider) (use_doh : Bool)
      → all (provider_ok parsers) providers ≡ true
      → Safe (λ url. is_endpoint parsers url ≡ true) (ask_doh parsers providers use_doh)
  unfolding ask_doh
  ask_doh-Safe providers false h = λ entered. (no_endpoint parsers)
  ask_doh-Safe providers true h =
      bind-Safe (HasEndpoint parsers) (λ url. is_endpoint parsers url ≡ true) _ _
        (ask_servers-Safe parsers providers true h) (λ servers good entered. good)

  -- A request that the menu allows: the settings of Unbound are for Unbound only, and an endpoint
  -- is empty or an https URL with a network location.
  abbrev pub IsRequest : (uses_unbound : Bool) → Command → Type 0
  IsRequest uses_unbound reset = Unit {0}
  IsRequest uses_unbound (set_dnssec dnssec_enabled) = uses_unbound ≡ true
  IsRequest uses_unbound (set_global servers dnssec_enabled doh_url) =
      (uses_unbound ≡ true) × (is_endpoint parsers doh_url ≡ true)
  IsRequest uses_unbound (set_resolver_to resolver) =
      (uses_unbound ≡ true) × (resolver ≡ DnsResolver.resolved)
  IsRequest uses_unbound (set_trivalent_doh doh_url) = is_endpoint parsers doh_url ≡ true

  abbrev pub Requested : Bool → Option Command → Type 0
  Requested uses_unbound none = ⊥
  Requested uses_unbound (some command) = IsRequest uses_unbound command

  trivalent_request-Safe :
      (providers : List Provider) (uses_unbound : Bool)
      → all (provider_ok parsers) providers ≡ true
      → Safe (IsRequest uses_unbound) (trivalent_request parsers providers)
  unfolding trivalent_request
  trivalent_request-Safe providers uses_unbound h =
      bind-Safe Any (IsRequest uses_unbound) _ _ ask_first-Safe (λ use_doh _.
        bind-Safe (λ url. is_endpoint parsers url ≡ true) (IsRequest uses_unbound) _ _
          (ask_doh-Safe providers use_doh h) (λ url good entered. good))

  wanted-IsEndpoint :
      (b : Bool) (url : Str)
      → is_endpoint parsers url ≡ true
      → is_endpoint parsers (if b then url else []) ≡ true
  wanted-IsEndpoint true url h = h
  wanted-IsEndpoint false url h = (no_endpoint parsers)

  ask_endpoint-Safe :
      (url : Option Str)
      → IsEndpoint parsers url
      → Safe (λ chosen. is_endpoint parsers chosen ≡ true) (ask_endpoint url)
  unfolding ask_endpoint
  ask_endpoint-Safe none h = λ entered. (no_endpoint parsers)
  ask_endpoint-Safe (some url) h =
      bind-Safe Any (λ chosen. is_endpoint parsers chosen ≡ true) _ _ ask_first-Safe
        (λ use_doh _ entered. wanted-IsEndpoint use_doh url h)

  global_request-Safe :
      (providers : List Provider)
      → all (provider_ok parsers) providers ≡ true
      → Safe (IsRequest true) (global_request parsers providers)
  unfolding global_request
  global_request-Safe providers h =
      bind-Safe (HasEndpoint parsers) (IsRequest true) _ _
        (ask_servers-Safe parsers providers false h)
        (λ servers good.
          bind-Safe Any (IsRequest true) _ _ ask_first-Safe (λ should_validate_dnssec _.
            bind-Safe (λ chosen. is_endpoint parsers chosen ≡ true) (IsRequest true) _ _
              (ask_endpoint-Safe servers.https_endpoint good)
              (λ chosen usable entered. (refl, usable))))

  menu_of_unbound :
      (uses_unbound : Bool) (mode : ℕ)
      → (mode == 1) ≡ false
      → (mode == 2) ≡ false
      → Within (if uses_unbound then 5 else 2) mode
      → uses_unbound ≡ true
  menu_of_unbound true mode a b within = refl
  menu_of_unbound false mode a b (low, high) = absurd (ground (arith, a, b))

  dnssec_request-Safe :
      Safe
        (Requested true)
        (ask_first >>= (λ should_validate_dnssec. pure (some (set_dnssec should_validate_dnssec))))
  dnssec_request-Safe =
      bind-Safe Any (Requested true) _ _ ask_first-Safe (λ validate _ entered. refl)

  -- The modes from 3 to 5
  unbound_mode-Safe :
      (providers : List Provider) (mode : ℕ)
      → all (provider_ok parsers) providers ≡ true
      → (3 ≤ mode) × (mode ≤ 5)
      → Safe (Requested true) (
          if mode == 3
          then ask_first
            >>= (λ should_validate_dnssec. pure (some (set_dnssec should_validate_dnssec)))
          else if mode == 4
          then global_request parsers providers >>= (λ c. pure (some c))
          else if mode == 5
          then pure (some (set_resolver_to DnsResolver.resolved))
          else pure none)
  unbound_mode-Safe providers mode h (low, high) = elim (Bool-cases (mode == 3)) [
    | inl e ↦ rw e dnssec_request-Safe
    | inr not_3 ↦ elim (Bool-cases (mode == 4)) [
      | inl e ↦
          rw (not_3, e)
            (bind-Safe (IsRequest true) (Requested true) _ _ (global_request-Safe providers h)
              (λ command good entered. good))
      | inr not_4 ↦
          let is_5 : (mode == 5) ≡ true = ground (arith, not_3, not_4) in
          rw (not_3, not_4, is_5) (λ entered. (refl, refl))
    ]
  ]

  request_of_mode-Safe :
      (providers : List Provider) (uses_unbound : Bool) (mode : ℕ)
      → all (provider_ok parsers) providers ≡ true
      → Within (if uses_unbound then 5 else 2) mode
      → Safe (Requested uses_unbound) (request_of_mode parsers providers mode)
  unfolding request_of_mode
  request_of_mode-Safe providers uses_unbound mode h within = elim (Bool-cases (mode == 1)) [
    | inl e ↦ rw e (λ entered. tt)
    | inr not_1 ↦ elim (Bool-cases (mode == 2)) [
      | inl e ↦
          rw (not_1, e)
            (bind-Safe (IsRequest uses_unbound) (Requested uses_unbound) _ _
              (trivalent_request-Safe providers uses_unbound h) (λ command good entered. good))
      | inr not_2 ↦
          rw (not_1, not_2, menu_of_unbound uses_unbound mode not_1 not_2 within)
            (unbound_mode-Safe providers mode h (ground (arith, not_1, not_2)))
    ]
  ]

  interactive-Safe :
      (providers : List Provider) (uses_unbound : Bool)
      → all (provider_ok parsers) providers ≡ true
      → Safe (Requested uses_unbound) (run_interactive parsers providers uses_unbound)
  unfolding run_interactive
  interactive-Safe providers uses_unbound h =
      bind-Safe (Within (if uses_unbound then 5 else 2)) (Requested uses_unbound) _ _
        (ask_option-Safe _)
        (λ mode within. request_of_mode-Safe providers uses_unbound mode h within)

  -- With providers that have a server each, and whose endpoints are https URLs, whatever is entered:
  -- a session of the menu ends with exit 130, with a ValueError, or with a request to the worker. It
  -- never ends in an IndexError or without a request. Without Unbound the request is a reset or sets
  -- the endpoint of Trivalent; with it, it may also set DNSSEC, global DNS or the resolver, then to
  -- resolved. An endpoint of a request is empty or an https URL with a network location.
  pub run_interactive-Requested :
      (providers : List Provider) (uses_unbound : Bool) (entered : List Entered)
      → all (provider_ok parsers) providers ≡ true
      → Outcome (Requested uses_unbound) (run_interactive parsers providers uses_unbound entered).0
  run_interactive-Requested providers uses_unbound entered h =
      interactive-Safe providers uses_unbound h entered
