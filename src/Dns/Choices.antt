-- ===== src/Dns/Choices.antt =====
-- The servers and the endpoint that the questions of dns_selector.py lead to: no choice is out of
-- range, and the endpoint can be used.
use secureblue.Base.{ℕ, ◌+◌, ◌-◌, ◌≤◌, arith}
use secureblue.Base.{◌≡◌, refl, inl, inr}
use secureblue.Base.{Bool, true, false, not, ◌&&◌, ◌||◌, if◌then◌else◌, ltb, leb, Bool-cases}
use secureblue.Base.{Option, none, some, List, [], ◌∷◌}
use secureblue.Base.{◌==◌, nat_eq, string_eq, list_eq, list_beq}
use secureblue.Base.{length, all, all-keep}
use secureblue.Base.Exec.{Result, ok, err, pure}
use secureblue.Base.{Str, codes, strip}
use secureblue.Utils.Ask.{Entered, AskError, value_error, index_error, typed, interrupted, exit}
use secureblue.Dns.Questions.{
  Parsers, DnsServers, Server, Provider, Asking, has_https, offered, nth, ask_profile,
  chosen_servers, ask_provider_servers, or_empty, strip_brackets, ask_valid_ipv4, ask_valid_ipv6,
  https_answer, ask_valid_https, ask_custom_ips, ask_https_endpoint, ask_custom_servers,
  ask_servers,
}
use secureblue.Dns.Outcome.{
  Outcome, Safe, Any, Within, bind-Safe, ask_yes_no-Safe, interruptible_ask-Safe, ask_option-Safe,
  ask_if-Safe, length-keep, nth-all,
}

-- The network location of an https URL is not empty.
abbrev is_https : Option (Str × Str) → Bool
is_https none = false
is_https (some (scheme, netloc)) = scheme == codes "https" && not (netloc == [])

module _ (parsers : Parsers) where
  -- No endpoint, or an https URL with a network location.
  abbrev pub is_endpoint : Str → Bool
  is_endpoint url = url == [] || is_https (parsers.urlparse url)

  pub no_endpoint : is_endpoint [] ≡ true
  unfolding list_beq
  no_endpoint = refl

  abbrev pub IsEndpoint : Option Str → Type 0
  IsEndpoint url = is_endpoint (or_empty url) ≡ true

  ask_valid_ipv4-Safe : Safe Any (ask_valid_ipv4 parsers)
  unfolding ask_valid_ipv4
  ask_valid_ipv4-Safe [] = refl
  ask_valid_ipv4-Safe (interrupted ∷ rest) = refl
  ask_valid_ipv4-Safe (typed s ∷ rest) = elim (Bool-cases (parsers.is_ipv4 (strip s))) [
    | inl e ↦ rw (e, ask_valid_ipv4) tt
    | inr e ↦ rw (e, ask_valid_ipv4) (ask_valid_ipv4-Safe rest)
  ]

  ask_valid_ipv6-Safe : Safe Any (ask_valid_ipv6 parsers)
  unfolding ask_valid_ipv6
  ask_valid_ipv6-Safe [] = refl
  ask_valid_ipv6-Safe (interrupted ∷ rest) = refl
  ask_valid_ipv6-Safe (typed s ∷ rest) =
      elim (Bool-cases (parsers.is_ipv6 (strip_brackets (strip s)))) [
        | inl e ↦ rw (e, ask_valid_ipv6) tt
        | inr e ↦ rw (e, ask_valid_ipv6) (ask_valid_ipv6-Safe rest)
      ]

  -- A round of `ask_valid_https`, given the rounds that follow.
  abbrev https_answered :
      Result AskError (Option (Option Str))
      → List Entered
      → Asking (Option Str)
      → Result AskError (Option Str) × List Entered
  https_answered r rest m = elim r [
    | err e ↦ (err e, rest)
    | ok none ↦ m rest
    | ok (some url) ↦ (ok url, rest)
  ]

  abbrev HttpsAnswered : Result AskError (Option (Option Str)) → Type 0
  HttpsAnswered (err (exit n)) = n ≡ 130
  HttpsAnswered (err value_error) = Unit {0}
  HttpsAnswered (err index_error) = ⊥
  HttpsAnswered (ok none) = Unit {0}
  HttpsAnswered (ok (some url)) = IsEndpoint url

  https_answer-HttpsAnswered : (s : Str) → HttpsAnswered (https_answer parsers s)
  unfolding https_answer
  https_answer-HttpsAnswered [] = refl
  https_answer-HttpsAnswered (c ∷ url) = ground arith

  https_answered-Safe :
      (r : Result AskError (Option (Option Str))) (rest : List Entered) (m : Asking (Option Str))
      → HttpsAnswered r
      → Outcome IsEndpoint (m rest).0
      → Outcome IsEndpoint (https_answered r rest m).0
  https_answered-Safe (err (exit n)) rest m h k = h
  https_answered-Safe (err value_error) rest m h k = tt
  https_answered-Safe (err index_error) rest m h k = h
  https_answered-Safe (ok none) rest m h k = k
  https_answered-Safe (ok (some url)) rest m h k = h

  ask_valid_https-Safe : Safe IsEndpoint (ask_valid_https parsers)
  unfolding ask_valid_https
  ask_valid_https-Safe [] = refl
  ask_valid_https-Safe (interrupted ∷ rest) = refl
  ask_valid_https-Safe (typed s ∷ rest) =
      https_answered-Safe (https_answer parsers (strip s)) rest (ask_valid_https parsers)
        (https_answer-HttpsAnswered (strip s)) (ask_valid_https-Safe rest)

  ask_custom_ips-Safe : Safe (Any {A = Str}) (ask_custom_ips parsers)
  unfolding ask_custom_ips
  ask_custom_ips-Safe = bind-Safe Any Any _ _ ask_valid_ipv4-Safe (λ _ _.
      bind-Safe Any Any _ _ ask_yes_no-Safe (λ has_secondary _.
        bind-Safe Any Any _ _ (ask_if-Safe has_secondary _ ask_valid_ipv4-Safe) (λ _ _.
          bind-Safe Any Any _ _ ask_yes_no-Safe (λ has_ipv6 _.
            bind-Safe Any Any _ _ (ask_if-Safe has_ipv6 _ ask_valid_ipv6-Safe) (λ _ _.
              bind-Safe Any Any _ _ (ask_if-Safe (has_ipv6 && has_secondary) _ ask_valid_ipv6-Safe)
                (λ _ _. bind-Safe Any Any _ _ ask_yes_no-Safe (λ has_dot _.
                  bind-Safe Any Any _ _ (ask_if-Safe has_dot _ interruptible_ask-Safe)
                    (λ _ _ entered. tt))))))))

  asked_https-Safe :
      (b : Bool) → Safe IsEndpoint (λ e. (if b then ask_valid_https parsers else pure none) e)
  asked_https-Safe true entered = ask_valid_https-Safe entered
  asked_https-Safe false entered = no_endpoint

  ask_https_endpoint-Safe :
      (https_only : Bool) → Safe IsEndpoint (ask_https_endpoint parsers https_only)
  unfolding ask_https_endpoint
  ask_https_endpoint-Safe true = ask_valid_https-Safe
  ask_https_endpoint-Safe false =
      bind-Safe Any IsEndpoint _ _ ask_yes_no-Safe
        (λ has_https_endpoint _. asked_https-Safe has_https_endpoint)

  -- The servers that come from a question: an endpoint that can be used.
  abbrev pub HasEndpoint : DnsServers → Type 0
  HasEndpoint servers = IsEndpoint servers.https_endpoint

  ask_custom_servers-Safe :
      (https_only : Bool) → Safe HasEndpoint (ask_custom_servers parsers https_only)
  unfolding ask_custom_servers
  ask_custom_servers-Safe true =
      bind-Safe IsEndpoint HasEndpoint _ _ (ask_https_endpoint-Safe true) (λ url h entered. h)
  ask_custom_servers-Safe false =
      bind-Safe Any HasEndpoint _ _ ask_custom_ips-Safe (λ servers_csv _.
        bind-Safe IsEndpoint HasEndpoint _ _ (ask_https_endpoint-Safe false) (λ url h entered. h))

  abbrev pub server_ok : Server → Bool
  server_ok server = is_endpoint (or_empty server.https)

  -- A provider that has a server, and whose endpoints are https URLs.
  abbrev pub provider_ok : Provider → Bool
  provider_ok provider = leb 1 (length provider.servers) && all server_ok provider.servers

  offered_ok :
      (https_only : Bool) (providers : List Provider)
      → all provider_ok providers ≡ true
      → all provider_ok (offered https_only providers) ≡ true
  unfolding offered all
  offered_ok false providers h = h
  offered_ok true [] h = refl
  offered_ok true (p ∷ ps) h = ground (
    arith,
    offered_ok true ps,
    all-keep has_https server_ok p.servers,
    length-keep has_https p.servers,
  )

  ask_profile-Safe :
      (servers : List Server)
      → 1 ≤ length servers
      → Safe (Within (length servers)) (ask_profile servers)
  unfolding ask_profile
  ask_profile-Safe servers h entered = elim (Bool-cases (ltb 1 (length servers))) [
    | inl e ↦ rw e (ask_option-Safe (length servers) entered)
    | inr e ↦ rw e (omega arith, h)
  ]

  ask_provider_servers-Safe :
      (provider : Provider)
      → provider_ok provider ≡ true
      → Safe HasEndpoint (ask_provider_servers (some provider))
  unfolding ask_provider_servers
  ask_provider_servers-Safe provider h =
      bind-Safe (Within (length provider.servers)) HasEndpoint _ _
        (ask_profile-Safe provider.servers (ground arith))
        (λ n (within : Within (length provider.servers) n).
          let (server, found, good) = nth-all server_ok provider.servers n (ground arith) within in
          λ entered. rw (found, chosen_servers) good)

  selected-Safe :
      (providers : List Provider) (https_only : Bool) (n : ℕ)
      → all provider_ok providers ≡ true
      → Within (length providers + 1) n
      → Safe HasEndpoint (
          if n == length providers + 1
          then ask_custom_servers parsers https_only
          else ask_provider_servers (nth providers (n - 1)))
  selected-Safe providers https_only n h (low, high) =
      elim (Bool-cases (n == length providers + 1)) [
        | inl e ↦ rw e (ask_custom_servers-Safe https_only)
        | inr e ↦
            let (provider, found, good) =
              nth-all provider_ok providers n h (low, ground (arith, e)) in
            rw (e, found) (ask_provider_servers-Safe provider good)
      ]

  pub ask_servers-Safe :
      (providers : List Provider) (https_only : Bool)
      → all provider_ok providers ≡ true
      → Safe HasEndpoint (ask_servers parsers providers https_only)
  unfolding ask_servers
  ask_servers-Safe providers https_only h =
      bind-Safe (Within (length (offered https_only providers) + 1)) HasEndpoint _ _
        (ask_option-Safe _)
        (λ n within.
          selected-Safe (offered https_only providers) https_only n
            (offered_ok https_only providers h) within)
