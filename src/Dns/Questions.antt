-- ===== src/Dns/Questions.antt =====
-- The questions of dns_selector.py, over what the user enters, and the request that they lead to.
use secureblue.Base.{ℕ, zero, suc, ◌+◌, ◌-◌}
use secureblue.Base.{Bool, true, false, not, ◌&&◌, ◌||◌, if◌then◌else◌, ltb}
use secureblue.Base.{Option, none, some, List, [], ◌∷◌, ◌++◌}
use secureblue.Base.{◌==◌, nat_eq, string_eq, list_eq, list_beq}
use secureblue.Base.{length, any, keep}
use secureblue.Base.Exec.{Result, ok, err, Exec, pure, raise, or_raise, ◌>>=◌}
use secureblue.Base.{Str, codes, strip, join}
use secureblue.Utils.Ask.{
  Entered, AskError, value_error, index_error, interruptible_ask, typed, interrupted, exit,
  ask_yes_no, ask_option,
}
use secureblue.Dns.Worker.{
  DnsResolver, Command, reset, set_dnssec, set_global, set_resolver_to, set_trivalent_doh,
}

-- The address classes of `ipaddress` as tests, and `urlparse`: the scheme and the network location,
-- `none` for its ValueError.
pub record Parsers : Type 0 where
  pub is_ipv4 : Str → Bool
  pub is_ipv6 : Str → Bool
  pub urlparse : Str → Option (Str × Str)

pub record DnsServers : Type 0 where
  pub servers_csv : Option Str
  pub https_endpoint : Option Str

-- A profile and a provider of the JSON file that the image ships.
pub record Server : Type 0 where
  pub ipv4 : List Str
  pub ipv6 : List Str
  pub https : Option Str

pub record Provider : Type 0 where
  pub servers : List Server

abbrev pub Asking : Type 0 → Type 0
Asking = Exec (List Entered) AskError

-- `s.strip(" []")`
unfoldable pub is_bracket : ℕ → Bool
is_bracket c = c == 32 || (c == b'[' || c == b']')

unfoldable pub strip_left : Str → Str
unfolding is_bracket
strip_left [] = []
strip_left (c ∷ s) = elim (is_bracket c) [ true ↦ strip_left s | false ↦ c ∷ s ]

unfoldable pub strip_right : Str → Str
unfolding is_bracket list_beq
strip_right [] = []
strip_right (c ∷ s) = let r = strip_right s in if r == [] && is_bracket c then [] else c ∷ r

unfoldable pub strip_brackets : Str → Str
unfolding strip_left strip_right
strip_brackets s = strip_right (strip_left s)

-- `x["https"]` is there and not empty.
unfoldable pub has_https : Server → Bool
unfolding list_beq
has_https s = elim s.https [ none ↦ false | some url ↦ not (url == []) ]

-- The providers that are offered.
unfoldable pub offered : Bool → List Provider → List Provider
unfolding has_https any keep
offered false providers = providers
offered true [] = []
offered true (p ∷ ps) =
    let rest = offered true ps in
    if any has_https p.servers then (record { servers = keep has_https p.servers }) ∷ rest else rest

-- `xs[i]`; `none` is the IndexError.
unfoldable pub nth {ℓ} : {A : Type ℓ} → List A → ℕ → Option A
nth [] i = none
nth (x ∷ xs) zero = some x
nth (x ∷ xs) (suc i) = nth xs i

-- The entries of `tokens`
unfoldable pub tokens : Str → List Str → List Str
unfolding list_beq
tokens hostname [] = []
tokens hostname (ip ∷ ips) =
    let rest = tokens hostname ips in
    if ip == []
    then rest
    else (codes "dns+tls://" ++ (ip ++ (if hostname == [] then [] else b'#' ∷ hostname))) ∷ rest

-- Asked only when the condition holds, else empty.
abbrev pub ask_if : Bool → Asking Str → Asking Str
ask_if true question entered = question entered
ask_if false question entered = (ok [], entered)

-- A profile is asked for only when there are several.
unfoldable pub ask_profile : List Server → Asking ℕ
unfolding ask_option
ask_profile servers = if ltb 1 (length servers) then ask_option (length servers) else pure 1

unfoldable pub chosen_servers : Server → DnsServers
unfolding join
chosen_servers server = record {
  servers_csv = some (join (b',' ∷ []) (server.ipv4 ++ server.ipv6));
  https_endpoint = server.https;
}

unfoldable pub ask_provider_servers : Option Provider → Asking DnsServers
unfolding ask_profile nth chosen_servers
ask_provider_servers none = raise index_error
ask_provider_servers (some provider) = do
  server_selection ← ask_profile provider.servers
  server ← or_raise index_error (nth provider.servers (server_selection - 1))
  pure (chosen_servers server)

-- `ask_option(2)` and the test of its answer
unfoldable pub ask_first : Asking Bool
unfolding ask_option
ask_first = do option ← ask_option 2; pure (option == 1)

-- `x or ""` and `"" if x is None else x`
abbrev pub or_empty : Option Str → Str
or_empty none = []
or_empty (some s) = s

-- The endpoint, if there is one and the user wants it.
unfoldable pub ask_endpoint : Option Str → Asking Str
unfolding ask_first
ask_endpoint none = pure []
ask_endpoint (some url) = do use_doh ← ask_first; pure (if use_doh then url else [])

module _ (parsers : Parsers) where
  unfoldable pub ask_valid_ipv4 : Asking Str
  unfolding strip
  ask_valid_ipv4 [] = (err (exit 130), [])
  ask_valid_ipv4 (interrupted ∷ rest) = (err (exit 130), rest)
  ask_valid_ipv4 (typed s ∷ rest) = elim (parsers.is_ipv4 (strip s)) [
    | true ↦ (ok (strip s), rest)
    | false ↦ ask_valid_ipv4 rest
  ]

  unfoldable pub ask_valid_ipv6 : Asking Str
  unfolding strip strip_brackets
  ask_valid_ipv6 [] = (err (exit 130), [])
  ask_valid_ipv6 (interrupted ∷ rest) = (err (exit 130), rest)
  ask_valid_ipv6 (typed s ∷ rest) = elim (parsers.is_ipv6 (strip_brackets (strip s))) [
    | true ↦ (ok (b'[' ∷ strip_brackets (strip s) ++ (b']' ∷ [])), rest)
    | false ↦ ask_valid_ipv6 rest
  ]

  -- What a round of `ask_valid_https` makes of an entry: an exception, another round, or the answer.
  unfoldable pub https_answer : Str → Result AskError (Option (Option Str))
  unfolding list_beq
  https_answer [] = ok (some none)
  https_answer (c ∷ raw_url) = elim (parsers.urlparse (c ∷ raw_url)) [
    | none ↦ err value_error
    | some (scheme, netloc) ↦
        ok (
          if scheme == codes "https" && not (netloc == []) then some (some (c ∷ raw_url)) else none)
  ]

  unfoldable pub ask_valid_https : Asking (Option Str)
  unfolding https_answer strip
  ask_valid_https [] = (err (exit 130), [])
  ask_valid_https (interrupted ∷ rest) = (err (exit 130), rest)
  ask_valid_https (typed s ∷ rest) = elim (https_answer (strip s)) [
    | err e ↦ (err e, rest)
    | ok none ↦ ask_valid_https rest
    | ok (some url) ↦ (ok url, rest)
  ]

  unfoldable pub ask_custom_ips : Asking Str
  unfolding ask_valid_ipv4 ask_valid_ipv6 ask_yes_no interruptible_ask tokens join
  ask_custom_ips = do
    ipv4_primary ← ask_valid_ipv4
    has_secondary ← ask_yes_no
    ipv4_secondary ← ask_if has_secondary ask_valid_ipv4
    has_ipv6 ← ask_yes_no
    ipv6_primary ← ask_if has_ipv6 ask_valid_ipv6
    ipv6_secondary ← ask_if (has_ipv6 && has_secondary) ask_valid_ipv6
    has_dot ← ask_yes_no
    hostname ← ask_if has_dot interruptible_ask
    pure (
        join (b',' ∷ [])
          (tokens hostname (ipv4_primary ∷ ipv4_secondary ∷ ipv6_primary ∷ ipv6_secondary ∷ [])))

  unfoldable pub ask_https_endpoint : Bool → Asking (Option Str)
  unfolding ask_valid_https ask_yes_no
  ask_https_endpoint true = ask_valid_https
  ask_https_endpoint false = do
    has_https_endpoint ← ask_yes_no
    if has_https_endpoint then ask_valid_https else pure none

  unfoldable pub ask_custom_servers : Bool → Asking DnsServers
  unfolding ask_custom_ips ask_https_endpoint
  ask_custom_servers true = do
    https_endpoint ← ask_https_endpoint true
    pure (record { servers_csv = none; https_endpoint = https_endpoint })
  ask_custom_servers false = do
    servers_csv ← ask_custom_ips
    https_endpoint ← ask_https_endpoint false
    pure (record { servers_csv = some servers_csv; https_endpoint = https_endpoint })

  unfoldable pub ask_servers : List Provider → Bool → Asking DnsServers
  unfolding offered ask_option ask_custom_servers ask_provider_servers nth
  ask_servers all_providers https_only = do
    let providers : List Provider = offered https_only all_providers
    provider_selection ← ask_option (length providers + 1)
    if provider_selection == length providers + 1
        then ask_custom_servers https_only
        else ask_provider_servers (nth providers (provider_selection - 1))

  -- `ask_servers(https_only=True).https_endpoint if use_doh else ""`
  unfoldable pub ask_doh : List Provider → Bool → Asking Str
  unfolding ask_servers
  ask_doh providers false = pure []
  ask_doh providers true = do
    servers ← ask_servers providers true
    pure (or_empty servers.https_endpoint)

  unfoldable pub trivalent_request : List Provider → Asking Command
  unfolding ask_first ask_doh
  trivalent_request providers = do
    use_doh ← ask_first
    url ← ask_doh providers use_doh
    pure (set_trivalent_doh url)

  unfoldable pub global_request : List Provider → Asking Command
  unfolding ask_first ask_servers ask_endpoint
  global_request providers = do
    servers ← ask_servers providers false
    should_validate_dnssec ← ask_first
    https_endpoint ← ask_endpoint servers.https_endpoint
    pure (set_global (or_empty servers.servers_csv) should_validate_dnssec https_endpoint)

  -- The request to the worker that a mode of the menu leads to, if any.
  unfoldable pub request_of_mode : List Provider → ℕ → Asking (Option Command)
  unfolding ask_first trivalent_request global_request
  request_of_mode providers mode =
      if mode == 1
      then pure (some reset)
      else if mode == 2
      then trivalent_request providers >>= (λ c. pure (some c))
      else if mode == 3
      then ask_first >>= (λ should_validate_dnssec. pure (some (set_dnssec should_validate_dnssec)))
      else if mode == 4
      then global_request providers >>= (λ c. pure (some c))
      else if mode == 5
      then pure (some (set_resolver_to DnsResolver.resolved))
      else pure none

  -- The menu has three more entries with Unbound.
  unfoldable pub run_interactive : List Provider → (uses_unbound : Bool) → Asking (Option Command)
  unfolding request_of_mode ask_option
  run_interactive providers uses_unbound = do
    mode ← ask_option (if uses_unbound then 5 else 2)
    request_of_mode providers mode
