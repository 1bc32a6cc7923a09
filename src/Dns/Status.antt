-- ===== src/Dns/Status.antt =====
-- What `dns-selector status` prints, of dns_selector.py, and its `main`.
use secureblue.Base.{Bool, true, false, if◌then◌else◌}
use secureblue.Base.{Option, none, some, List, [], ◌∷◌, ◌++◌, map, String}
use secureblue.Base.{◌==◌, nat_eq, string_eq, list_eq, list_beq}
use secureblue.Base.{Str, codes, starts_with, strip}
use secureblue.Base.Words.{split_on, words}
use secureblue.Dns.Settings.{dnssec_status}

pub data EffectiveResolver : Type 0 where
  unbound resolved unknown : EffectiveResolver

abbrev pub is_effective_unbound : EffectiveResolver → Bool
is_effective_unbound unbound = true
is_effective_unbound _ = false

-- A file that is read as text.
pub data Reading : Type 0 where
  absent unreadable : Reading
  read : Str → Reading

-- What `json.load` makes of the policy, and its two entries, where they are texts.
pub data Loaded : Type 0 where
  invalid : Loaded
  no_object : Loaded
  policy : (mode endpoint : Option Str) → Loaded

-- `configparser` and `json`. `none` is an exception of `read` or of `get`; a missing key is `some none`.
pub record Readers : Type 1 where
  pub Parsed : Type 0
  pub read_config : Str → Option Parsed
  pub has_section : Parsed → Str → Bool
  pub config_get : Parsed → Str → Str → Option (Option Str)
  pub load_policy : Str → Loaded

-- What the status is read from; `none` is a resolv.conf that cannot be read.
pub record Sources : Type 0 where
  pub resolv_conf : Option (List Str)
  pub dnsconfd_conf : Reading
  pub globaldns_conf : Reading
  pub trivalent_conf : Reading

-- The second word of a line of a nameserver; `none` is the ValueError of a line that has no other.
unfoldable pub nameserver_address : List Str → Option Str
nameserver_address [] = none
nameserver_address (word ∷ []) = none
nameserver_address (word ∷ addr ∷ rest) = some addr

-- The resolver that an address names; `more` is what the lines after it say.
unfoldable pub resolver_at : Option Str → Option EffectiveResolver → Option EffectiveResolver
unfolding list_beq
resolver_at none more = none
resolver_at (some addr) more =
    if addr == codes "127.0.0.1"
    then some unbound
    else if addr == codes "127.0.0.53"
    then some resolved
    else more

-- `none` is the ValueError.
unfoldable pub detect_lines : List Str → Option EffectiveResolver
unfolding nameserver_address resolver_at strip starts_with words
detect_lines [] = some unknown
detect_lines (raw_line ∷ rest) =
    let more = detect_lines rest in
    if starts_with (strip raw_line) (codes "nameserver")
    then resolver_at (nameserver_address (words (strip raw_line))) more
    else more

unfoldable pub detect : Option (List Str) → Option EffectiveResolver
unfolding detect_lines
detect none = some unknown
detect (some resolv_conf) = detect_lines resolv_conf

-- The lines that a function prints; `none` is a traceback.
abbrev pub Printed : Type 0
Printed = Option (List Str)

unfoldable pub and_then : Printed → Printed → Printed
and_then none more = none
and_then (some xs) none = none
and_then (some xs) (some ys) = some (xs ++ ys)

abbrev pub line_of : String → Printed
line_of s = some (codes s ∷ [])

unfoldable pub print_current_resolver : Option EffectiveResolver → Printed
print_current_resolver none = none
print_current_resolver (some unbound) = line_of "DNS Resolver: Unbound"
print_current_resolver (some resolved) = line_of "DNS Resolver: systemd-resolved"
print_current_resolver (some unknown) = line_of "DNS Resolver: unknown/vpn"

unfoldable pub dnssec_line : Bool → Str
dnssec_line true = codes "DNSSEC: enabled"
dnssec_line false = codes "DNSSEC: disabled"

-- A file that cannot be read is reported on stderr.
unfoldable pub print_dnssec_status : Option EffectiveResolver → Reading → Printed
unfolding dnssec_line
print_dnssec_status none conf = none
print_dnssec_status (some unbound) absent = some (dnssec_line false ∷ [])
print_dnssec_status (some unbound) unreadable = some []
print_dnssec_status (some unbound) (read content) =
    some (dnssec_line (dnssec_status (some content)) ∷ [])
print_dnssec_status (some _) conf = line_of "DNSSEC: unavailable"

unfoldable pub global_dns_line : Bool → Str
global_dns_line true = codes "Global DNS: enabled"
global_dns_line false = codes "Global DNS: disabled"

-- Given `resolve-mode`
unfoldable pub global_dns_status : Option Str → Str
unfolding global_dns_line list_beq
global_dns_status none = global_dns_line false
global_dns_status (some mode) = global_dns_line (mode == codes "exclusive")

-- Given `servers`
unfoldable pub server_lines : Str → List Str
unfolding split_on
server_lines [] = []
server_lines (c ∷ servers) =
    codes "Global DNS servers:" ∷ map (λ server. codes "  " ++ server) (split_on b',' (c ∷ servers))

unfoldable pub doh_line : Bool → Str
doh_line true = codes "Trivalent DoH: enabled"
doh_line false = codes "Trivalent DoH: disabled"

-- `doh_mode == "secure"`, and an endpoint that is not empty
unfoldable pub doh_lines : Option Str → Option Str → List Str
unfolding doh_line list_beq
doh_lines mode none = doh_line false ∷ []
doh_lines mode (some []) = doh_line false ∷ []
doh_lines none (some (c ∷ url)) =
    doh_line false ∷ (codes "Trivalent DoH endpoint: " ++ (c ∷ url)) ∷ []
doh_lines (some mode) (some (c ∷ url)) =
    doh_line (mode == codes "secure") ∷ (codes "Trivalent DoH endpoint: " ++ (c ∷ url)) ∷ []

unfoldable pub loaded_lines : Loaded → Printed
unfolding doh_lines
loaded_lines invalid = some []
loaded_lines no_object = none
loaded_lines (policy mode endpoint) = some (doh_lines mode endpoint)

module _ (readers : Readers) where
  open readers use {Parsed, read_config, has_section, config_get, load_policy}

  unfoldable pub domain_lines : Parsed → Printed
  unfolding server_lines
  domain_lines nm =
      if has_section nm (codes "global-dns-domain-*")
      then elim (config_get nm (codes "global-dns-domain-*") (codes "servers")) [
        | none ↦ none
        | some none ↦ some []
        | some (some servers) ↦ some (server_lines servers)
      ]
      else some []

  unfoldable pub global_dns_lines : Parsed → Printed
  unfolding domain_lines global_dns_status and_then
  global_dns_lines nm =
      if has_section nm (codes "global-dns")
      then elim (config_get nm (codes "global-dns") (codes "resolve-mode")) [
        | none ↦ none
        | some mode ↦ and_then (some (global_dns_status mode ∷ [])) (domain_lines nm)
      ]
      else some (global_dns_line false ∷ [])

  -- `ConfigParser.read` passes over a file that it cannot open.
  unfoldable pub print_nm_globaldns_status : Option EffectiveResolver → Reading → Printed
  unfolding global_dns_lines global_dns_line
  print_nm_globaldns_status none conf = none
  print_nm_globaldns_status (some unbound) (read content) = elim (read_config content) [
    | none ↦ none
    | some nm ↦ global_dns_lines nm
  ]
  print_nm_globaldns_status (some unbound) conf = some (global_dns_line false ∷ [])
  print_nm_globaldns_status (some _) conf = line_of "Global DNS: unavailable"

  unfoldable pub print_trivalent_doh_status : Reading → Printed
  unfolding loaded_lines doh_line
  print_trivalent_doh_status absent = some (doh_line false ∷ [])
  print_trivalent_doh_status unreadable = some []
  print_trivalent_doh_status (read content) = loaded_lines (load_policy content)

  unfoldable pub print_all_status : Sources → Printed
  unfolding detect and_then
  print_all_status src = and_then (print_current_resolver (detect src.resolv_conf)) (
      and_then (print_dnssec_status (detect src.resolv_conf) src.dnsconfd_conf) (
        and_then (print_nm_globaldns_status (detect src.resolv_conf) src.globaldns_conf)
          (print_trivalent_doh_status src.trivalent_conf)))
