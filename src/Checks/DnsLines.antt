-- ===== src/Checks/DnsLines.antt =====
-- The values that each part of what `dns_selector.py status` prints gives the keys of the DNS check.
use secureblue.Base.{◌≡◌, refl, sym, ap}
use secureblue.Base.{Bool, true, false, ◌&&◌, if◌then◌else◌}
use secureblue.Base.{Option, none, some, List, [], ◌∷◌, ◌++◌, String}
use secureblue.Base.{◌==◌, nat_eq, string_eq, list_eq, list_beq, contains}
use secureblue.Base.{all}
use secureblue.Base.{Str, codes, strip}
use secureblue.Base.Words.{partition}
use mathlib.Core.Option.{some-injective}
use secureblue.Dns.Settings.{dnssec_status}
use secureblue.Dns.Status.{
  EffectiveResolver, unbound, resolved, unknown, Reading, absent, unreadable, read, Loaded, invalid,
  no_object, policy, Printed, print_current_resolver, print_dnssec_status, dnssec_line,
  global_dns_line, global_dns_status, doh_line, doh_lines, loaded_lines, and_then,
}
use secureblue.Checks.DnsStatus.{last_value, value_at, last_value-other, other_key, flag_names}
use secureblue.Dns.Status.{is_effective_unbound}

abbrev pub g : Str
g = codes "Global DNS"

abbrev pub d : Str
d = codes "DNSSEC"

abbrev pub t : Str
t = codes "Trivalent DoH"

abbrev pub u : Str
u = codes "DNS Resolver"

abbrev pub is_value : Option Str → String → Bool
is_value none value = false
is_value (some v) value = v == codes value

abbrev pub dnssec_on : Reading → Bool
dnssec_on absent = false
dnssec_on unreadable = false
dnssec_on (read content) = dnssec_status (some content)

abbrev pub is_exclusive : Option (Option Str) → Bool
is_exclusive none = false
is_exclusive (some none) = false
is_exclusive (some (some mode)) = mode == codes "exclusive"

abbrev pub is_secure : Option Str → Option Str → Bool
is_secure mode none = false
is_secure mode (some []) = false
is_secure none (some (c ∷ url)) = false
is_secure (some mode) (some (c ∷ url)) = mode == codes "secure"

abbrev pub loaded_on : Loaded → Bool
loaded_on invalid = false
loaded_on no_object = false
loaded_on (policy mode endpoint) = is_secure mode endpoint

pub resolver_part :
    (r : EffectiveResolver) (ls : List Str)
    → print_current_resolver (some r) ≡ some ls
    → (last_value g ls none ≡ none)
      × (last_value d ls none ≡ none)
      × (last_value t ls none ≡ none)
      × (is_value (last_value u ls none) "Unbound" ≡ is_effective_unbound r)
unfolding print_current_resolver last_value
resolver_part unbound ls h = rw (sym (some-injective _ _ h)) (refl, refl, refl, refl)
resolver_part resolved ls h = rw (sym (some-injective _ _ h)) (refl, refl, refl, refl)
resolver_part unknown ls h = rw (sym (some-injective _ _ h)) (refl, refl, refl, refl)

pub dnssec_line_part :
    (b : Bool) (current : Option Str)
    → (last_value g (dnssec_line b ∷ []) none ≡ none)
      × (last_value t (dnssec_line b ∷ []) none ≡ none)
      × (last_value u (dnssec_line b ∷ []) current ≡ current)
      × (is_value (last_value d (dnssec_line b ∷ []) none) "enabled" ≡ b)
unfolding dnssec_line last_value
dnssec_line_part true current = (refl, refl, refl, refl)
dnssec_line_part false current = (refl, refl, refl, refl)

pub dnssec_part :
    (r : EffectiveResolver) (conf : Reading) (ls : List Str) (current : Option Str)
    → print_dnssec_status (some r) conf ≡ some ls
    → (last_value g ls none ≡ none)
      × (last_value t ls none ≡ none)
      × (last_value u ls current ≡ current)
      × (is_value (last_value d ls none) "enabled" ≡ (is_effective_unbound r && dnssec_on conf))
unfolding print_dnssec_status last_value
dnssec_part unbound absent ls current h =
    rw (sym (some-injective _ _ h)) (dnssec_line_part false current)
dnssec_part unbound unreadable ls current h =
    rw (sym (some-injective _ _ h)) (refl, refl, refl, refl)
dnssec_part unbound (read content) ls current h =
    rw (sym (some-injective _ _ h)) (dnssec_line_part (dnssec_status (some content)) current)
dnssec_part resolved conf ls current h = rw (sym (some-injective _ _ h)) (refl, refl, refl, refl)
dnssec_part unknown conf ls current h = rw (sym (some-injective _ _ h)) (refl, refl, refl, refl)

-- A line before lines with other keys decides.
pub first_line :
    (name line : Str) (rest : List Str) (current : Option Str)
    → contains flag_names name ≡ true
    → all other_key rest ≡ true
    → last_value name (line ∷ rest) current ≡ value_at name line current
unfolding last_value
first_line name line rest current h k = last_value-other name rest (value_at name line current) h k

-- The values that the lines which follow the first one leave.
pub doh_line_part :
    (b : Bool) (rest : List Str) (gv dv uv : Option Str)
    → all other_key rest ≡ true
    → (last_value g (doh_line b ∷ rest) gv ≡ gv)
      × (last_value d (doh_line b ∷ rest) dv ≡ dv)
      × (last_value u (doh_line b ∷ rest) uv ≡ uv)
      × (is_value (last_value t (doh_line b ∷ rest) none) "enabled" ≡ b)
unfolding doh_line contains list_beq partition strip
doh_line_part true rest gv dv uv h = (
  first_line g (doh_line true) rest gv refl h,
  first_line d (doh_line true) rest dv refl h,
  first_line u (doh_line true) rest uv refl h,
  ap (λ v. is_value v "enabled") (first_line t (doh_line true) rest none refl h),
)
doh_line_part false rest gv dv uv h = (
  first_line g (doh_line false) rest gv refl h,
  first_line d (doh_line false) rest dv refl h,
  first_line u (doh_line false) rest uv refl h,
  ap (λ v. is_value v "enabled") (first_line t (doh_line false) rest none refl h),
)

pub global_line_part :
    (b : Bool) (rest : List Str) (dv uv : Option Str)
    → all other_key rest ≡ true
    → (last_value t (global_dns_line b ∷ rest) none ≡ none)
      × (last_value d (global_dns_line b ∷ rest) dv ≡ dv)
      × (last_value u (global_dns_line b ∷ rest) uv ≡ uv)
      × (is_value (last_value g (global_dns_line b ∷ rest) none) "enabled" ≡ b)
unfolding global_dns_line contains list_beq partition strip
global_line_part true rest dv uv h = (
  first_line t (global_dns_line true) rest none refl h,
  first_line d (global_dns_line true) rest dv refl h,
  first_line u (global_dns_line true) rest uv refl h,
  ap (λ v. is_value v "enabled") (first_line g (global_dns_line true) rest none refl h),
)
global_line_part false rest dv uv h = (
  first_line t (global_dns_line false) rest none refl h,
  first_line d (global_dns_line false) rest dv refl h,
  first_line u (global_dns_line false) rest uv refl h,
  ap (λ v. is_value v "enabled") (first_line g (global_dns_line false) rest none refl h),
)

pub endpoint_other :
    (url : Str) → all other_key ((codes "Trivalent DoH endpoint: " ++ url) ∷ []) ≡ true
unfolding all contains list_beq partition strip
endpoint_other url = refl

pub doh_lines_part :
    (mode endpoint : Option Str) (gv dv uv : Option Str)
    → (last_value g (doh_lines mode endpoint) gv ≡ gv)
      × (last_value d (doh_lines mode endpoint) dv ≡ dv)
      × (last_value u (doh_lines mode endpoint) uv ≡ uv)
      × (is_value (last_value t (doh_lines mode endpoint) none) "enabled" ≡ is_secure mode endpoint)
unfolding doh_lines all
doh_lines_part mode none gv dv uv = doh_line_part false [] gv dv uv refl
doh_lines_part mode (some []) gv dv uv = doh_line_part false [] gv dv uv refl
doh_lines_part none (some (c ∷ url)) gv dv uv =
    doh_line_part false _ gv dv uv (endpoint_other (c ∷ url))
doh_lines_part (some mode) (some (c ∷ url)) gv dv uv =
    doh_line_part (mode == codes "secure") _ gv dv uv (endpoint_other (c ∷ url))

pub loaded_part :
    (loaded : Loaded) (ls : List Str) (gv dv uv : Option Str)
    → loaded_lines loaded ≡ some ls
    → (last_value g ls gv ≡ gv)
      × (last_value d ls dv ≡ dv)
      × (last_value u ls uv ≡ uv)
      × (is_value (last_value t ls none) "enabled" ≡ loaded_on loaded)
unfolding loaded_lines last_value
loaded_part invalid ls gv dv uv h = rw (sym (some-injective _ _ h)) (refl, refl, refl, refl)
loaded_part no_object ls gv dv uv h = cc
loaded_part (policy mode endpoint) ls gv dv uv h =
    rw (sym (some-injective _ _ h)) (doh_lines_part mode endpoint gv dv uv)

abbrev pub lines_in : Printed → List Str
lines_in none = []
lines_in (some ls) = ls

-- The lines that follow `resolve-mode`, by what the sections and `get` give.
pub global_lines_part :
    (has : Bool) (mode : Option (Option Str)) (domain : Printed) (ls : List Str)
    (dv uv : Option Str)
    → (if has
        then elim mode [ none ↦ none | some m ↦ and_then (some (global_dns_status m ∷ [])) domain ]
        else some (global_dns_line false ∷ []))
      ≡ some ls
    → all other_key (lines_in domain) ≡ true
    → (last_value t ls none ≡ none)
      × (last_value d ls dv ≡ dv)
      × (last_value u ls uv ≡ uv)
      × (is_value (last_value g ls none) "enabled" ≡ (has && is_exclusive mode))
unfolding and_then global_dns_status all
global_lines_part false mode domain ls dv uv h k =
    rw (sym (some-injective _ _ h)) (global_line_part false [] dv uv refl)
global_lines_part true none domain ls dv uv h k = cc
global_lines_part true (some mode) none ls dv uv h k = cc
global_lines_part true (some none) (some servers) ls dv uv h k =
    rw (sym (some-injective _ _ h)) (global_line_part false servers dv uv k)
global_lines_part true (some (some mode)) (some servers) ls dv uv h k =
    rw (sym (some-injective _ _ h)) (global_line_part (mode == codes "exclusive") servers dv uv k)
