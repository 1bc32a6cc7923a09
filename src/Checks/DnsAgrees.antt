-- ===== src/Checks/DnsAgrees.antt =====
-- The flags that the DNS check reads are those of the state that `dns_selector.py status` is shown for.
use secureblue.Base.{ℕ}
use secureblue.Base.{◌≡◌, refl, sym, ap, ◌∙◌}
use secureblue.Base.{Bool, true, false, ◌&&◌}
use secureblue.Base.{Option, none, some, List, [], ◌∷◌, ◌++◌, String}
use secureblue.Base.{◌==◌, nat_eq, string_eq, list_eq}
use secureblue.Base.{all}
use secureblue.Base.Dict
use secureblue.Base.Dict.{Dict}
use secureblue.Base.{Str, codes, strip, is_space, split_lines}
use mathlib.Core.Path.{subst}
use mathlib.Core.Option.{some-injective}
use secureblue.Dns.Status.{
  EffectiveResolver, unbound, resolved, unknown, Reading, absent, unreadable, read, Readers,
  Sources, detect, Printed, print_all_status, print_current_resolver, print_dnssec_status,
  domain_lines, global_dns_lines, print_nm_globaldns_status, print_trivalent_doh_status, and_then,
}
use secureblue.Base.Lines.{unlines, is_line, split_lines-strip}
use secureblue.Checks.Network.{status_flags, flag_is, DnsFlags, dns_flags}
use secureblue.Checks.DnsStatus.{last_value, last_value-append, lookup-status_flags, other_key}
use secureblue.Dns.Status.{is_effective_unbound}
use secureblue.Checks.DnsLines.{
  g, d, t, u, is_value, dnssec_on, is_exclusive, loaded_on, resolver_part, dnssec_part,
  doh_line_part, global_line_part, loaded_part, lines_in, global_lines_part,
}

and_then-some :
    (p q : Printed) (ls : List Str)
    → and_then p q ≡ some ls
    → (xs : List Str) × (ys : List Str) × (p ≡ some xs) × (q ≡ some ys) × (xs ++ ys ≡ ls)
unfolding and_then
and_then-some none q ls h = cc
and_then-some (some xs) none ls h = cc
and_then-some (some xs) (some ys) ls h = (xs, ys, refl, refl, some-injective _ _ h)

of_lookup :
    (o : Option Str) (value : String)
    → (elim o [ none ↦ false | some v ↦ v == codes value ]) ≡ is_value o value
of_lookup none value = refl
of_lookup (some v) value = refl

resolver_line :
    (c : ℕ) (l : Str) (l1 rest ls : List Str)
    → is_space c ≡ false
    → (c ∷ l) ∷ [] ≡ l1
    → l1 ++ rest ≡ ls
    → all is_line ls ≡ true
    → split_lines (strip (unlines ls)) ≡ ls
resolver_line c l l1 rest ls e h w k =
    let same : (c ∷ l) ∷ rest ≡ ls = ap (λ m. m ++ rest) h ∙ w in
    subst (λ m. split_lines (strip (unlines m)) ≡ m) same
      (split_lines-strip c l rest e (ap (λ m. all is_line m) same ∙ k))

module _ (readers : Readers) where
  open readers use {Parsed, read_config, has_section, config_get, load_policy}

  abbrev config_global_on : Option Parsed → Bool
  config_global_on none = false
  config_global_on (some nm) =
      has_section nm (codes "global-dns")
      && is_exclusive (config_get nm (codes "global-dns") (codes "resolve-mode"))

  abbrev pub global_on : Reading → Bool
  global_on absent = false
  global_on unreadable = false
  global_on (read content) = config_global_on (read_config content)

  abbrev pub doh_on : Reading → Bool
  doh_on absent = false
  doh_on unreadable = false
  doh_on (read content) = loaded_on (load_policy content)

  -- The lines of the servers, where they are shown.
  abbrev config_servers : Option Parsed → List Str
  config_servers none = []
  config_servers (some nm) = lines_in (domain_lines readers nm)

  abbrev pub shown_servers : Reading → List Str
  shown_servers absent = []
  shown_servers unreadable = []
  shown_servers (read content) = config_servers (read_config content)

  -- The flags of a state: what its files configure, with DNSSEC and global DNS for Unbound only.
  abbrev pub configured_flags : EffectiveResolver → Sources → DnsFlags
  configured_flags r src = record {
    global_dns = is_effective_unbound r && global_on src.globaldns_conf;
    dnssec = is_effective_unbound r && dnssec_on src.dnsconfd_conf;
    trivalent_doh = doh_on src.trivalent_conf;
    unbound = is_effective_unbound r;
  }

  GlobalPart : EffectiveResolver → Reading → List Str → Option Str → Option Str → Type 0
  GlobalPart r conf ls dv uv =
      (last_value t ls none ≡ none)
      × (last_value d ls dv ≡ dv)
      × (last_value u ls uv ≡ uv)
      × (is_value (last_value g ls none) "enabled" ≡ (is_effective_unbound r && global_on conf))

  config_part :
      (parsed : Option Parsed) (content : Str) (ls : List Str) (dv uv : Option Str)
      → read_config content ≡ parsed
      → (elim parsed [ none ↦ none | some nm ↦ global_dns_lines readers nm ]) ≡ some ls
      → all other_key (config_servers parsed) ≡ true
      → GlobalPart unbound (read content) ls dv uv
  unfolding GlobalPart global_dns_lines
  config_part none content ls dv uv e h k = cc
  config_part (some nm) content ls dv uv e h k = rw e (
      global_lines_part (has_section nm (codes "global-dns"))
        (config_get nm (codes "global-dns") (codes "resolve-mode")) (domain_lines readers nm) ls dv
        uv h k)

  globaldns_part :
      (r : EffectiveResolver) (conf : Reading) (ls : List Str) (dv uv : Option Str)
      → print_nm_globaldns_status readers (some r) conf ≡ some ls
      → all other_key (shown_servers conf) ≡ true
      → GlobalPart r conf ls dv uv
  unfolding GlobalPart print_nm_globaldns_status last_value
  globaldns_part unbound absent ls dv uv h k =
      rw (sym (some-injective _ _ h)) (global_line_part false [] dv uv (unfold all in refl))
  globaldns_part unbound unreadable ls dv uv h k =
      rw (sym (some-injective _ _ h)) (global_line_part false [] dv uv (unfold all in refl))
  globaldns_part unbound (read content) ls dv uv h k =
      config_part (read_config content) content ls dv uv refl h k
  globaldns_part resolved conf ls dv uv h k =
      rw (sym (some-injective _ _ h)) (refl, refl, refl, refl)
  globaldns_part unknown conf ls dv uv h k =
      rw (sym (some-injective _ _ h)) (refl, refl, refl, refl)

  trivalent_part :
      (conf : Reading) (ls : List Str) (gv dv uv : Option Str)
      → print_trivalent_doh_status readers conf ≡ some ls
      → (last_value g ls gv ≡ gv)
        × (last_value d ls dv ≡ dv)
        × (last_value u ls uv ≡ uv)
        × (is_value (last_value t ls none) "enabled" ≡ doh_on conf)
  unfolding print_trivalent_doh_status last_value
  trivalent_part absent ls gv dv uv h =
      rw (sym (some-injective _ _ h)) (doh_line_part false [] gv dv uv (unfold all in refl))
  trivalent_part unreadable ls gv dv uv h = rw (sym (some-injective _ _ h)) (refl, refl, refl, refl)
  trivalent_part (read content) ls gv dv uv h = loaded_part (load_policy content) ls gv dv uv h

  last_value-four :
      (name : Str) (l1 l2 l3 l4 : List Str)
      → last_value name (l1 ++ (l2 ++ (l3 ++ l4))) none
        ≡ last_value name l4 (last_value name l3 (last_value name l2 (last_value name l1 none)))
  last_value-four name l1 l2 l3 l4 =
      last_value-append name l1 (l2 ++ (l3 ++ l4)) none
      ∙ last_value-append name l2 (l3 ++ l4) (last_value name l1 none)
      ∙ last_value-append name l3 l4 (last_value name l2 (last_value name l1 none))

  -- The values that the four parts leave together.
  AllValues : EffectiveResolver → Sources → List Str → Type 0
  AllValues r src ls =
      (is_value (last_value g ls none) "enabled"
        ≡ (is_effective_unbound r && global_on src.globaldns_conf))
      × (is_value (last_value d ls none) "enabled"
          ≡ (is_effective_unbound r && dnssec_on src.dnsconfd_conf))
      × (is_value (last_value t ls none) "enabled" ≡ doh_on src.trivalent_conf)
      × (is_value (last_value u ls none) "Unbound" ≡ is_effective_unbound r)

  parts-AllValues :
      (r : EffectiveResolver) (src : Sources) (l1 l2 l3 l4 : List Str)
      → print_current_resolver (some r) ≡ some l1
      → print_dnssec_status (some r) src.dnsconfd_conf ≡ some l2
      → print_nm_globaldns_status readers (some r) src.globaldns_conf ≡ some l3
      → print_trivalent_doh_status readers src.trivalent_conf ≡ some l4
      → all other_key (shown_servers src.globaldns_conf) ≡ true
      → AllValues r src (l1 ++ (l2 ++ (l3 ++ l4)))
  unfolding AllValues GlobalPart
  parts-AllValues r src l1 l2 l3 l4 h1 h2 h3 h4 k =
      let u1 = last_value u l1 none in
      let (g1, d1, t1, own_u) = resolver_part r l1 h1 in
      let (g2, t2, u2, own_d) = dnssec_part r src.dnsconfd_conf l2 u1 h2 in
      let dv = last_value d l2 none in
      let (t3, d3, u3, own_g) = globaldns_part r src.globaldns_conf l3 dv u1 h3 k in
      let gv = last_value g l3 none in
      let (g4, d4, u4, own_t) = trivalent_part src.trivalent_conf l4 gv dv u1 h4 in
      (
        rw (last_value-four g l1 l2 l3 l4, g1, g2, g4) own_g,
        rw (last_value-four d l1 l2 l3 l4, d1, d3, d4) own_d,
        rw (last_value-four t l1 l2 l3 l4, t1, t2, t3) own_t,
        rw (last_value-four u l1 l2 l3 l4, u2, u3, u4) own_u,
      )

  is_value-lookup :
      (key value : String) (ls : List Str)
      → flag_is (status_flags ls []) key value ≡ is_value (last_value (codes key) ls none) value
  unfolding flag_is
  is_value-lookup key value ls =
      of_lookup (Dict.lookup (codes key) (status_flags ls [])) value
      ∙ ap (λ v. is_value v value) (lookup-status_flags (codes key) ls [])

  values-flags :
      (r : EffectiveResolver) (src : Sources) (ls : List Str) (text : Str)
      → split_lines text ≡ ls
      → AllValues r src ls
      → dns_flags text ≡ configured_flags r src
  unfolding dns_flags AllValues
  values-flags r src ls text e (own_g, own_d, own_t, own_u) =
      rw
        (
          e,
          is_value-lookup "Global DNS" "enabled" ls ∙ own_g,
          is_value-lookup "DNSSEC" "enabled" ls ∙ own_d,
          is_value-lookup "Trivalent DoH" "enabled" ls ∙ own_t,
          is_value-lookup "DNS Resolver" "Unbound" ls ∙ own_u,
        )
        refl

  printed-split :
      (r : EffectiveResolver) (l1 rest ls : List Str)
      → print_current_resolver (some r) ≡ some l1
      → l1 ++ rest ≡ ls
      → all is_line ls ≡ true
      → split_lines (strip (unlines ls)) ≡ ls
  unfolding print_current_resolver is_space
  printed-split unbound l1 rest ls h e k =
      resolver_line _ _ l1 rest ls refl (some-injective _ _ h) e k
  printed-split resolved l1 rest ls h e k =
      resolver_line _ _ l1 rest ls refl (some-injective _ _ h) e k
  printed-split unknown l1 rest ls h e k =
      resolver_line _ _ l1 rest ls refl (some-injective _ _ h) e k

  -- Where the resolver is found, the lines that `dns-selector status` prints hold no line break, none
  -- is empty or ends in a blank, and no server that is shown reads as one of the four keys: the
  -- DNS check of the audit reads from the stripped output just what the files configure, with DNSSEC and
  -- global DNS only under Unbound.
  pub print_all_status-dns_flags :
      (r : EffectiveResolver) (src : Sources) (ls : List Str)
      → detect src.resolv_conf ≡ some r
      → print_all_status readers src ≡ some ls
      → all is_line ls ≡ true
      → all other_key (shown_servers src.globaldns_conf) ≡ true
      → dns_flags (strip (unlines ls)) ≡ configured_flags r src
  unfolding print_all_status
  print_all_status-dns_flags r src ls found h lines others =
      let current = λ (o : Option EffectiveResolver). and_then (print_current_resolver o) (
        and_then (print_dnssec_status o src.dnsconfd_conf) (
          and_then (print_nm_globaldns_status readers o src.globaldns_conf)
            (print_trivalent_doh_status readers src.trivalent_conf))) in
      let (l1, m1, h1, k1, e1) = and_then-some _ _ ls (sym (ap current found) ∙ h) in
      let (l2, m2, h2, k2, e2) = and_then-some _ _ m1 k1 in
      let (l3, l4, h3, h4, e3) = and_then-some _ _ m2 k2 in
      let whole : l1 ++ (l2 ++ (l3 ++ l4)) ≡ ls =
        ap (λ m. l1 ++ (l2 ++ m)) e3 ∙ (ap (λ m. l1 ++ m) e2 ∙ e1) in
      values-flags r src ls (strip (unlines ls)) (printed-split r l1 m1 ls h1 e1 lines) (
        subst (λ m. AllValues r src m) whole (parts-AllValues r src l1 l2 l3 l4 h1 h2 h3 h4 others))
