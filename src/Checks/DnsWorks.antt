-- ===== src/Checks/DnsWorks.antt =====
-- From `set-global` of the DNS worker to the verdict of the DNS check of the audit.
use secureblue.Base.{ℕ}
use secureblue.Base.{◌≡◌, refl, sym, ap, ◌∙◌}
use secureblue.Base.{Bool, true, false, not, ◌&&◌, ◌||◌, if◌then◌else◌}
use secureblue.Base.{Option, none, some, List, [], ◌∷◌, ◌++◌}
use secureblue.Base.{◌==◌, nat_eq, string_eq, list_eq, list_beq}
use secureblue.Base.{all}
use secureblue.Base.Exec.{ok}
use secureblue.Base.{Str, codes, strip}
use secureblue.Dns.Settings.{dnssec_status}
use secureblue.Dns.Status.{
  unbound, Reading, absent, read, policy, Readers, Sources, detect, print_all_status,
  print_current_resolver, print_dnssec_status, dnssec_line, global_dns_line, global_dns_status,
  server_lines, doh_lines, loaded_lines, domain_lines, global_dns_lines, print_nm_globaldns_status,
  print_trivalent_doh_status, and_then,
}
use secureblue.Dns.World.{World, nm_globaldns_conf_path, dnsconfd_conf_path, trivalent_policy_path}
use secureblue.Dns.Settings.{newline, globaldns_config, trivalent_policy}
use secureblue.Dns.Worker.{is_unbound, set_global, get_current, main}
use mathlib.Core.Path.{subst}
use secureblue.Dns.Status.{print_current_resolver}
use secureblue.Base.Lines.{unlines, is_line}
use secureblue.Systemd.{Systemctl}
use secureblue.Dns.Actions.{StopsOnly}
use secureblue.Dns.Written.{content_at, main-IsConfigured}
use secureblue.Checks.State.{is_pass}
use secureblue.Checks.Network.{DnsFlags, dns_flags, dns_steps, dns_report}
use secureblue.Checks.DnsPasses.{wanted_dns, dns_report-passes}
use secureblue.Checks.DnsStatus.{other_key}
use secureblue.Checks.DnsAgrees.{
  shown_servers, configured_flags, global_on, doh_on, print_all_status-dns_flags,
}
use secureblue.Checks.DnsLines.{dnssec_on, loaded_on}

abbrev pub reading_of : Option Str → Reading
reading_of none = absent
reading_of (some content) = read content

-- What the status is read from, given the lines of resolv.conf.
abbrev pub sources_of : {U : Type 0} → Option (List Str) → World U → Sources
sources_of resolv_conf w = record {
  resolv_conf = resolv_conf;
  dnsconfd_conf = reading_of (content_at dnsconfd_conf_path w);
  globaldns_conf = reading_of (content_at nm_globaldns_conf_path w);
  trivalent_conf = reading_of (content_at trivalent_policy_path w);
}

-- `configparser` and `json` read what the worker wrote: the sections with their values, and the two
-- entries of the policy.
pub record ReadsBack (readers : Readers) (servers doh_url : Str) : Type 0 where
  pub parsed : readers.Parsed
  pub parses : readers.read_config (globaldns_config servers ++ newline) ≡ some parsed
  pub has_global : readers.has_section parsed (codes "global-dns") ≡ true
  pub mode :
      readers.config_get parsed (codes "global-dns") (codes "resolve-mode")
      ≡ some (some (codes "exclusive"))
  pub has_domain : readers.has_section parsed (codes "global-dns-domain-*") ≡ true
  pub servers_back :
      readers.config_get parsed (codes "global-dns-domain-*") (codes "servers")
      ≡ some (some servers)
  pub policy_back :
      readers.load_policy (trivalent_policy doh_url ++ newline)
      ≡ policy (some (codes "secure")) (some doh_url)

-- The lines that the selector then prints.
abbrev pub status_lines : Bool → Str → Str → List Str
status_lines dnssec_enabled servers doh_url =
    codes "DNS Resolver: Unbound"
    ∷ dnssec_line dnssec_enabled
    ∷ global_dns_line true
    ∷ (server_lines servers ++ doh_lines (some (codes "secure")) (some doh_url))

dnssec_reading :
    (dnssec_enabled : Bool)
    → print_dnssec_status (some unbound) (
        reading_of (if dnssec_enabled then some (codes "dnssec_enabled: yes" ++ newline) else none))
      ≡ some (dnssec_line dnssec_enabled ∷ [])
unfolding print_dnssec_status dnssec_status
dnssec_reading true = refl
dnssec_reading false = refl

module _ (readers : Readers) (servers doh_url : Str)
    (back : ReadsBack readers servers doh_url) where
  domain_back : domain_lines readers back.parsed ≡ some (server_lines servers)
  unfolding domain_lines server_lines
  domain_back = rw (domain_lines, back.has_domain, back.servers_back) refl

  global_back :
      global_dns_lines readers back.parsed ≡ some (global_dns_line true ∷ server_lines servers)
  unfolding global_dns_lines global_dns_line server_lines
  global_back =
      rw (global_dns_lines, back.has_global, back.mode, domain_back)
        (unfold and_then global_dns_status in refl)

  global_reading :
      print_nm_globaldns_status readers (some unbound) (read (globaldns_config servers ++ newline))
      ≡ some (global_dns_line true ∷ server_lines servers)
  unfolding print_nm_globaldns_status
  global_reading = rw (print_nm_globaldns_status, back.parses) global_back

  of_empty :
      (url : Str)
      → url ≡ doh_url
      → print_trivalent_doh_status readers
          (reading_of (if url == [] then none else some (trivalent_policy url ++ newline)))
        ≡ some (doh_lines (some (codes "secure")) (some url))
  unfolding print_trivalent_doh_status doh_lines list_beq
  of_empty [] e = refl
  of_empty (c ∷ url) e =
      let loaded : readers.load_policy (trivalent_policy (c ∷ url) ++ newline)
          ≡ policy (some (codes "secure")) (some (c ∷ url)) =
        subst
          (λ x.
            readers.load_policy (trivalent_policy x ++ newline)
            ≡ policy (some (codes "secure")) (some x))
          (sym e) back.policy_back in
      ap loaded_lines loaded ∙ (unfold loaded_lines in refl)

  doh_reading :
      print_trivalent_doh_status readers
        (reading_of (if doh_url == [] then none else some (trivalent_policy doh_url ++ newline)))
      ≡ some (doh_lines (some (codes "secure")) (some doh_url))
  doh_reading = of_empty doh_url refl

  -- The sources after such a run.
  written : Option (List Str) → Bool → Sources
  written resolv_conf dnssec_enabled = record {
    resolv_conf = resolv_conf;
    dnsconfd_conf =
        reading_of (if dnssec_enabled then some (codes "dnssec_enabled: yes" ++ newline) else none);
    globaldns_conf = read (globaldns_config servers ++ newline);
    trivalent_conf =
        reading_of (if doh_url == [] then none else some (trivalent_policy doh_url ++ newline));
  }

  written-status :
      (resolv_conf : Option (List Str)) (dnssec_enabled : Bool)
      → detect resolv_conf ≡ some unbound
      → print_all_status readers (written resolv_conf dnssec_enabled)
        ≡ some (status_lines dnssec_enabled servers doh_url)
  unfolding written print_all_status
  written-status resolv_conf dnssec_enabled found =
      rw (found, dnssec_reading dnssec_enabled, global_reading, doh_reading)
        (unfold and_then print_current_resolver in refl)

  abbrev written_flags : Bool → DnsFlags
  written_flags dnssec_enabled = record {
    global_dns = true;
    dnssec = dnssec_enabled;
    trivalent_doh = not (doh_url == []);
    unbound = true;
  }

  global_flag : global_on readers (read (globaldns_config servers ++ newline)) ≡ true
  unfolding list_beq
  global_flag = rw (back.parses, back.has_global, back.mode) refl

  dnssec_flag :
      (dnssec_enabled : Bool)
      → dnssec_on (
          reading_of
            (if dnssec_enabled then some (codes "dnssec_enabled: yes" ++ newline) else none))
        ≡ dnssec_enabled
  unfolding dnssec_status
  dnssec_flag true = refl
  dnssec_flag false = refl

  doh_flag_at :
      (url : Str)
      → url ≡ doh_url
      → doh_on readers
          (reading_of (if url == [] then none else some (trivalent_policy url ++ newline)))
        ≡ not (url == [])
  unfolding list_beq
  doh_flag_at [] e = refl
  doh_flag_at (c ∷ url) e =
      let loaded : readers.load_policy (trivalent_policy (c ∷ url) ++ newline)
          ≡ policy (some (codes "secure")) (some (c ∷ url)) =
        subst
          (λ x.
            readers.load_policy (trivalent_policy x ++ newline)
            ≡ policy (some (codes "secure")) (some x))
          (sym e) back.policy_back in
      ap loaded_on loaded

  written-flags :
      (resolv_conf : Option (List Str)) (dnssec_enabled : Bool)
      → configured_flags readers unbound (written resolv_conf dnssec_enabled)
        ≡ written_flags dnssec_enabled
  unfolding written
  written-flags resolv_conf dnssec_enabled =
      rw (global_flag, dnssec_flag dnssec_enabled, doh_flag_at doh_url refl) refl

  -- The verdict on the lines that are printed.
  written-verdict :
      (resolv_conf : Option (List Str)) (dnssec_enabled desktop using_vpn : Bool)
      → detect resolv_conf ≡ some unbound
      → all is_line (status_lines dnssec_enabled servers doh_url) ≡ true
      → all other_key (server_lines servers) ≡ true
      → is_pass
          (dns_report (
            dns_steps
              (dns_flags (strip (unlines (status_lines dnssec_enabled servers doh_url))))
              desktop
              using_vpn)).status
        ≡ (dnssec_enabled && (not (doh_url == []) || not desktop))
  written-verdict resolv_conf dnssec_enabled desktop using_vpn found lines others =
      let out = strip (unlines (status_lines dnssec_enabled servers doh_url)) in
      let shown : shown_servers readers (written resolv_conf dnssec_enabled).globaldns_conf
          ≡ server_lines servers =
        unfold written in rw (back.parses, domain_back) refl in
      let flags : dns_flags out ≡ written_flags dnssec_enabled =
        print_all_status-dns_flags readers unbound (written resolv_conf dnssec_enabled)
          (status_lines dnssec_enabled servers doh_url) (unfold written in found)
          (written-status resolv_conf dnssec_enabled found) lines
          (ap (all other_key) shown ∙ others)
        ∙ written-flags resolv_conf dnssec_enabled in
      (dns_report-passes (dns_flags out) desktop using_vpn).0 ∙ ap (λ f. wanted_dns f desktop) flags

-- Let the worker return from `set-global` with Unbound as the current resolver, let it have been given
-- servers, and let the parsers read back what it wrote. If resolv.conf then names Unbound,
-- `dns-selector status` prints the resolver, the DNSSEC setting, global DNS as enabled with the
-- servers, and DNS over HTTPS with its endpoint if it was given one; and where none of these lines
-- has a line break or a blank at its end, and no server reads as one of the keys of the check, the DNS
-- check of the audit passes exactly if DNSSEC was asked for and, on a desktop, an endpoint was given.
pub set_global-audit_dns :
    (ctl : Systemctl) (law : StopsOnly ctl) (uid : Option ℕ) (readers : Readers) (c : ℕ)
    (s doh_url : Str) (back : ReadsBack readers (c ∷ s) doh_url) (resolv_conf : Option (List Str))
    (dnssec_enabled desktop using_vpn : Bool) (w t : World ctl.Units)
    → is_unbound (get_current ctl uid w) ≡ true
    → main ctl uid (set_global (c ∷ s) dnssec_enabled doh_url) w ≡ (ok tt, t)
    → detect resolv_conf ≡ some unbound
    → all is_line (status_lines dnssec_enabled (c ∷ s) doh_url) ≡ true
    → all other_key (server_lines (c ∷ s)) ≡ true
    → (print_all_status readers (sources_of resolv_conf t)
        ≡ some (status_lines dnssec_enabled (c ∷ s) doh_url))
      × (is_pass
            (dns_report (
              dns_steps
                (dns_flags (strip (unlines (status_lines dnssec_enabled (c ∷ s) doh_url))))
                desktop
                using_vpn)).status
          ≡ (dnssec_enabled && (not (doh_url == []) || not desktop)))
set_global-audit_dns ctl law uid readers c s doh_url back resolv_conf dnssec_enabled desktop
      using_vpn w t it_is ran found lines others =
    let (e1, e2, e3) = main-IsConfigured ctl law uid (c ∷ s) dnssec_enabled doh_url w t it_is ran in
    let same : sources_of resolv_conf t
        ≡ written readers (c ∷ s) doh_url back resolv_conf dnssec_enabled =
      unfold written list_beq in rw (e1, e2, e3) refl in
    (
      ap (print_all_status readers) same
          ∙ written-status readers (c ∷ s) doh_url back resolv_conf dnssec_enabled found,
      written-verdict readers (c ∷ s) doh_url back resolv_conf dnssec_enabled desktop using_vpn
          found lines others,
    )
