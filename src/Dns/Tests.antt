-- ===== src/Dns/Tests.antt =====
-- The DNS worker on a concrete systemctl.
use secureblue.Base.{arith}
use secureblue.Base.{◌≡◌, refl, ap, ◌≢◌}
use secureblue.Base.{Bool, true, false}
use secureblue.Base.{some, []}
use secureblue.Base.{◌==◌, nat_eq, string_eq, list_eq}
use secureblue.Base.Exec.{ok}
use secureblue.Base.{Str, codes}
use secureblue.Base.{all, list_beq, List, ◌∷◌}
use secureblue.Utils.Ask.{Entered, typed}
use secureblue.Dns.Worker.{restart, is_unbound}
use secureblue.Dns.Settings.{set_global_nm_servers, set_trivalent_doh_endpoint}
use secureblue.Dns.Written.{IsConfigured, main-IsConfigured}
use secureblue.Dns.Questions.{Parsers, Provider, run_interactive}
use secureblue.Dns.Outcome.{Outcome}
use secureblue.Dns.Choices.{provider_ok}
use secureblue.Dns.Requests.{Requested, run_interactive-Requested}
use secureblue.Base.{none, ℕ, if◌then◌else◌}
use secureblue.Base.{◌<>◌}
use secureblue.Dns.Settings.{dnssec_status, globaldns_config}
use secureblue.Dns.Worker.{set_dnssec}
use secureblue.Dns.Status.{
  print_current_resolver, print_dnssec_status, print_nm_globaldns_status,
  print_trivalent_doh_status,
}
use secureblue.Dns.Status.{Readers, read, absent, invalid}
use secureblue.Dns.Selector
use secureblue.Dns.Selector.{Machine}
use secureblue.Dns.Shows.{Shows, main-Shows}
use secureblue.Dns.World.{World, missing, act, unlink, set_resolv_conf}
use secureblue.Dns.Worker.{resolved, Command}
use secureblue.Dns.Worker.{set_global, set_trivalent_doh, get_current}
use secureblue.Dns.Worker.{set_resolver, configure, main}
use secureblue.Dns.Resolver.{set_resolver-get_current}
use secureblue.Dns.Restart.{Finished, main_active}
use secureblue.Dns.Settings.{set_dnssec_enabled}
use secureblue.Systemd.Sample.{Units, systemctl}
use secureblue.Dns.Sample.{sample-StopsOnly, sample-StartsManager, sample-SwitchesResolver}

abbrev booted : World Units
booted = record {
  units = record {
    enabled = λ unit. unit == "systemd-resolved.service";
    active = λ unit. true;
    masked = λ unit. false;
  };
  files = [];
  resolv_conf = missing;
}

abbrev resolver_set : World Units
resolver_set = (set_resolver systemctl (some 988) resolved booted).1

resolver_set-eq : set_resolver systemctl (some 988) resolved booted ≡ (ok tt, resolver_set)
unfolding set_resolver act unlink set_resolv_conf
resolver_set-eq = refl

set_resolver-get_current_example : get_current systemctl (some 988) resolver_set ≡ resolved
set_resolver-get_current_example =
    set_resolver-get_current systemctl sample-SwitchesResolver (some 988) resolved booted
      resolver_set resolver_set-eq

abbrev global : Command
global = set_global (codes "9.9.9.9") true []

abbrev global_set : World Units
global_set = (main systemctl (some 988) global booted).1

global_set-eq : main systemctl (some 988) global booted ≡ (ok tt, global_set)
unfolding main act configure
global_set-eq = refl

abbrev is_doh : Command → Bool
is_doh (set_trivalent_doh url) = true
is_doh _ = false

global-not-doh : (url : Str) → global ≢ set_trivalent_doh url
global-not-doh url h = let e : false ≡ true = ap is_doh h in ground (arith, e)

main_active_example :
    Finished systemctl sample-StopsOnly sample-StartsManager (some 988) global booted global_set
main_active_example =
    main_active systemctl sample-StopsOnly sample-StartsManager (some 988) global booted global_set
      global-not-doh global_set-eq

abbrev on_unbound : World Units
on_unbound = record {
  units = record {
    enabled = λ unit. unit == "dnsconfd.service";
    active = λ unit. true;
    masked = λ unit. false;
  };
  files = [];
  resolv_conf = missing;
}

on_unbound-current : is_unbound (get_current systemctl (some 988) on_unbound) ≡ true
unfolding get_current
on_unbound-current = refl

abbrev global_written : World Units
global_written =
    (main systemctl (some 988) (set_global (codes "dns+tls://9.9.9.9") true []) on_unbound).1

global_written-eq :
    main systemctl (some 988) (set_global (codes "dns+tls://9.9.9.9") true []) on_unbound
    ≡ (ok tt, global_written)
unfolding main act configure set_global_nm_servers set_dnssec_enabled set_trivalent_doh_endpoint
    restart
global_written-eq = refl

main-IsConfigured_example : IsConfigured (codes "dns+tls://9.9.9.9") true [] global_written
main-IsConfigured_example =
    main-IsConfigured systemctl sample-StopsOnly (some 988) (codes "dns+tls://9.9.9.9") true []
      on_unbound global_written on_unbound-current global_written-eq

-- A provider with one server, and an `urlparse` that knows one URL.
abbrev quad9 : Provider
quad9 = record {
  servers =
      record {
        ipv4 = codes "dns+tls://9.9.9.9#dns.quad9.net" ∷ [];
        ipv6 = [];
        https = some (codes "https://dns.quad9.net/dns-query");
      }
      ∷ [];
}

abbrev parsers : Parsers
parsers = record {
  is_ipv4 = λ s. s == codes "9.9.9.9";
  is_ipv6 = λ s. s == codes "2620:fe::fe";
  urlparse = λ s. some (codes "https", s);
}

quad9_ok : all (provider_ok parsers) (quad9 ∷ []) ≡ true
unfolding all list_beq
quad9_ok = refl

-- Trivalent, enable, the first provider
abbrev session : List Entered
session = typed (codes "2") ∷ typed (codes "1") ∷ typed (codes "1") ∷ []

session_request :
    run_interactive parsers (quad9 ∷ []) false session
    ≡ (ok (some (set_trivalent_doh (codes "https://dns.quad9.net/dns-query"))), [])
unfolding run_interactive
session_request = refl

run_interactive-Requested_example :
    Outcome (Requested parsers false) (run_interactive parsers (quad9 ∷ []) false session).0
run_interactive-Requested_example =
    run_interactive-Requested parsers (quad9 ∷ []) false session quad9_ok

-- A machine on Unbound, whose state is the DNSSEC setting.
abbrev switched_by : Command → Bool → ℕ × Bool
switched_by (set_dnssec dnssec_enabled) host = (0, dnssec_enabled)
switched_by _ host = (1, host)

abbrev machine : Machine
machine = record {
  Host = Bool;
  sources = λ host. record {
    resolv_conf = some (codes "nameserver 127.0.0.1" ∷ []);
    dnsconfd_conf = if host then read (codes "dnssec_enabled: yes") else absent;
    globaldns_conf = absent;
    trivalent_conf = absent;
  };
  run = switched_by;
}

abbrev no_readers : Readers
no_readers = record {
  Parsed = Unit {0};
  read_config = λ content. none;
  has_section = λ nm section. false;
  config_get = λ nm section key. none;
  load_policy = λ content. invalid;
}

abbrev shown_lines : List Str
shown_lines =
    codes "DNS Resolver: Unbound"
    ∷ codes "DNSSEC: enabled"
    ∷ codes "Global DNS: disabled"
    ∷ codes "Trivalent DoH: disabled"
    ∷ []

dnssec_on-eq :
    Selector.main machine no_readers parsers [] (Selector.dnssec true) [] false
    ≡ (ok (0, shown_lines), true)
unfolding Selector.main dnssec_status print_current_resolver print_dnssec_status
    print_nm_globaldns_status print_trivalent_doh_status
dnssec_on-eq = refl

main-Shows_example : Shows machine no_readers parsers [] false 0 shown_lines true
main-Shows_example =
    main-Shows machine no_readers parsers [] (Selector.dnssec true) [] false true 0 shown_lines
      dnssec_on-eq

-- The template loses its indentation where the servers stand on one line, and keeps it where they do not.
one_line :
    globaldns_config (codes "1.1.1.1,9.9.9.9")
    ≡ codes "[global-dns]\nresolve-mode=exclusive\n\n[global-dns-domain-*]\nservers=1.1.1.1,9.9.9.9"
unfolding globaldns_config
one_line = refl

two_lines :
    globaldns_config (codes "1.1.1.1\n9.9.9.9")
    ≡ codes (
        "[global-dns]\n        resolve-mode=exclusive\n\n        [global-dns-domain-*]\n"
        <> "        servers=1.1.1.1\n9.9.9.9")
unfolding globaldns_config
two_lines = refl
