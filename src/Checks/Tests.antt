-- ===== src/Checks/Tests.antt =====
-- The checks at concrete inputs.
use secureblue.Base.{◌≡◌, refl}
use secureblue.Base.{true, false, not, ◌&&◌, if◌then◌else◌}
use secureblue.Base.{none, some, List, [], ◌∷◌}
use secureblue.Base.{◌==◌, nat_eq, string_eq, list_eq, list_beq, contains}
use secureblue.Base.{any, all}
use secureblue.Base.Exec.{ok}
use secureblue.Base.{Str, codes}
use secureblue.Base.{◌||◌, strip, rstrip, Option}
use secureblue.Base.Words.{partition}
use secureblue.Base.Lines.{unlines, is_line}
use secureblue.Systemd.Sample.{Units, systemctl}
use secureblue.Dns.Sample.{sample-StopsOnly}
use secureblue.Dns.World.{World, missing, act}
use secureblue.Dns.Worker.{set_global, main, configure, restart, get_current, is_unbound}
use secureblue.Dns.Settings.{set_global_nm_servers, set_dnssec_enabled, set_trivalent_doh_endpoint}
use secureblue.Dns.Status.{
  Readers, policy, detect, unbound, resolved, print_current_resolver, print_dnssec_status,
  print_nm_globaldns_status, print_trivalent_doh_status, and_then, domain_lines, print_all_status,
  dnssec_line, global_dns_line, server_lines, doh_lines,
}
use secureblue.Checks.Network.{dns_flags}
use secureblue.Checks.DnsStatus.{other_key}
use secureblue.Checks.DnsAgrees.{shown_servers, configured_flags, print_all_status-dns_flags}
use secureblue.Checks.DnsWorks.{ReadsBack, sources_of, status_lines, set_global-audit_dns}
use secureblue.Base.Dict
use secureblue.Checks.State.{AuditState, CheckError, key_error}
use secureblue.Checks.State.{Commands}
use secureblue.Auditor.Check.{generate}
use secureblue.Kargs.Build.{ostree}
use secureblue.Selinux.Ptrace.{container_only}
use secureblue.Utils.KernelCmdline.{Kargs}
use secureblue.Utils.Config.{parse_config}
use secureblue.Checks.State.{initial, is_pass, OnePasses}
use secureblue.Checks.Policy.{
  Json, Members, text, array, object, no_elements, element, no_members, member,
  ContainersPolicyAudit, TransportPolicyAudit, policy_from_data, distro_policy_file,
}
use secureblue.Checks.PolicyPasses.{transport_secure, grade_policy-passes}
use secureblue.Checks.PolicyContents.{
  policy_secure, all_secure, all_members, distinct_scopes, policy_from_data-secure,
}
use secureblue.Checks.Containers.{grade_policy, audit_container_userns, audit_ptrace}
use secureblue.Checks.Services.{
  conf_error, usbguard_report, chronyd_report, update_timer_report, podman_auto_update_report,
  audit_podman_global_auto_update, podman_global_report,
}
use secureblue.Checks.Updates.{print_report, flatpak_update_reports, brew_update_reports}
use secureblue.Checks.UnitGrades.{AllGraded, reported, services-AllGraded}
use secureblue.Checks.Kargs.{is_active, audit_kargs}
use secureblue.Checks.KargsPass.{checked_kargs, audit_kargs-passes}
use secureblue.Checks.Sysctl.{Read, content, check_sysctls, check_paths, audit_sysctl}
use secureblue.Checks.SysctlPass.{reads_ok, audit_sysctl-passes}
use secureblue.Checks.Network.{DnsFlags, dns_steps, dns_report}
use secureblue.Checks.DnsPasses.{wanted_dns, dns_report-passes}
use secureblue.Checks.Desktop.{groups_report}
use secureblue.Checks.Groups.{groups_report-Perm}
use secureblue.Checks.Depends.{
  state_after, failure_of, depends_on-userns, app_stray_key, flatpak_reports-key_error,
}
use secureblue.Checks.Flatpaks.{flatpak_report, flatpak_reports}
use secureblue.Flatpak.Permissions.{parse_flatpak_permissions}
use secureblue.Checks.Grade.{worst}
use mathlib.Core.List.Perm

-- A policy that rejects by default, with one transport that accepts anything at one scope
abbrev rejects : Json
rejects =
    array (element (object (member (codes "type") (text (codes "reject")) no_members)) no_elements)

abbrev accepts : Json
accepts = array (
    element (object (member (codes "type") (text (codes "insecureAcceptAnything")) no_members))
      no_elements)

abbrev mixed_policy : Members
mixed_policy = member (codes "default") rejects (
    member (codes "transports")
      (object (
        member (codes "docker")
          (object (member [] rejects (member (codes "ghcr.io") accepts no_members))) no_members))
      no_members)

abbrev mixed_audit : ContainersPolicyAudit
mixed_audit = record {
  default_secure = true;
  transports =
      (codes "docker", record { default_secure = true; insecure_scopes = codes "ghcr.io" ∷ [] })
      ∷ [];
}

policy_from_data-secure_example :
    (true && all_secure mixed_audit.transports) ≡ policy_secure mixed_policy
unfolding policy_from_data list_beq all all_members distinct_scopes
policy_from_data-secure_example = policy_from_data-secure mixed_policy mixed_audit refl refl

grade_policy-passes_example : is_pass (grade_policy mixed_audit distro_policy_file).0 ≡ (
    (distro_policy_file == distro_policy_file)
    && (true
        && all (λ (p : Str × TransportPolicyAudit). transport_secure p.1) mixed_audit.transports))
grade_policy-passes_example = grade_policy-passes mixed_audit distro_policy_file

-- A system on which everything is enabled and nothing has failed
abbrev healthy : Commands
healthy = record {
  succeeds = λ args. not (contains args "is-failed");
  stdout = λ args. some (codes "enabled");
}

services-AllGraded_example :
    AllGraded (
      usbguard_report healthy
      ∷ chronyd_report healthy
      ∷ update_timer_report healthy ostree conf_error
      ∷ podman_auto_update_report healthy
      ∷ print_report (codes "enabled") (codes "bad")
      ∷ [])
    × AllGraded (reported (podman_global_report healthy (some true)))
    × AllGraded (flatpak_update_reports healthy)
    × AllGraded (brew_update_reports healthy)
services-AllGraded_example =
    services-AllGraded healthy ostree conf_error (codes "enabled") (codes "bad") (some true)

abbrev active_kargs : Kargs
active_kargs = (codes "lockdown", some (codes "confidentiality")) ∷ []

audit_kargs-passes_example :
    ((generate
        (audit_kargs {E = CheckError} (codes "lockdown=confidentiality" ∷ []) (ok active_kargs))
        initial).failure
      ≡ none)
    × OnePasses
        (generate
          (audit_kargs {E = CheckError} (codes "lockdown=confidentiality" ∷ []) (ok active_kargs))
          initial).yielded
        (all (is_active active_kargs) (checked_kargs (codes "lockdown=confidentiality" ∷ [])))
audit_kargs-passes_example =
    audit_kargs-passes CheckError (codes "lockdown=confidentiality" ∷ []) active_kargs initial

abbrev sysctl_conf : List Str
sysctl_conf = codes "kernel.sysrq = 0" ∷ codes "kernel.yama.ptrace_scope = 1" ∷ []

abbrev sysctl_reads : Str → List Read
sysctl_reads sysctl =
    if sysctl == codes "kernel.sysrq"
    then content (codes "4\n") ∷ []
    else content (codes "3\n") ∷ []

audit_sysctl-passes_example :
    OnePasses
      (generate (audit_sysctl sysctl_reads sysctl_conf) initial).yielded
      (reads_ok sysctl_reads (parse_config b'=' sysctl_conf))
unfolding audit_sysctl generate list_beq check_sysctls parse_config check_paths
audit_sysctl-passes_example = audit_sysctl-passes sysctl_reads sysctl_conf initial refl

groups_report-Perm_example :
    (groups_report (codes "ann") (codes "ann" ∷ codes "docker" ∷ [])).status
    ≡ (groups_report (codes "ann") (codes "docker" ∷ codes "ann" ∷ [])).status
groups_report-Perm_example =
    groups_report-Perm (codes "ann") (codes "ann" ∷ codes "docker" ∷ [])
      (codes "docker" ∷ codes "ann" ∷ []) (Perm.swap (codes "docker") (codes "ann") [])

abbrev unbound_only : DnsFlags
unbound_only = record { global_dns = false; dnssec = true; trivalent_doh = true; unbound = true }

dns_report-passes_example :
    (is_pass (dns_report (dns_steps unbound_only true true)).status ≡ wanted_dns unbound_only true)
    × ((dns_report (dns_steps unbound_only true true)).status
        ≡ worst (dns_report (dns_steps unbound_only true true)).notes)
dns_report-passes_example = dns_report-passes unbound_only true true

depends_on-userns_example :
    (failure_of
        (audit_ptrace (ok container_only))
        (state_after (audit_container_userns healthy) initial)
      ≡ none)
    × ((state_after
          (audit_ptrace (ok container_only))
          (state_after (audit_container_userns healthy) initial)).ptrace_allowed
        ≡ some true)
    × (failure_of
          (audit_podman_global_auto_update healthy)
          (state_after (audit_container_userns healthy) initial)
        ≡ none)
unfolding audit_container_userns generate list_beq
depends_on-userns_example = depends_on-userns healthy container_only initial refl

abbrev audited : AuditState
audited = record {
  image = none;
  bluetooth_loaded = some false;
  container_userns_enabled = none;
  ptrace_allowed = some true;
}

-- What is printed of an app begins with a key.
abbrev stray_printed : Str → Str → Option Str
stray_printed name version = some (codes "shared=network;")

stray_failure :
    (flatpak_reports stray_printed audited ((codes "org.a.A", codes "stable") ∷ [])).failure
    ≡ some key_error
unfolding flatpak_reports flatpak_report parse_flatpak_permissions
stray_failure = refl

flatpak_reports-key_error_example :
    any (app_stray_key stray_printed) ((codes "org.a.A", codes "stable") ∷ []) ≡ true
flatpak_reports-key_error_example =
    flatpak_reports-key_error stray_printed audited false true
      ((codes "org.a.A", codes "stable") ∷ []) refl refl stray_failure

-- A system on Unbound, and the request for a provider with its endpoint.
abbrev on_unbound : World Units
on_unbound = record {
  units = record {
    enabled = λ unit. unit == "dnsconfd.service";
    active = λ unit. true;
    masked = λ unit. false;
  };
  files = [];
  resolv_conf = missing;
}

on_unbound-current : is_unbound (get_current systemctl (some 988) on_unbound) ≡ true
unfolding get_current
on_unbound-current = refl

abbrev quad9 : Str
quad9 = codes "dns+tls://9.9.9.9#dns.quad9.net,dns+tls://[2620:fe::fe]#dns.quad9.net"

abbrev quad9_doh : Str
quad9_doh = codes "https://dns.quad9.net/dns-query"

abbrev configured : World Units
configured = (main systemctl (some 988) (set_global quad9 true quad9_doh) on_unbound).1

configured-eq :
    main systemctl (some 988) (set_global quad9 true quad9_doh) on_unbound ≡ (ok tt, configured)
unfolding main act configure set_global_nm_servers set_dnssec_enabled set_trivalent_doh_endpoint
    restart
configured-eq = refl

abbrev fixed_readers : Readers
fixed_readers = record {
  Parsed = Unit {0};
  read_config = λ content. some tt;
  has_section = λ nm section. true;
  config_get =
      λ nm section key. some (some (if key == codes "servers" then quad9 else codes "exclusive"));
  load_policy = λ content. policy (some (codes "secure")) (some quad9_doh);
}

reads_back : ReadsBack fixed_readers quad9 quad9_doh
unfolding list_beq
reads_back = record {
  parsed = tt;
  parses = refl;
  has_global = refl;
  mode = refl;
  has_domain = refl;
  servers_back = refl;
  policy_back = refl;
}

abbrev local_resolv : Option (List Str)
local_resolv = some (codes "# by dnsconfd" ∷ codes "nameserver 127.0.0.1" ∷ [])

local_resolv-detect : detect local_resolv ≡ some unbound
unfolding detect
local_resolv-detect = refl

quad9_lines : all is_line (status_lines true quad9 quad9_doh) ≡ true
unfolding all rstrip list_beq dnssec_line global_dns_line server_lines doh_lines
quad9_lines = refl

quad9_others : all other_key (server_lines quad9) ≡ true
unfolding all server_lines partition strip contains list_beq
quad9_others = refl

set_global-audit_dns_example :
    (print_all_status fixed_readers (sources_of local_resolv configured)
      ≡ some (status_lines true quad9 quad9_doh))
    × (is_pass
          (dns_report (
            dns_steps
              (dns_flags (strip (unlines (status_lines true quad9 quad9_doh))))
              true
              false)).status
        ≡ (true && (not (quad9_doh == []) || not true)))
set_global-audit_dns_example =
    set_global-audit_dns systemctl sample-StopsOnly (some 988) fixed_readers b'd'
      (codes "ns+tls://9.9.9.9#dns.quad9.net,dns+tls://[2620:fe::fe]#dns.quad9.net") quad9_doh
      reads_back local_resolv true true false on_unbound configured on_unbound-current configured-eq
      local_resolv-detect quad9_lines quad9_others

-- The same files under systemd-resolved: DNSSEC and global DNS are not available.
abbrev stub_resolv : Option (List Str)
stub_resolv = some (codes "nameserver 127.0.0.53" ∷ [])

stub_resolv-detect : detect stub_resolv ≡ some resolved
unfolding detect
stub_resolv-detect = refl

abbrev resolved_lines : List Str
resolved_lines =
    codes "DNS Resolver: systemd-resolved"
    ∷ codes "DNSSEC: unavailable"
    ∷ codes "Global DNS: unavailable"
    ∷ codes "Trivalent DoH: enabled"
    ∷ codes "Trivalent DoH endpoint: https://dns.quad9.net/dns-query"
    ∷ []

resolved_status :
    print_all_status fixed_readers (sources_of stub_resolv configured) ≡ some resolved_lines
unfolding print_all_status main act configure set_global_nm_servers set_dnssec_enabled
    set_trivalent_doh_endpoint restart print_current_resolver print_dnssec_status
    print_nm_globaldns_status print_trivalent_doh_status doh_lines detect and_then Dict.lookup
resolved_status = refl

resolved_is_line : all is_line resolved_lines ≡ true
unfolding all rstrip list_beq
resolved_is_line = refl

resolved_others :
    all other_key (shown_servers fixed_readers (sources_of stub_resolv configured).globaldns_conf)
    ≡ true
unfolding main act configure set_global_nm_servers set_dnssec_enabled set_trivalent_doh_endpoint
    restart domain_lines all server_lines partition strip contains list_beq Dict.lookup
resolved_others = refl

print_all_status-dns_flags_example :
    dns_flags (strip (unlines resolved_lines))
    ≡ configured_flags fixed_readers resolved (sources_of stub_resolv configured)
print_all_status-dns_flags_example =
    print_all_status-dns_flags fixed_readers resolved (sources_of stub_resolv configured)
      resolved_lines stub_resolv-detect resolved_status resolved_is_line resolved_others
