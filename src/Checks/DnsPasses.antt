-- ===== src/Checks/DnsPasses.antt =====
-- When the check of DNS passes.
use secureblue.Base.{arith}
use secureblue.Base.{◌≡◌}
use secureblue.Base.{Bool, not, ◌&&◌, ◌||◌}
use secureblue.Base.{nat_eq, string_eq, list_eq}
use secureblue.Auditor.Status.{downgrade_to}
use secureblue.Checks.State.{is_pass}
use secureblue.Checks.Grade.{worst}
use secureblue.Checks.Network.{DnsFlags, dns_steps, steps_status, dns_report, step_note, reversed}

-- The configuration that the check wants: Unbound, with DNSSEC and global DNS, and DNS over HTTPS in
-- Trivalent on a desktop.
abbrev pub wanted_dns : DnsFlags → Bool → Bool
wanted_dns f desktop = f.unbound && (f.global_dns && (f.dnssec && (f.trivalent_doh || not desktop)))

-- The report passes exactly for that configuration, VPN or not; and although the status is assigned
-- rather than downgraded, it is the worst status among the notes.
pub dns_report-passes :
    (f : DnsFlags) (desktop using_vpn : Bool)
    → (is_pass (dns_report (dns_steps f desktop using_vpn)).status ≡ wanted_dns f desktop)
      × ((dns_report (dns_steps f desktop using_vpn)).status
          ≡ worst (dns_report (dns_steps f desktop using_vpn)).notes)
unfolding dns_report dns_steps steps_status is_pass step_note reversed downgrade_to
dns_report-passes f desktop using_vpn = ground arith
