-- ===== src/Checks.antt =====
-- The checks of audit_secureblue.py, with audit_utils.
pub mod State
pub mod Kargs
pub mod Sysctl
pub mod Kernel
pub mod Policy
pub mod Containers
pub mod Services
pub mod Updates
pub mod Network
pub mod Desktop
pub mod System
pub mod Flatpaks
pub mod Grade
pub mod UnitGrades
pub mod KargsPass
pub mod Groups
pub mod Depends
pub mod DnsPasses
pub mod DnsStatus
pub mod DnsLines
pub mod DnsAgrees
pub mod DnsWorks
pub mod SysctlPass
pub mod PolicyPasses
pub mod PolicyContents
mod Tests
