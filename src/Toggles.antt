-- ===== src/Toggles.antt =====
-- Scripts that switch a service or a policy on and off, and their workers.
pub mod Host
pub mod Modprobe
pub mod SwitchLaws
pub mod Switches
pub mod WebcamAudit
pub mod Userns
pub mod UsernsSet
pub mod Hostname
pub mod Cups
mod Tests
