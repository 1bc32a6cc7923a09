-- ===== src/Auditor.antt =====
-- The audit framework: auditor/__init__.py.
pub mod Status
pub mod Report
pub mod Check
pub mod Audit
pub mod Order
pub mod Runs
pub mod Recs
mod Tests
