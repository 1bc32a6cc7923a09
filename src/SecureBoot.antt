-- ===== src/SecureBoot.antt =====
-- Secure Boot key enrollment: shared/secure_boot.py and inner/secure_boot.py.
pub mod SignatureList
pub mod Encoding
pub mod Database
pub mod Efivars
pub mod Enroll
pub mod Staged
pub mod BootLoader
mod Tests
