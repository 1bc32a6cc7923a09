-- ===== src/Flatpak.antt =====
-- Permissions of flatpak apps: audit_flatpak/__init__.py and audit_flatpak/filesystem.py.
pub mod Permissions
pub mod Sections
pub mod State
pub mod Checks
pub mod Filesystem
pub mod Invariant
pub mod Known
pub mod Verdict
mod Tests
