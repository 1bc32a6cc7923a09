-- ===== src/Sandbox.antt =====
-- The systemd sandbox for privileged workers: shared/sandbox.py.
pub mod Command
pub mod Arguments
mod Tests
