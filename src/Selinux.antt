-- ===== src/Selinux.antt =====
-- SELinux booleans as the scripts use them, ptrace configuration (set_ptrace.py, shared/ptrace.py) and
-- the toggles of SELinux modules.
pub mod Booleans
pub mod Ptrace
pub mod PtraceModes
mod Tests
