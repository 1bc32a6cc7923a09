-- ===== src/Kargs.antt =====
-- Kernel arguments: shared/kargs_hardening.py, set_kargs_hardening.py, remove_kargs_hardening.py,
-- inner/set_kargs_uki.py and the command-line parser of shared/utils.py.
pub mod Addon
pub mod Worker
pub mod Directories
pub mod SetArithmetic
pub mod Build
mod Tests
