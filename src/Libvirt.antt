-- ===== src/Libvirt.antt =====
-- The modular daemons of libvirt, set_libvirt_daemons.py.
pub mod Daemons
pub mod Units
pub mod Selected
mod Tests
