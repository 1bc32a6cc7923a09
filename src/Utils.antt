-- ===== src/Utils.antt =====
-- shared/utils.py: questions, toggles, images, configuration files and the kernel command line.
pub mod Ask
pub mod Answers
pub mod Toggle
pub mod Config
pub mod KernelCmdline
pub mod Arguments
pub mod Segments
pub mod Printed
mod Tests
