-- ===== src/Modules.antt =====
-- modules/: the components behind the command line.
pub mod File
pub mod Package
pub mod Process
pub mod Kernel
pub mod Shell
pub mod Network
pub mod Socket
pub mod Linked
pub mod Ended
