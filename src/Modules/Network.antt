-- ===== src/Modules/Network.antt =====
-- modules/network/network_mgr.c, by its parts.
pub mod Routes
pub mod Interfaces
pub mod Listing
pub mod Links
pub mod Diagnostics
pub mod Host
pub mod Menu
