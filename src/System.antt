-- ===== src/System.antt =====
-- What the program does to the rest of the system, and what it gets from it.
pub mod Call
pub mod World
pub mod Round
pub mod Script
pub mod Command
pub mod Files
pub mod Backend
