-- ===== src/App.antt =====
-- app/: the classic menu and the entry of the program.
pub mod Menu
pub mod Main
pub mod Commands
pub mod Terminals
pub mod SocketPrograms
