-- ===== src/Cli.antt =====
-- The command line interface: cli/.
pub mod Parser
pub mod Names
pub mod Explain
pub mod Prompt
pub mod Context
pub mod Dispatch
pub mod Ui
pub mod Palette
pub mod Autocomplete
pub mod Keeps
pub mod Repl
