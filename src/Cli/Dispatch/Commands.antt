-- ===== src/Cli/Dispatch/Commands.antt =====
-- cli/repl.c: the dispatchers of the file, process, network, package, shell and kernel contexts.
mod Files
mod Services
mod Shells
unfoldable pub use Files.*
unfoldable pub use Services.*
unfoldable pub use Shells.*
