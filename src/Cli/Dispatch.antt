-- ===== src/Cli/Dispatch.antt =====
-- cli/repl.c: `dispatch_file` to `dispatch_kernel`, each a ladder of string comparisons on the first
-- argument, over the interface of the modules behind them.
pub mod Ladder
pub mod Socket
pub mod Commands
