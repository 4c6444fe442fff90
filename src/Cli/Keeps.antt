-- ===== src/Cli/Keeps.antt =====
-- Actions of the command line that leave no more lines of the line editor unread than there were:
-- what the loop of cli/repl.c needs of a command to come to its end.
pub mod Rules
pub mod Dispatch
pub mod Socket
