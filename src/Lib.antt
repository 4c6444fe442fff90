-- ===== src/Lib.antt =====
-- Linux System Manager (sysmgr): a command line over modules that start shell scripts.
--
-- The program reads command lines (cli/repl.c), takes them apart into arguments (cli/parser.c) and
-- routes them, by the current context, to the dispatcher of a module, which asks for the arguments
-- that are missing and calls the module. A line that begins with a slash is a command only if the
-- palette (cli/palette.c) lists it, and a search of the palette otherwise. app/main.c starts one of
-- three modes: the command line, a single command from the arguments of the program, or a classic
-- menu (cli/ui.c, app/menu.c). The modules fork, run a script with execvp and wait for it.
--
-- Where the parts are:
-- - Prelude: booleans, lists, byte texts and C integers over the native numbers, with the lemmas
--   that the other files share. A text is the list of its bytes without the NUL at its end.
-- - Libc: the functions of the standard library that the program calls: strtol and atoi, strncpy
--   into a buffer of a given size, isspace, strtok, fgets.
-- - System: the state around the program. World holds what is left of standard input, the lines
--   that the line editor will return, how the next children end, and the trace of log lines,
--   prints, programs started and calls of modules; an action is a function of it (M). Script is
--   run_file_script of modules/file/file_mgr.c and run_script of modules/package/package_mgr.c,
--   Command is run_command_direct of modules/kernel/kernel_mgr.c and modules/network/network_mgr.c.
--   Files is what access and fopen find, and Round is how a round of a menu ends.
--   Backend is the interface of the modules that the command line calls, with the two laws that it
--   relies on; Call lists the calls.
-- - Modules/File, Modules/File/Read, Modules/Package: modules/file/file_mgr.c and
--   modules/package/package_mgr.c, a function for each operation, with its guards and messages.
--   Modules/Package/Menu is the menu of the package module.
-- - Modules/Process: modules/process/process_mgr.c, the reading of the files of a process
--   (Process), signals (Process/Control), priorities (Process/Priority), the list and the search
--   (Process/Search). What open and read give, and what the system calls answer, are arguments.
-- - Modules/Kernel: modules/kernel/kernel_mgr.c, loading and unloading the module, its status
--   (Kernel/Status), the lines of the kernel's log that are about it in an array of 20 lines
--   (Kernel/Log, compared with the list of all of them in Kernel/Recent and Kernel/Described) and
--   the texts on the kernel (Kernel/Overviews).
-- - Modules/Network: modules/network/network_mgr.c, the routing table (Network/Routes), the
--   interfaces (Network/Interfaces, Network/Listing, Network/Links), ping, DNS and statistics
--   (Network/Diagnostics) and the names of the host (Network/Host). What getifaddrs, ioctl,
--   getaddrinfo and their like answer are arguments.
-- - Modules/Shell: modules/shell/shell_mgr.c, running a command (Shell), the scheduled tasks
--   (Shell/Cron, Shell/Scheduled), the clock (Shell/Time) and the environment (Shell/Variables,
--   Shell/Environment).
-- - The Menu of each module is its loop over the choices; Modules/Ended opens the menu of the
--   environment at the end of the input. Modules/Linked puts the file, package and shell modules behind the interface of
--   the command line.
-- - Modules/Socket: modules/socket/socket_server.c and modules/socket/socket_client.c. A chat at a
--   terminal is the array with the line that is typed (Socket/Typing), the thread that receives
--   (Socket/Receiving) and the steps of both in any order (Socket/Steps); without a terminal it is
--   the loop over the lines (Socket/Piped). Socket/Start sets up a chat, with the descriptors that
--   it opens and closes, and Socket/Multi is modules/socket/socket_multi_server.c, with a thread
--   for each connection. Socket/Menu is the menu of modules/socket/socket_mgr.c, which opens
--   terminals. Which system calls work, and what recv gives, are arguments.
-- - Common: common/terminal_launcher.c, the choice of a terminal (Common/Terminal) and the guide to
--   tunnels (Common/Guide). The environment, and whether a file can be executed, are arguments.
-- - Cli/Parser: parser_tokenize, with the copy that it cuts up in place and its pointers as
--   indices. Parser/Tokens is the automaton that it is compared with.
-- - Cli/Context, Cli/Explain, Cli/Prompt, Cli/Dispatch, Cli/Repl: cli/repl.c. A chain of tests with
--   strcmp is a table of names with actions (Dispatch/Ladder). Repl is the state of the command
--   line: the stack of contexts, the lines given to the history, the world.
-- - Cli/Palette, Cli/Autocomplete, Cli/Ui: cli/palette.c, cli/autocomplete.c and cli/ui.c.
--   Cli/Keeps holds the lemmas on the lines that are left to the line editor.
-- - App: app/main.c and app/menu.c; App/Commands goes from a command down to the script, and
--   App/Terminals from the menu for sockets to the program that it opens a terminal with.
--   App/SocketPrograms is app/socket_server_main.c and the three programs like it.
-- - Tests: runs at concrete inputs.
--
-- Conventions. An effect is a transition of World, and an error is the value that the C function
-- returns. A call of a module that does not come back, because it ends the program or never
-- returns, says so by the newest event of the world; the command line stops there. A print is an
-- event with its format and its arguments, less those that are codes of colours. An int is kept
-- modulo 2 ^ 32 by to_int where the source converts to it. Loops over bytes are recursions on the
-- bytes; the loop of the tokenizer has a round of fuel for each byte and one for the NUL, and each
-- round reads one; the loop of the command line has one for each line that the editor will return
-- and one for the end of the input, and each round takes one. The loop of ui_select_menu gives none
-- where it would go round for ever at the end of the input; the loops of the classic menu and of
-- the menus of the modules take fuel from outside. A failed wait gives what the bytes of the status
-- variable happened to hold. The files that the kernel module looks at are functions of the number
-- of forks made so far, since it looks at them before and behind the programs that it starts. The
-- environment is the list of its texts NAME=value.
--
-- Not modelled: the line editor linenoise, which is a copied library and stands for the lines that
-- it returns, the file of the history, the start of the program before its mode is known, the
-- logger's output, the demonstrations of the process module, whose calls are events of the trace,
-- and the kernel module itself. The threads of a chat without a terminal are not interleaved: what
-- it receives does not change what it sends, but for the end of the program. Behind the loop over
-- what is typed the two threads close the descriptors in any order; what the one that receives has
-- not received by then is lost. Only a write and the server for several clients see malloc fail.
-- The command line calls the modules for networks, processes, sockets and the kernel and the
-- launcher of terminals through its interface only, with no model of them behind it.
pub mod Prelude
pub mod Libc
pub mod System
pub mod Common
pub mod Modules
pub mod Cli
pub mod App
pub mod Tests
