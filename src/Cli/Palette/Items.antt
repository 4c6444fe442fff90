-- ===== src/Cli/Palette/Items.antt =====
-- cli/palette.c: the table of commands.
use Prim.Native.String.{String}
use nhan_linux_process.Prelude.{List, [], ◌∷◌, ◌++◌}

pub record PaletteItem : Type 0 where
  pub command : String
  pub display : String
  pub context : String

abbrev item : String → String → String → PaletteItem
item command display context = record { command = command; display = display; context = context }

abbrev pub main_items : List PaletteItem
main_items =
    item "file" "Enter File Manager (CRUD, permissions, directory listing, search, zip/archive)"
      "main"
    ∷ item "process"
        "Enter Process Manager (list active processes, kill/send signal, nice priority, demos)"
        "main"
    ∷ item "network"
        "Enter Network Manager (list interfaces, configure IP, up/down link, route, ping, DNS)"
        "main"
    ∷ item "socket"
        "Enter Socket Manager (start TCP single/multi servers, client connection, chat interactive)"
        "main"
    ∷ item "package"
        "Enter Package Manager (search, inspect, install/remove packages, dry-run sandbox)" "main"
    ∷ item "shell"
        "Enter Shell Manager (run custom commands, pre-loaded shell scripts, edit env variables)"
        "main"
    ∷ item "cron" "Task Scheduling / Cron Job Manager (list, create, delete scheduled tasks)" "main"
    ∷ item "time" "System Time and NTP Synchronization Manager (show, set, sync)" "main"
    ∷ item "kernel"
        "Enter Kernel Module (view/load/unload sys_monitor module, network stack overview)" "main"
    ∷ item "help" "Show commands help cheat sheet and description lists" "main"
    ∷ item "exit" "Safely terminate and exit the Linux System Manager program" "main"
    ∷ []

abbrev pub file_items : List PaletteItem
file_items =
    item "create" "Create a new blank file at a specified workspace path" "file"
    ∷ item "read" "Read and output the text content of a file to the terminal" "file"
    ∷ item "write" "Write or overwrite new text content into a specific file" "file"
    ∷ item "delete" "Delete a file or directory permanently from the system" "file"
    ∷ item "copy" "Copy a file or directory to a different target location" "file"
    ∷ item "move" "Move a file or directory to another target directory path" "file"
    ∷ item "rename" "Rename an existing file or directory in place" "file"
    ∷ item "info" "Show detailed metadata information of a file (size, path, type)" "file"
    ∷ item "list" "List all files and subdirectories in a directory path" "file"
    ∷ item "mkdir" "Create a new directory at a specified target path" "file"
    ∷ item "chmod" "Change file or directory read/write/execute permissions (octal mode)" "file"
    ∷ item "search" "Search for files by name matching a search query" "file"
    ∷ item "archive" "Compress files or directories into a tar.gz archive" "file"
    ∷ item "back" "Go back to the parent 'main' system context prompt" "file"
    ∷ []

abbrev pub process_items : List PaletteItem
process_items =
    item "list" "List all running system processes with PID, PPID, and state" "process"
    ∷ item "info" "Get detailed metrics for a specific process by name or PID" "process"
    ∷ item "kill" "Forcefully terminate a process using the SIGKILL (9) signal" "process"
    ∷ item "signal" "Send a custom signal number (e.g. 15 for SIGTERM) to a process" "process"
    ∷ item "nice" "Change the nice CPU scheduling priority value of a process (-20 to 19)" "process"
    ∷ item "fork" "Demonstrate parent/child process creation using fork() system call" "process"
    ∷ item "exec" "Demonstrate how a process memory image is replaced using exec()" "process"
    ∷ item "wait" "Demonstrate how parent waits for child termination using wait()/waitpid()"
        "process"
    ∷ item "zombie" "Spawn and inspect a temporary zombie process demonstration" "process"
    ∷ item "orphan" "Spawn and inspect a temporary orphan process demonstration" "process"
    ∷ item "daemon" "Demonstrate background system daemon execution flow" "process"
    ∷ item "siginit" "Initialize custom handler for SIGINT/SIGTERM terminal signals" "process"
    ∷ item "sigreset" "Restore standard system handlers for terminal signals" "process"
    ∷ item "back" "Go back to the parent 'main' system context prompt" "process"
    ∷ []

abbrev pub network_items : List PaletteItem
network_items =
    item "list" "List all available network interfaces on this machine" "network"
    ∷ item "info" "Show details (IP address, MAC, status) of a specific interface" "network"
    ∷ item "config" "Configure IP address and subnet mask of a network interface" "network"
    ∷ item "up" "Bring a network interface link status UP (active)" "network"
    ∷ item "down" "Bring a network interface link status DOWN (inactive)" "network"
    ∷ item "route" "Show the current kernel routing table configuration" "network"
    ∷ item "ping" "Send ICMP Echo requests to verify connection to a remote host" "network"
    ∷ item "dns" "Query DNS name servers to resolve domain names to IP addresses" "network"
    ∷ item "stats" "Show network socket statistics using the ss tool" "network"
    ∷ item "back" "Go back to the parent 'main' system context prompt" "network"
    ∷ []

abbrev pub socket_items : List PaletteItem
socket_items =
    item "server" "Launch a single-connection interactive TCP Chat Server (termios raw mode)"
      "socket"
    ∷ item "client" "Launch an interactive TCP Client to connect to a remote TCP Server" "socket"
    ∷ item "multi" "Launch a multi-threaded concurrent TCP Echo Server in the background" "socket"
    ∷ item "chat host" "Launch a TCP Chat Host Server (termios raw mode)" "socket"
    ∷ item "chat client" "Launch a TCP Chat Client to connect to a Chat Host" "socket"
    ∷ item "chat demo" "Launch an automated TCP Chat Demo (Host + Client windows)" "socket"
    ∷ item "status" "View active system network connections using the ss socket utility" "socket"
    ∷ item "back" "Go back to the parent 'main' system context prompt" "socket"
    ∷ []

abbrev pub package_items : List PaletteItem
package_items =
    item "search" "Search packages in system repositories (e.g. apt, dnf, rpm)" "package"
    ∷ item "info" "Show metadata and descriptions of a specific package" "package"
    ∷ item "install" "Install a package from system repositories to this system" "package"
    ∷ item "remove" "Uninstall/remove a package from this system" "package"
    ∷ item "demo" "Simulate package manager actions safely in dry-run sandbox" "package"
    ∷ item "setup"
        "Install all essential packages (e.g. ping, curl, tmux, headers) for sysmgr modules"
        "package"
    ∷ item "back" "Go back to the parent 'main' system context prompt" "package"
    ∷ []

abbrev pub shell_items : List PaletteItem
shell_items =
    item "exec" "Execute any standard shell command directly in /bin/sh" "shell"
    ∷ item "script backup.sh" "Execute pre-loaded backup shell script" "shell"
    ∷ item "script disk_usage.sh" "Execute pre-loaded disk usage statistics shell script" "shell"
    ∷ item "script show_date.sh" "Execute pre-loaded show system date shell script" "shell"
    ∷ item "env" "Environment Manager" "shell"
    ∷ item "file" "File Management (shell)" "shell"
    ∷ item "cron" "Task Scheduling (shell)" "shell"
    ∷ item "time" "System Time (shell)" "shell"
    ∷ item "install" "Package Installation (shell)" "shell"
    ∷ item "monitor" "Automation Manager (shell)" "shell"
    ∷ item "back" "Back to Main" "shell"
    ∷ []

abbrev pub kernel_items : List PaletteItem
kernel_items =
    item "info" "Show metadata of the custom sys_monitor kernel module" "kernel"
    ∷ item "load" "Compile and load (insmod) sys_monitor kernel module" "kernel"
    ∷ item "unload" "Unload (rmmod) the sys_monitor kernel module from the kernel" "kernel"
    ∷ item "status" "Check if the sys_monitor module is loaded in the active kernel" "kernel"
    ∷ item "log" "Dump kernel log messages (dmesg) related to system_monitor" "kernel"
    ∷ item "stack" "Show overview of the Linux kernel network stack layers" "kernel"
    ∷ item "skbuff" "Show overview of the Linux kernel sk_buff packet buffer struct" "kernel"
    ∷ item "napi" "Show overview of the Linux kernel NAPI high-performance polling design" "kernel"
    ∷ item "back" "Go back to the parent 'main' system context prompt" "kernel"
    ∷ []

abbrev pub cron_items : List PaletteItem
cron_items =
    item "list" "List all scheduled cron tasks" "cron"
    ∷ item "create" "Create a new scheduled cron task" "cron"
    ∷ item "delete" "Delete all scheduled cron tasks" "cron"
    ∷ []

abbrev pub time_items : List PaletteItem
time_items =
    item "show" "Show current system time and date" "time"
    ∷ item "zone" "Show active system timezone" "time"
    ∷ item "set" "Set system time manually (requires root)" "time"
    ∷ item "sync" "Synchronize time with NTP server immediately" "time"
    ∷ item "autosync" "Enable automatic network time synchronization (NTP)" "time"
    ∷ []

-- `palette_items`, the contexts one after another
abbrev pub palette_items : List PaletteItem
palette_items =
    main_items
    ++ (file_items
        ++ (process_items
            ++ (network_items
                ++ (socket_items
                    ++ (package_items
                        ++ (shell_items ++ (kernel_items ++ (cron_items ++ (time_items)))))))))
