-- ===== src/Cli/Dispatch/Socket.antt =====
-- cli/repl.c: `dispatch_socket`, which opens terminals for an interactive user and runs the socket
-- programs itself for any other.
use Prim.Native.String.{String}
use nhan_linux_process.Prelude.{
  ℕ, ◌+◌, Option, none, some, List, [], ◌∷◌, ◌++◌, if◌then◌else◌, get_elem?, str_eq, codes, Bytes,
  ℤ, pos, int_eq,
}
use nhan_linux_process.Libc.Numbers.{atoi}
use nhan_linux_process.Libc.Strings.{copy_to, is_empty}
use nhan_linux_process.System.Call.{
  socket, server_start, multi_server_start, client_start, terminal_open, ssh_tunnel_guide,
  system_command,
}
use nhan_linux_process.System.World.{M, is_gone, skip, ◌>>=◌, ◌>>◌, print, log_info}
use nhan_linux_process.System.Backend.{Backend}
use nhan_linux_process.Cli.Prompt.{get_arg_or_prompt, cancelled}
use nhan_linux_process.Cli.Dispatch.Ladder.{Table, ladder, act, unknown}

abbrev pub default_port : Bytes
default_port = codes "8080"

abbrev pub local_host : Bytes
local_host = codes "127.0.0.1"

-- `s[0] ? s : d`
abbrev pub or_default : Bytes → Bytes → Bytes
or_default s d = if is_empty s then d else s

-- `if (get_arg_or_prompt(…) == -2) return;`, with what is in the buffer after any other result
unfoldable pub unless_cancelled : ℕ → ℕ → List Bytes → Bytes → (Bytes → M (Unit {0})) → M (Unit {0})
unless_cancelled size index argv prompt next = do
  r ← get_arg_or_prompt size index argv prompt
  (if int_eq r.0 cancelled then skip else next r.1)

-- argv[index] as a port, or 8080
abbrev pub port_at : List Bytes → ℕ → ℤ
port_at argv index = elim (get_elem? argv index) [ none ↦ pos 8080 | some arg ↦ atoi arg ]

-- argv[index] as an address, or this machine
abbrev pub ip_at : List Bytes → ℕ → Bytes
ip_at argv index = elim (get_elem? argv index) [ none ↦ local_host | some ip ↦ ip ]

module _ (b : Backend) where
  abbrev pub sysmgr_cmd : Bytes
  sysmgr_cmd = if b.has_sysmgr then codes "./sysmgr" else codes "sysmgr"

  unfoldable pub guide : M (Unit {0})
  guide = act b (socket (ssh_tunnel_guide (pos 8080)))

  -- snprintf into 256 bytes, and the command in a new terminal
  unfoldable pub open_terminal : Bytes → Bytes → String → M (Unit {0})
  open_terminal title command failure w =
      let r = b.perform (socket (terminal_open title (copy_to 256 (sysmgr_cmd ++ command)))) w in
      (if int_eq r.0.value (pos 0) then skip else print failure []) r.1

  -- The guide, the question for a port, and a terminal that runs the command with it.
  unfoldable pub ask_port : ℕ → List Bytes → Bytes → Bytes → Bytes → String → M (Unit {0})
  ask_port index argv prompt title command failure = do
    guide
    unless_cancelled 64 index argv prompt
        λ port_str. open_terminal title (command ++ or_default port_str default_port) failure

  -- The same with a question for an address first.
  unfoldable pub ask_address :
      ℕ → List Bytes → Bytes → Bytes → Bytes → Bytes → String → M (Unit {0})
  ask_address index argv prompt prompt_port title command failure = do
    guide
    unless_cancelled 128 index argv prompt λ ip.
        unless_cancelled 64 (index + 1) argv prompt_port λ port_str.
          open_terminal title
            (command
              ++ (or_default ip local_host ++ (codes " " ++ or_default port_str default_port)))
            failure

  unfoldable pub run_server : List Bytes → M (Unit {0})
  run_server argv w =
      (if w.is_interactive
          then ask_port 1 argv (codes "Enter port to bind [8080]: ") (codes "TCP Server")
              (codes " socket server ") "Failed to launch socket server in a new terminal.\n"
          else act b (socket (server_start (port_at argv 1))))
        w

  unfoldable pub run_client : List Bytes → M (Unit {0})
  run_client argv w =
      (if w.is_interactive
          then ask_address 1 argv (codes "Enter server IP [127.0.0.1]: ")
              (codes "Enter server port [8080]: ") (codes "TCP Client") (codes " socket client ")
              "Failed to launch socket client in a new terminal.\n"
          else act b (socket (client_start (ip_at argv 1) (port_at argv 2) (codes "user"))))
        w

  -- The log line behind a call that came back
  unfoldable pub log_closed : M (Unit {0})
  log_closed w = (if is_gone w.trace then skip else log_info "SOCKET" "Terminal closed" []) w

  -- The server of a program that runs without a user
  unfoldable pub multi_server : List Bytes → M (Unit {0})
  multi_server argv = do
    log_info "SOCKET" "Socket process started" []
    log_info "SOCKET" "Multi Client Server launched" []
    act b (socket (multi_server_start (port_at argv 1)))
    log_closed

  unfoldable pub run_multi : List Bytes → M (Unit {0})
  run_multi argv w =
      (if w.is_interactive
          then ask_port 1 argv (codes "Enter port to bind [8080]: ") (codes "Multi Client Server")
              (codes " socket multi ") "Failed to launch socket multi-server in a new terminal.\n"
          else multi_server argv)
        w

  -- The second terminal of the demo
  unfoldable pub open_guest : M (Unit {0})
  open_guest = do
    print "Waiting for Host Chat to initialize...\n" []
    print "Launching Client Chat in a new terminal...\n" []
    open_terminal (codes "Chat Client") (codes " socket chat --client 127.0.0.1 8080")
        "Failed to launch demo Client Chat.\n"

  -- It is opened only if the first was.
  unfoldable pub open_host : M (Unit {0})
  open_host w =
      let r =
        b.perform
          (socket (
            terminal_open (codes "Chat Host")
              (copy_to 256 (sysmgr_cmd ++ codes " socket chat --host 8080"))))
          w in
      (if int_eq r.0.value (pos 0)
          then open_guest
          else print "Failed to launch demo Host Chat.\n" [])
        r.1

  unfoldable pub chat_demo : M (Unit {0})
  chat_demo = do
    log_info "SOCKET" "Demo launched" []
    print "Launching Host Chat in a new terminal...\n" []
    open_host

  unfoldable pub chat_mode : List Bytes → Bytes → M (Unit {0})
  chat_mode argv sub_cmd =
      if str_eq sub_cmd (codes "host")
      then ask_port 2 argv (codes "Enter port to bind [8080]: ") (codes "Chat Host")
          (codes " socket chat --host ") "Failed to launch socket chat host in a new terminal.\n"
      else if str_eq sub_cmd (codes "client")
      then ask_address 2 argv (codes "Enter host IP [127.0.0.1]: ") (codes "Enter port [8080]: ")
          (codes "Chat Client") (codes " socket chat --client ")
          "Failed to launch socket chat client in a new terminal.\n"
      else if str_eq sub_cmd (codes "demo")
      then chat_demo
      else print "Error: Invalid chat option. Choose host, client, or demo.\n" []

  -- The menu of an interactive user who names no mode
  unfoldable pub chat_menu : List Bytes → M (Unit {0})
  chat_menu argv w =
      let r =
        b.select "Socket Chat Options"
          ("Host Chat (Launch a TCP Chat Host Server)"
            ∷ "Join Chat (Connect to an active Chat Host)"
            ∷ "Open Host + Client Demo (Launch local demo)" ∷ "Cancel" ∷ [])
          w in
      (if int_eq r.0 (pos 0)
          then chat_mode argv (codes "host")
          else if int_eq r.0 (pos 1)
          then chat_mode argv (codes "client")
          else if int_eq r.0 (pos 2)
          then chat_mode argv (codes "demo")
          else skip)
        r.1

  unfoldable pub listen_here : List Bytes → M (Unit {0})
  listen_here argv = do
    log_info "SOCKET" "Chat Host launched" []
    act b (socket (server_start (port_at argv 2)))

  unfoldable pub join_there : List Bytes → M (Unit {0})
  join_there argv = do
    log_info "SOCKET" "Chat Client launched" []
    act b (socket (client_start (ip_at argv 2) (port_at argv 3) (codes "client_user")))

  -- `--host` and `--client`
  unfoldable pub chat_direct : List Bytes → Bytes → M (Unit {0})
  chat_direct argv mode =
      if str_eq mode (codes "--host")
      then listen_here argv
      else if str_eq mode (codes "--client")
      then join_there argv
      else print "Error: Invalid chat parameters.\n" []

  -- argv[1], if it is there
  unfoldable pub interactive_chat : List Bytes → Option Bytes → M (Unit {0})
  interactive_chat argv (some arg) = chat_mode argv (copy_to 64 arg)
  interactive_chat argv none = chat_menu argv

  unfoldable pub piped_chat : List Bytes → Option Bytes → M (Unit {0})
  piped_chat argv (some mode) = chat_direct argv mode
  piped_chat argv none = print "Error: Missing chat mode (--host or --client).\n" []

  unfoldable pub run_chat : List Bytes → M (Unit {0})
  run_chat argv w =
      (if w.is_interactive
          then interactive_chat argv (get_elem? argv 1)
          else piped_chat argv (get_elem? argv 1))
        w

  unfoldable pub run_status : M (Unit {0})
  run_status = do
    print "\n--- Active TCP Connections ---\n" []
    act b (system_command (codes "ss" ∷ codes "-t" ∷ codes "-a" ∷ []))

  abbrev pub socket_table : List Bytes → Table
  socket_table argv =
      ("server", run_server argv)
      ∷ ("client", run_client argv)
      ∷ ("multi", run_multi argv)
      ∷ ("chat", run_chat argv)
      ∷ ("status", run_status)
      ∷ []

  unfoldable pub dispatch_socket : List Bytes → M (Unit {0})
  dispatch_socket [] = skip
  dispatch_socket (cmd ∷ args) =
      ladder cmd (socket_table (cmd ∷ args))
        (unknown "Error: Unknown socket command '%s'. Type / for options.\n" cmd)
