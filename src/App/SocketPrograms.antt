-- ===== src/App/SocketPrograms.antt =====
-- app/socket_server_main.c, app/socket_client_main.c, app/socket_chat_main.c and
-- app/socket_multi_server_main.c: the programs for one socket each.
use nhan_linux_process.Prelude.{
  ℕ, Bool, true, false, Option, List, [], ◌∷◌, if◌then◌else◌, codes, Bytes, str_eq, ℤ, pos,
}
use nhan_linux_process.Libc.Strings.{copy_to}
use nhan_linux_process.Libc.Numbers.{atoi}
use nhan_linux_process.System.World.{◌>>◌, int, text, log_info, print}
use nhan_linux_process.Modules.Socket.Start.{
  Sockets, says, Ending, stops, Input, ServerCalls, ClientCalls, socket_mgr_server_start,
  socket_mgr_client_start,
}
use nhan_linux_process.Modules.Socket.Multi.{Multi, Move, socket_mgr_multi_server_start}

abbrev port_or : ℤ → List Bytes → ℤ
port_or port [] = port
port_or port (arg ∷ args) = atoi arg

abbrev ip_or : Bytes → List Bytes → Bytes
ip_or ip [] = ip
ip_or ip (arg ∷ args) = copy_to 128 arg

abbrev behind : List Bytes → List Bytes
behind [] = []
behind (arg ∷ args) = args

-- The options of a chat, in the order of the arguments: a later one replaces an earlier one.
pub record ChatOptions : Type 0 where
  pub port : ℤ
  pub ip : Bytes
  pub is_host : Bool
  pub is_client : Bool

abbrev pub no_options : ChatOptions
no_options = record { port = pos 8080; ip = codes "127.0.0.1"; is_host = false; is_client = false }

-- The next argument of an option is read by the loop too.
abbrev on_option : Bytes → List Bytes → ChatOptions → ChatOptions
on_option arg args o =
    if str_eq arg (codes "--host")
    then record o { is_host = true; port = port_or o.port args }
    else if str_eq arg (codes "--client")
    then record o { is_client = true; ip = ip_or o.ip args; port = port_or o.port (behind args) }
    else o

unfoldable pub options_of : List Bytes → ChatOptions → ChatOptions
unfolding atoi
options_of [] o = o
options_of (arg ∷ args) o = options_of args (on_option arg args o)

-- What the programs do: the answers of send, what comes in, and which calls work. The arguments
-- are those behind the name of the program.
module _ (answers : ℕ → Option ℕ) (input : Input) (order : List Bool) (c : ServerCalls)
    (d : ClientCalls) where
  unfoldable pub server_main : List Bytes → Sockets → Ending
  unfolding atoi socket_mgr_server_start
  server_main args s =
      socket_mgr_server_start answers input order c (port_or (pos 8080) args)
        (says (log_info "SOCKET" "Socket server launched" []) s)

  unfoldable pub client_main : List Bytes → Sockets → Ending
  unfolding atoi socket_mgr_client_start
  client_main args s =
      socket_mgr_client_start answers input order d (ip_or (codes "127.0.0.1") args)
        (port_or (pos 8080) (behind args)) (says (log_info "SOCKET" "Socket client launched" []) s)

  -- The options choose the side, the host first.
  unfoldable pub chat_main : List Bytes → Sockets → Ending
  unfolding options_of socket_mgr_server_start socket_mgr_client_start
  chat_main args s =
      let o = options_of args no_options in
      if o.is_host
      then socket_mgr_server_start answers input order c o.port (
          says
            (do
              log_info "SOCKET" "Chat host launched" []
              print "Starting Chat Host on port %d...\n" (int o.port ∷ []))
            s)
      else if o.is_client
      then socket_mgr_client_start answers input order d o.ip o.port (
          says
            (do
              log_info "SOCKET" "Chat client launched" []
              print "Connecting to Chat Host at %s:%d...\n" (text o.ip ∷ int o.port ∷ []))
            s)
      else stops (
          says
            (do
              print "Usage:\n" []
              print "  socket_chat --host [port]\n" []
              print "  socket_chat --client [ip] [port]\n" [])
            s)

unfoldable pub multi_server_main :
    (ℕ → Bytes × ℕ) → ServerCalls → List Move → List Bytes → Sockets → Multi
unfolding atoi socket_mgr_multi_server_start
multi_server_main peer c ms args s =
    socket_mgr_multi_server_start peer c (port_or (pos 8080) args) ms
      (says (log_info "SOCKET" "Socket server launched" []) s)
