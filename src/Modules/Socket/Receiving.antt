-- ===== src/Modules/Socket/Receiving.antt =====
-- modules/socket/socket_server.c and socket_client.c: the thread that receives.
use nhan_linux_process.Prelude.{ℕ, Bool, true, ◌||◌, [], ◌∷◌, if◌then◌else◌, ◌==◌, length, Bytes}
use nhan_linux_process.Libc.Strings.{until_nul}
use nhan_linux_process.System.World.{M, ◌>>◌, text, nat, errno_text, log_info, log_error, print}
use nhan_linux_process.Modules.Socket.{Side, server, client, Chat, Turn, goes, ends}
use nhan_linux_process.Modules.Socket.Typing.{in_world, typed_text, is_exit}

-- What recv gives: the end of the connection, an error, or at most 511 bytes.
pub data Received : Type 0 where
  closed recv_failed : Received
  bytes : Bytes → Received

-- buffer[strcspn(buffer, "\r\n")] = '\0', in a buffer that was cleared before
unfoldable pub received_text : Bytes → Bytes
received_text [] = []
received_text (c ∷ cs) =
    let rest = received_text cs in if c == 0 || (c == b'\r' || c == b'\n') then [] else c ∷ rest

-- The client tells of the end of the connection once.
unfoldable pub tell_once : M (Unit {0}) → Chat → Chat
tell_once m s =
    if s.disconnected_printed
    then s
    else record s { disconnected_printed = true; world = (m s.world).1 }

-- What is said, at a terminal and without one.
unfoldable pub on_closed : Side → Bool → Chat → Chat
unfolding tell_once
on_closed server at_tty s =
    in_world
      (do
        log_info "SOCKET" "Disconnect: Client closed connection" []
        (if at_tty
            then print "\r\u{1b}[KClient disconnected.\n" []
            else print "Client disconnected.\n" []))
      s
on_closed client at_tty s =
    tell_once (if at_tty then print "\r\u{1b}[KDisconnected.\n" [] else print "Disconnected.\n" [])
      (in_world (log_info "SOCKET" "Disconnect" []) s)

unfoldable pub on_recv_failed : Side → Bool → M (Unit {0})
on_recv_failed server at_tty = do
  log_error "SOCKET" "Socket error: %s (errno %d)" (errno_text ∷ errno_text ∷ [])
  (if at_tty
      then print "\r\u{1b}[KSocket receive error: %s\n" (errno_text ∷ [])
      else print "Socket receive error: %s\n" (errno_text ∷ []))
on_recv_failed client at_tty = do
  log_error "SOCKET" "Socket error: recv failed (errno %d)" (errno_text ∷ [])
  (if at_tty
      then print "\r\u{1b}[KSocket receive error: %s\n" (errno_text ∷ [])
      else print "\nSocket receive error.\n%s\n" (errno_text ∷ []))

unfoldable pub on_exit_message : Side → Bool → Chat → Chat
unfolding tell_once
on_exit_message server at_tty s =
    in_world
      (if at_tty
        then print "\r\u{1b}[KClient sent exit command.\n" []
        else (do print "Client sent exit command.\n" []; print "Client disconnected.\n" []))
      s
on_exit_message client at_tty s =
    tell_once
      (if at_tty
        then print "\r\u{1b}[KServer sent exit command.\n" []
        else (do print "Server sent exit command.\n" []; print "Disconnected.\n" []))
      s

unfoldable pub log_received : Side → ℕ → Bytes → M (Unit {0})
log_received side count message = do
  log_info "SOCKET" "Bytes received: %zd bytes" (nat count ∷ [])
  elim side [
    | server ↦ log_info "SOCKET" "Client message: %s" (text message ∷ [])
    | client ↦ log_info "SOCKET" "Server message: %s" (text message ∷ [])
  ]

-- A message, and the line that is being typed behind it.
unfoldable pub show_message : Side → Bool → Bytes → Bytes → M (Unit {0})
show_message side at_tty message typing =
    if at_tty
    then (do
      elim side [
        | server ↦ print "\r\u{1b}[KClient > %s\n" (text message ∷ [])
        | client ↦ print "\r\u{1b}[KServer > %s\n" (text message ∷ [])
      ]
      print "You > %s" (text typing ∷ []))
    else elim side [
      | server ↦ print "Client\n%s\n" (text message ∷ [])
      | client ↦ print "Server\n%s\n" (text message ∷ [])
    ]

-- Behind the loop the whole program ends.
abbrev pub terminal_closed : Chat → Turn
terminal_closed s = ends (in_world (log_info "SOCKET" "Terminal closed" []) s)

unfoldable pub on_message : Side → Bool → ℕ → Bytes → Chat → Turn
unfolding until_nul log_received on_exit_message show_message
on_message side at_tty count message s =
    let u : Chat = in_world (log_received side count message) s in
    if is_exit message
    then terminal_closed (on_exit_message side at_tty u)
    else goes (in_world (show_message side at_tty message (typed_text u)) u)

unfoldable pub on_received : Side → Bool → Received → Chat → Turn
unfolding on_closed on_recv_failed received_text on_message
on_received side at_tty closed s = terminal_closed (on_closed side at_tty s)
on_received side at_tty recv_failed s = terminal_closed (in_world (on_recv_failed side at_tty) s)
on_received side at_tty (bytes got) s = on_message side at_tty (length got) (received_text got) s
