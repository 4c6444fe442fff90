-- ===== src/Modules/Socket/Typing.antt =====
-- modules/socket/socket_server.c and socket_client.c: the line that is typed at a terminal.
use nhan_linux_process.Prelude.{
  ℕ, ◌+◌, ◌-◌, Bool, true, ◌&&◌, ◌||◌, Option, none, some, [], ◌∷◌, if◌then◌else◌, ltb, leb, ◌==◌,
  length, set, take, codes, Bytes, str_eq,
}
use nhan_linux_process.Libc.Strings.{until_nul}
use nhan_linux_process.System.World.{M, ◌>>◌, text, nat, errno_text, log_info, log_error, print}
use nhan_linux_process.Modules.Socket.{Side, server, client, Chat, Turn, goes, ends}

abbrev pub in_world : M (Unit {0}) → Chat → Chat
in_world m s = record s { world = (m s.world).1 }

-- The text up to its NUL, as the other thread and strcmp read it
abbrev pub typed_text : Chat → Bytes
typed_text s = until_nul s.input_buffer

unfoldable pub store : ℕ → Chat → Chat
store c s = record s {
  input_buffer = set (set s.input_buffer s.input_len c) (s.input_len + 1) 0;
  input_len = s.input_len + 1;
  world = (print "%c" (nat c ∷ []) s.world).1;
}

unfoldable pub erase : Chat → Chat
erase s =
    if ltb 0 s.input_len
    then record s {
      input_buffer = set s.input_buffer (s.input_len - 1) 0;
      input_len = s.input_len - 1;
      world = (print "\u{8} \u{8}" [] s.world).1;
    }
    else s

abbrev pub is_exit : Bytes → Bool
is_exit message = str_eq message (codes "exit")

-- The client says once that the connection has ended.
unfoldable pub say_disconnected : Side → Chat → Chat
say_disconnected server s = s
say_disconnected client s = if s.disconnected_printed then s else record s {
  disconnected_printed = true;
  world = (print "\r\u{1b}[KDisconnected.\n" [] s.world).1;
}

-- What follows a line that was sent or was empty.
unfoldable pub next_line : Side → Chat → Turn
unfolding until_nul say_disconnected
next_line side s =
    let check_exit = is_exit (typed_text s) in
    let cleared : Chat = record s { input_buffer = set s.input_buffer 0 0; input_len = 0 } in
    if check_exit
    then ends (say_disconnected side cleared)
    else goes (in_world (print "You > " []) cleared)

unfoldable pub log_sent : Side → ℕ → Bytes → M (Unit {0})
log_sent side bytes message = do
  log_info "SOCKET" "Bytes sent: %zd bytes" (nat bytes ∷ [])
  elim side [
    | server ↦ log_info "SOCKET" "Server message: %s" (text message ∷ [])
    | client ↦ log_info "SOCKET" "Client message: %s" (text message ∷ [])
  ]
  print "\r\u{1b}[KYou > %s\n" (text message ∷ [])

-- `answers n` is what call number `n` of send returns, `none` if it fails.
module _ (side : Side) (answers : ℕ → Option ℕ) where
  unfoldable pub send_line : Chat → Turn
  unfolding until_nul log_sent next_line
  send_line s =
      let message = take s.input_len s.input_buffer in
      let u : Chat = record s { sent = message ∷ s.sent } in
      elim (answers (length s.sent)) [
        | none ↦ ends (
            in_world (log_error "SOCKET" "Socket error: send failed (errno %d)" (errno_text ∷ []))
              u)
        | some bytes ↦ next_line side (in_world (log_sent side bytes (typed_text u)) u)
      ]

  unfoldable pub finish_line : Chat → Turn
  unfolding send_line next_line
  finish_line s =
      let u : Chat = record s { input_buffer = set s.input_buffer s.input_len 0 } in
      if ltb 0 u.input_len then send_line u else next_line side u

  -- One byte of the terminal. Bytes from 128 on are negative as char and are left out.
  unfoldable pub on_byte : ℕ → Chat → Turn
  unfolding finish_line erase store
  on_byte c s =
      if c == b'\n' || c == b'\r'
      then finish_line s
      else if c == 127 || c == 8
      then goes (erase s)
      else if leb 32 c && (ltb c 127 && ltb s.input_len (512 - 1))
      then goes (store c s)
      else goes s
