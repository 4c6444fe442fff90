-- ===== src/Modules/Socket/Piped.antt =====
-- modules/socket/socket_server.c and socket_client.c: a chat whose input is not a terminal.
use nhan_linux_process.Prelude.{
  ℕ, zero, suc, Option, none, some, [], ◌∷◌, if◌then◌else◌, length, Bytes,
}
use nhan_linux_process.Libc.Strings.{is_empty, chomp}
use nhan_linux_process.Libc.Stdio.{fgets}
use nhan_linux_process.System.World.{M, ◌>>◌, text, nat, errno_text, log_info, log_error, print}
use nhan_linux_process.Modules.Socket.{Side, server, client, Chat, Turn, goes, ends}
use nhan_linux_process.Modules.Socket.Typing.{in_world, is_exit}
use nhan_linux_process.Modules.Socket.Receiving.{received_text, tell_once}

-- The server cuts a line at a carriage return too.
abbrev pub line_text : Side → Bytes → Bytes
line_text server line = received_text line
line_text client line = chomp line

unfoldable pub echo_sent : Side → ℕ → Bytes → M (Unit {0})
echo_sent side count message = do
  log_info "SOCKET" "Bytes sent: %zd bytes" (nat count ∷ [])
  elim side [
    | server ↦ log_info "SOCKET" "Server message: %s" (text message ∷ [])
    | client ↦ log_info "SOCKET" "Client message: %s" (text message ∷ [])
  ]
  print "You\n%s\n" (text message ∷ [])

unfoldable pub leave_piped : Side → Chat → Chat
unfolding tell_once
leave_piped server s = s
leave_piped client s = tell_once (print "Disconnected.\n" []) s

abbrev pub with_stdin : Chat → Bytes → Chat
with_stdin s rest = record s { world = record s.world { stdin = rest } }

-- `answers n` is what call number `n` of send returns, `none` if it fails.
module _ (side : Side) (answers : ℕ → Option ℕ) where
  unfoldable pub send_piped : Bytes → Chat → Turn
  unfolding echo_sent leave_piped
  send_piped message s =
      let u : Chat = record s { sent = message ∷ s.sent } in
      elim (answers (length s.sent)) [
        | none ↦ ends (
            in_world (log_error "SOCKET" "Socket error: send failed (errno %d)" (errno_text ∷ []))
              u)
        | some count ↦
            (let v : Chat = in_world (echo_sent side count message) u in
              if is_exit message then ends (leave_piped side v) else goes v)
      ]

  -- One line, as fgets stores it
  unfoldable pub on_piped : Bytes → Chat → Turn
  unfolding chomp received_text send_piped
  on_piped line s =
      let message = line_text side line in if is_empty message then goes s else send_piped message s

  -- The loop over the lines, on fuel
  unfoldable pub piped_loop : ℕ → Chat → Option Chat
  unfolding fgets on_piped
  piped_loop zero s = none
  piped_loop (suc fuel) s = elim (fgets 512 s.world.stdin) [
    | none ↦ some s
    | some r ↦ elim (on_piped r.0 (with_stdin s r.1)) [
      | ends u ↦ some u
      | goes u ↦ piped_loop fuel u
    ]
  ]
