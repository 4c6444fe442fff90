-- ===== src/Tests/Sockets.antt =====
-- Runs of a chat and of the launcher of terminals.
use nhan_linux_process.Prelude.{
  none, false, ◌+◌, true, ℕ, Option, some, List, [], ◌∷◌, ◌++◌, codes, Bytes, str_eq, ◌≡◌, ◌↔◌,
  refl, map, arith, Bool, pos,
}
use nhan_linux_process.System.World.{World, M, skip}
use nhan_linux_process.Common.Terminal.{
  terminal_open, shell_line, in_tmux, command_exists, terminal_args, terminals,
}
use nhan_linux_process.Modules.Shell.Variables.{getenv}
use nhan_linux_process.System.Round.{again}
use nhan_linux_process.Libc.Numbers.{decimal_bytes}
use nhan_linux_process.Modules.Socket.Menu.Loop.{on_socket_selection}
use nhan_linux_process.Common.Terminal.Laws.{Opens, OnPath, argument_table, terminal_open-Opens}
use nhan_linux_process.Modules.Socket.{server, client, new_chat, Chat}
use nhan_linux_process.Modules.Socket.Receiving.{bytes, closed, received_text}
use nhan_linux_process.Modules.Socket.Steps.{ChatStep, typed_byte, from_peer, chat, state_of}
use nhan_linux_process.Modules.Socket.Sent.{reversed}
use nhan_linux_process.Modules.Socket.Sends.{chat_sends}
use nhan_linux_process.System.Call.{socket, server_start}
use nhan_linux_process.Libc.Strings.{chomp}
use nhan_linux_process.Libc.Stdio.{line_of, read_lines, lines_by}
use nhan_linux_process.Modules.Socket.Piped.{piped_loop}
use nhan_linux_process.Modules.Socket.Lines.{piped_loop-sends}
use nhan_linux_process.Modules.Socket.Start.{Sockets, ServerCalls, ClientCalls}
use nhan_linux_process.Modules.Socket.Multi.{
  Move, accepts, begins, echoes, started, socket_mgr_multi_server_start,
}
use nhan_linux_process.Modules.Socket.Multi.Invariant.{Sound, Distinct, multi_start-Sound}
use nhan_linux_process.App.Main.{main, cmd_line}
use nhan_linux_process.App.Terminals.{
  asked, shown_in_terminal, server_args, started_with, opened_server,
}
use nhan_linux_process.Tests.{world, recorder}

abbrev w : World
w = world [] []

-- `hi`, a message from the other side, `x`, a backspace, `!`, and the end of the line; then `exit`
-- and a line that is not sent.
abbrev steps : List ChatStep
steps =
    map typed_byte (codes "hi")
    ++ (from_peer (bytes (codes "yo")) ∷ map typed_byte (codes "x\u{7f}!\nexit\nlate\n"))

abbrev answers : ℕ → Option ℕ
answers _ = some 1

chat_sends_example :
    reversed (state_of (chat server answers steps (new_chat w))).sent
    ≡ codes "hi!" ∷ codes "exit" ∷ []
unfolding received_text
chat_sends_example = chat_sends server answers steps w

abbrev environ : List Bytes
environ = codes "HOME=/root" ∷ codes "PATH=/bin:/usr/bin" ∷ []

abbrev is_executable : Bytes → Bool
is_executable path = str_eq path (codes "/usr/bin/kitty")

abbrev tab : Bytes
tab = shell_line (codes "ls")

terminal_open-Opens_example :
    Opens environ is_executable (codes "T") (codes "ls") w
    × ((in_tmux environ is_executable ≡ true) ↔ (
        (v : Bytes) × (getenv (codes "TMUX") environ ≡ some v)
        × OnPath environ is_executable "tmux"))
    × ((command_exists environ is_executable "kitty" ≡ true) ↔ OnPath environ is_executable "kitty")
    × (map (λ t. (t, terminal_args t (codes "T") tab)) terminals ≡ argument_table (codes "T") tab)
terminal_open-Opens_example =
    terminal_open-Opens environ is_executable (codes "T") (codes "ls") w "kitty"

opens_kitty : (terminal_open environ is_executable (codes "T") (codes "ls") w).0 ≡ pos 0
unfolding terminal_open
opens_kitty = refl

no_manager : ℕ → M (Unit {0})
no_manager n = skip

-- A port typed at the question of the menu
abbrev typed_port : World
typed_port = record w { stdin = decimal_bytes 9000 ++ (b'\n' ∷ codes "0\n") }

opened_server_example :
    (on_socket_selection environ is_executable true true 0 (some (pos 0, typed_port))
      ≡ again (
          shown_in_terminal environ is_executable
            (record (asked environ typed_port) { stdin = codes "0\n" })
            (cmd_line (codes "./sysmgr" ∷ server_args 9000))))
    × (main true no_manager recorder 0 (server_args 9000) typed_port
        ≡ some
            (recorder.perform (socket (server_start (pos 9000))) (started_with 9000 typed_port)).1)
opened_server_example =
    opened_server recorder environ is_executable true true no_manager 0 9000 (codes "0\n")
      typed_port (omega arith) refl

-- Two lines, the second of them exit, and one that is not sent
abbrev lines : World
lines = record w { stdin = codes "hi\n\nexit\nlate\n"; is_interactive = false }

piped_loop-sends_example :
    (u : Chat) × (piped_loop client answers 15 (new_chat lines) ≡ some u)
    × (reversed u.sent ≡ codes "hi" ∷ codes "exit" ∷ [])
unfolding chomp line_of read_lines lines_by
piped_loop-sends_example = piped_loop-sends client answers lines

abbrev sockets : Sockets
sockets = record { open_fds = 2 ∷ 1 ∷ 0 ∷ []; next_fd = 3; world = w }

-- The port is taken.
abbrev taken : ServerCalls
taken = record {
  socket = true;
  setsockopt = true;
  bind = false;
  listen = true;
  accept = true;
  pthread_create = true;
}

abbrev connected : ClientCalls
connected = record { socket = true; inet_pton = true; connect = true; pthread_create = true }

-- The thread that receives has two turns in between.
abbrev turns : List Bool
turns = true ∷ false ∷ false ∷ true ∷ []

abbrev bound : ServerCalls
bound = record taken { bind = true }

sockets-Distinct : Distinct sockets
sockets-Distinct = record { once = λ fd. ground arith; below = λ fd k. ground arith }

abbrev peer : ℕ → Bytes × ℕ
peer fd = (codes "10.0.0.1", 5000 + fd)

-- Two connections, one of which closes.
abbrev two_clients : List Move
two_clients =
    accepts started
    ∷ accepts started
    ∷ begins 4
    ∷ echoes 4 (bytes (codes "yo")) (some 2)
    ∷ echoes 4 closed none
    ∷ []

multi_start-Sound_example :
    Sound
      (3 ∷ 2 ∷ 1 ∷ 0 ∷ [])
      (socket_mgr_multi_server_start peer bound (pos 8080) two_clients sockets)
multi_start-Sound_example =
    multi_start-Sound peer bound (pos 8080) two_clients sockets sockets-Distinct
