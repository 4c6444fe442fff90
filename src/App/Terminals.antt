-- ===== src/App/Terminals.antt =====
-- modules/socket/socket_mgr.c and app/main.c: the command that the menu for sockets gives to a
-- terminal, and what the program does when it is started with it.
use nhan_linux_process.Prelude.{
  ℕ, ◌<◌, ◌^◌, ◌≡◌, ◌≢◌, refl, ap, ◌∙◌, arith, Bool, true, false, some, List, [], ◌∷◌, ◌++◌, codes,
  if◌then◌else◌, int_eq, Bytes, ℤ, pos, All, take-ge, str_eq,
}
use nhan_linux_process.Libc.Strings.{is_empty}
use nhan_linux_process.Libc.Numbers.{atoi, decimal_bytes, Digits}
use nhan_linux_process.Libc.Decimal.{
  atoi-decimal_bytes, decimal_bytes-Digits, decimal_bytes-full, length-decimal_bytes,
}
use nhan_linux_process.System.Call.{socket, server_start}
use nhan_linux_process.System.World.{World, M, int, skip, ◌>>◌, print}
use nhan_linux_process.System.Backend.{Backend}
use nhan_linux_process.Cli.Parser.RoundTrip.{Bare, spaced}
use nhan_linux_process.Cli.Context.{repl_get_current_context}
use nhan_linux_process.Cli.Names.{one_of}
use nhan_linux_process.Cli.Dispatch.Ladder.{ladder, act}
use nhan_linux_process.Cli.Dispatch.Socket.{dispatch_socket, run_server}
use nhan_linux_process.Cli.Repl.{Repl, dispatch_in}
use nhan_linux_process.Cli.Repl.Routes.{logged_command, prefixed}
use nhan_linux_process.Modules.Socket.Menu.{
  int_text, command_line, sysmgr_program, explained, answer_or, ask_port, open_at_port, open_or_say,
}
use nhan_linux_process.Modules.Socket.Menu.Loop.{on_socket_selection, socket_choice}
use nhan_linux_process.Common.Terminal.{terminal_open}
use nhan_linux_process.Common.Guide.{print_ssh_tunnel_guide}
use nhan_linux_process.Cli.Explain.{print_prompt_explanation}
use nhan_linux_process.Libc.Stdio.{fgets, OneLine, fgets-OneLine, chomp-OneLine}
use nhan_linux_process.System.Round.{Round, again}
use nhan_linux_process.App.Main.{main, cmd_line, has_classic, direct_start}
use nhan_linux_process.App.Main.Laws.{main_runs_words}

Digits-Bare : (ds : Bytes) → Digits ds → Bare ds
Digits-Bare [] h = tt
Digits-Bare (c ∷ ds) h = (ground (arith, h.0), Digits-Bare ds h.1)

not_nil : (s : Bytes) → is_empty s ≡ false → s ≢ []
not_nil [] e = absurd (cc e)
not_nil (c ∷ s) e = λ q. cc q

not_classic : (ds : Bytes) → Digits ds → str_eq ds (codes "--classic") ≡ false
not_classic [] h = refl
not_classic (c ∷ ds) h = ground (arith, h.0)

-- The arguments of the program for a server on a port
abbrev pub server_args : ℕ → List Bytes
server_args port = codes "socket" ∷ codes "server" ∷ int_text (pos port) ∷ []

-- The command line behind the log lines of its start and of the command
abbrev pub started_with : ℕ → World → World
started_with port w =
    (logged_command (codes "socket") (codes "server" ∷ int_text (pos port) ∷ [])
      (direct_start (codes "socket" ++ spaced (codes "server" ∷ int_text (pos port) ∷ [])) w)).world

server_line :
    (environ : List Bytes) (x : Bytes → Bool) (here : Bool) (port : ℕ)
    → command_line environ x here (codes " socket server " ++ int_text (pos port))
      ≡ cmd_line (sysmgr_program environ x here ∷ server_args port)
unfolding cmd_line int_text
server_line environ x true port = take-ge 255 _ (omega (arith, length-decimal_bytes port))
server_line environ x false port = take-ge 255 _ (omega (arith, length-decimal_bytes port))

-- The menu behind the guide, what it says of the port and its question
abbrev pub asked : List Bytes → World → World
asked environ w =
    ((do
      print_ssh_tunnel_guide environ (pos 8080)
      explained "Enter port to bind"
      print "Enter port to bind [%d]: " (int (pos 8080) ∷ []))
      w).1

asked_stdin : (environ : List Bytes) (w : World) → (asked environ w).stdin ≡ w.stdin
unfolding print_ssh_tunnel_guide print_prompt_explanation
asked_stdin environ w = ground arith

Digits-OneLine : (ds : Bytes) → Digits ds → OneLine ds
Digits-OneLine [] h = tt
Digits-OneLine (c ∷ ds) h = (ground (arith, h.0), Digits-OneLine ds h.1)

port_line :
    (port : ℕ) (rest : Bytes) (u : World)
    → port < 2 ^ 31
    → answer_or (pos 8080) atoi u (some (decimal_bytes port ++ (b'\n' ∷ []), rest))
      ≡ (pos port, record u { stdin = rest })
port_line port rest u h =
    rw
      (
        chomp-OneLine (decimal_bytes port)
            (Digits-OneLine (decimal_bytes port) (decimal_bytes-Digits port)),
        decimal_bytes-full port,
        atoi-decimal_bytes port h,
      )
      refl

port_read :
    (environ : List Bytes) (port : ℕ) (rest : Bytes) (w : World)
    → w.stdin ≡ decimal_bytes port ++ (b'\n' ∷ rest)
    → fgets 128 (asked environ w).stdin ≡ some (decimal_bytes port ++ (b'\n' ∷ []), rest)
port_read environ port rest w e =
    ap (fgets 128) (asked_stdin environ w ∙ e)
    ∙ fgets-OneLine 127 (decimal_bytes port) rest
        (Digits-OneLine (decimal_bytes port) (decimal_bytes-Digits port))
        (omega (arith, length-decimal_bytes port))

asked_port :
    (environ : List Bytes) (port : ℕ) (rest : Bytes) (w : World)
    → port < 2 ^ 31
    → w.stdin ≡ decimal_bytes port ++ (b'\n' ∷ rest)
    → ask_port "Enter port to bind" "Enter port to bind [%d]: "
        (print_ssh_tunnel_guide environ (pos 8080) w).1
      ≡ (pos port, record (asked environ w) { stdin = rest })
unfolding ask_port
asked_port environ port rest w h e =
    ap (answer_or (pos 8080) atoi (asked environ w)) (port_read environ port rest w e)
    ∙ port_line port rest (asked environ w) h

-- A terminal for a server, by its command line
abbrev pub shown_in_terminal : List Bytes → (Bytes → Bool) → World → Bytes → World
shown_in_terminal environ x u line =
    let r = terminal_open environ x (codes "TCP Server") line u in
    ((if int_eq r.0 (pos 0) then skip else print "\nFailed to launch TCP Server terminal.\n" [])
      r.1).1

abbrev with_port : List Bytes → (Bytes → Bool) → Bool → ℤ × World → Round
with_port environ x here r = again (
    shown_in_terminal environ x r.1
      (command_line environ x here (codes " socket server " ++ int_text r.0)))

menu_asks :
    (environ : List Bytes) (x : Bytes → Bool) (here has_settings : Bool) (fuel : ℕ) (w : World)
    → on_socket_selection environ x here has_settings fuel (some (pos 0, w))
      ≡ with_port environ x here (
          ask_port "Enter port to bind" "Enter port to bind [%d]: "
            (print_ssh_tunnel_guide environ (pos 8080) w).1)
unfolding on_socket_selection socket_choice open_at_port open_or_say
menu_asks environ x here has_settings fuel w = refl

menu_opens :
    (environ : List Bytes) (x : Bytes → Bool) (here has_settings : Bool) (fuel port : ℕ)
    (rest : Bytes) (w : World)
    → port < 2 ^ 31
    → w.stdin ≡ decimal_bytes port ++ (b'\n' ∷ rest)
    → on_socket_selection environ x here has_settings fuel (some (pos 0, w))
      ≡ again (
          shown_in_terminal environ x
            (record (asked environ w) { stdin = rest })
            (cmd_line (sysmgr_program environ x here ∷ server_args port)))
menu_opens environ x here has_settings fuel port rest w h e =
    menu_asks environ x here has_settings fuel w
    ∙ ap (with_port environ x here) (asked_port environ port rest w h e)
    ∙ ap (λ l. again (shown_in_terminal environ x (record (asked environ w) { stdin = rest }) l))
        (server_line environ x here port)

module _ (b : Backend) where
  runs_server :
      (port : ℕ) (w : World)
      → port < 2 ^ 31
      → w.is_interactive ≡ false
      → dispatch_in b (codes "socket") (codes "server" ∷ int_text (pos port) ∷ []) w
        ≡ act b (socket (server_start (pos port))) w
  unfolding dispatch_in ladder dispatch_socket run_server int_text
  runs_server port w h i = rw (i, atoi-decimal_bytes port h) refl

  server_words : (port : ℕ) → All (λ u. Bare u × (u ≢ [])) (server_args port)
  unfolding int_text
  server_words port = (
    ground arith,
    (
      ground arith,
      (
        (
          Digits-Bare (decimal_bytes port) (decimal_bytes-Digits port),
          not_nil (decimal_bytes port) (decimal_bytes-full port),
        ),
        tt,
      ),
    ),
  )

  no_classic : (port : ℕ) → has_classic (server_args port) ≡ false
  unfolding has_classic int_text
  no_classic port = rw (not_classic (decimal_bytes port) (decimal_bytes-Digits port)) refl

  pub server_starts :
      (has_settings : Bool) (manager : ℕ → M (Unit {0})) (fuel port : ℕ) (w : World)
      → port < 2 ^ 31
      → main has_settings manager b fuel (server_args port) w
        ≡ some (b.perform (socket (server_start (pos port))) (started_with port w)).1
  unfolding one_of act repl_get_current_context
  server_starts has_settings manager fuel port w h =
      let args : List Bytes = codes "server" ∷ int_text (pos port) ∷ [] in
      let start : Repl = direct_start (codes "socket" ++ spaced args) w in
      main_runs_words has_settings manager b fuel b's' (codes "ocket") args w (server_words port)
        (omega arith) (omega arith) (no_classic port)
      ∙ ap (λ r. some r.1.world)
          (prefixed b (codes "socket") (codes "server") (int_text (pos port) ∷ []) start refl refl)
      ∙ ap (λ r. some r.1) (runs_server port (started_with port w) h refl)

  -- For every port below 2 ^ 31: the first choice of the menu for sockets, where the next line of
  -- standard input is the port in decimal, takes this line and opens a terminal titled TCP Server
  -- with the name of the program and the arguments socket, server and the port in decimal, with
  -- spaces between them, and says so if that fails; the menu goes on. The program started with
  -- these arguments makes one call of the modules, which starts the server on that port, and leaves
  -- the world that the call gives.
  pub opened_server :
      (environ : List Bytes) (x : Bytes → Bool) (here : Bool) (has_settings : Bool)
      (manager : ℕ → M (Unit {0})) (fuel port : ℕ) (rest : Bytes) (w : World)
      → port < 2 ^ 31
      → w.stdin ≡ decimal_bytes port ++ (b'\n' ∷ rest)
      → (on_socket_selection environ x here has_settings fuel (some (pos 0, w))
          ≡ again (
              shown_in_terminal environ x
                (record (asked environ w) { stdin = rest })
                (cmd_line (sysmgr_program environ x here ∷ server_args port))))
        × (main has_settings manager b fuel (server_args port) w
            ≡ some (b.perform (socket (server_start (pos port))) (started_with port w)).1)
  opened_server environ x here has_settings manager fuel port rest w h e = (
    menu_opens environ x here has_settings fuel port rest w h e,
    server_starts has_settings manager fuel port w h,
  )
