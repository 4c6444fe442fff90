-- ===== src/Cli/Keeps/Socket.antt =====
-- cli/repl.c: the dispatcher of the socket context and the lines of the line editor.
use Prim.Native.String.{String}
use nhan_linux_process.Prelude.{
  ℕ, ◌≤◌, List, [], ◌∷◌, ◌++◌, length, Bytes, pos, int_eq, ◌+◌, arith, codes,
}
use nhan_linux_process.Libc.Strings.{copy_to}
use nhan_linux_process.System.Call.{socket, terminal_open, ssh_tunnel_guide}
use nhan_linux_process.System.World.{World, M}
use nhan_linux_process.System.Backend.{Backend}
use nhan_linux_process.Cli.Prompt.{cancelled}
use nhan_linux_process.Cli.Dispatch.Socket.{
  unless_cancelled, open_terminal, guide, ask_port, ask_address, or_default, default_port,
  local_host, multi_server, log_closed, open_guest, open_host, listen_here, join_there, run_status,
  run_server, run_client, run_multi, chat_demo, chat_mode, chat_menu, chat_direct, interactive_chat,
  piped_chat, run_chat, socket_table, dispatch_socket, sysmgr_cmd,
}
use nhan_linux_process.Cli.Keeps.Rules.{
  Keeps, Keeps-bind, Keeps-then, Keeps-emit, Keeps-skip, Keeps-if, Keeps-get_arg_or_prompt,
  Keeps-act, act_kept, Keeps-ladder,
}

Keeps-unless_cancelled :
    (size index : ℕ) (argv : List Bytes) (prompt : Bytes) {next : Bytes → M (Unit {0})}
    → ((x : Bytes) → Keeps (next x))
    → Keeps (unless_cancelled size index argv prompt next)
unfolding unless_cancelled
Keeps-unless_cancelled size index argv prompt {next} k =
    Keeps-bind _ (Keeps-get_arg_or_prompt size index argv prompt)
      (λ r. Keeps-if (int_eq r.0 cancelled) Keeps-skip (k r.1))

module _ (b : Backend) where
  Keeps-open_terminal :
      (title command : Bytes) (failure : String) → Keeps (open_terminal b title command failure)
  unfolding open_terminal
  Keeps-open_terminal title command failure = record {
    kept = λ w. ground (
      arith,
      b.perform_typed (socket (terminal_open title (copy_to 256 (sysmgr_cmd b ++ command)))) w,
    );
  }

  Keeps-ask_port :
      (index : ℕ) (argv : List Bytes) (prompt title command : Bytes) (failure : String)
      → Keeps (ask_port b index argv prompt title command failure)
  unfolding ask_port guide
  Keeps-ask_port index argv prompt title command failure =
      Keeps-then (Keeps-act b (socket (ssh_tunnel_guide (pos 8080)))) (
        Keeps-unless_cancelled 64 index argv prompt
          (λ port. Keeps-open_terminal title (command ++ or_default port default_port) failure))

  Keeps-ask_address :
      (index : ℕ) (argv : List Bytes) (prompt prompt_port title command : Bytes) (failure : String)
      → Keeps (ask_address b index argv prompt prompt_port title command failure)
  unfolding ask_address guide
  Keeps-ask_address index argv prompt prompt_port title command failure =
      Keeps-then (Keeps-act b (socket (ssh_tunnel_guide (pos 8080)))) (
        Keeps-unless_cancelled 128 index argv prompt (λ ip.
          Keeps-unless_cancelled 64 (index + 1) argv prompt_port (λ port.
            Keeps-open_terminal title
              (command ++ (or_default ip local_host ++ (codes " " ++ or_default port default_port)))
              failure)))

  ask_port_kept :
      (index : ℕ) (argv : List Bytes) (prompt title command : Bytes) (failure : String) (w : World)
      → length (ask_port b index argv prompt title command failure w).1.typed ≤ length w.typed
  ask_port_kept index argv prompt title command failure w =
      (Keeps-ask_port index argv prompt title command failure).kept w

  ask_address_kept :
      (index : ℕ) (argv : List Bytes) (prompt prompt_port title command : Bytes) (failure : String)
      (w : World)
      → length (ask_address b index argv prompt prompt_port title command failure w).1.typed
        ≤ length w.typed
  ask_address_kept index argv prompt prompt_port title command failure w =
      (Keeps-ask_address index argv prompt prompt_port title command failure).kept w

  ruleset asks = (arith, ask_port_kept, ask_address_kept, act_kept)

  Keeps-run_server : (argv : List Bytes) → Keeps (run_server b argv)
  unfolding run_server
  Keeps-run_server argv = record { kept = λ w. grind asks }

  Keeps-run_client : (argv : List Bytes) → Keeps (run_client b argv)
  unfolding run_client
  Keeps-run_client argv = record { kept = λ w. grind asks }

  Keeps-run_multi : (argv : List Bytes) → Keeps (run_multi b argv)
  unfolding run_multi multi_server log_closed
  Keeps-run_multi argv = record { kept = λ w. grind asks }

  open_host_kept : (w : World) → length (open_host b w).1.typed ≤ length w.typed
  unfolding open_host open_guest open_terminal
  open_host_kept w = grind (arith, b.perform_typed)

  chat_mode_kept :
      (argv : List Bytes) (sub_cmd : Bytes) (w : World)
      → length (chat_mode b argv sub_cmd w).1.typed ≤ length w.typed
  unfolding chat_mode chat_demo
  chat_mode_kept argv sub_cmd w = grind (asks, open_host_kept)

  chat_menu_kept :
      (argv : List Bytes) (w : World) → length (chat_menu b argv w).1.typed ≤ length w.typed
  unfolding chat_menu
  chat_menu_kept argv w = grind (arith, b.select_typed, chat_mode_kept)

  run_chat_kept :
      (argv : List Bytes) (w : World) → length (run_chat b argv w).1.typed ≤ length w.typed
  unfolding run_chat interactive_chat piped_chat chat_direct listen_here join_there
  run_chat_kept argv w = grind (arith, chat_mode_kept, chat_menu_kept, act_kept)

  run_status_kept : (w : World) → length (run_status b w).1.typed ≤ length w.typed
  unfolding run_status
  run_status_kept w = grind (arith, act_kept)

  pub Keeps-dispatch_socket : (argv : List Bytes) → Keeps (dispatch_socket b argv)
  unfolding dispatch_socket
  Keeps-dispatch_socket [] = Keeps-skip
  Keeps-dispatch_socket (cmd ∷ args) =
      let argv : List Bytes = cmd ∷ args in
      Keeps-ladder cmd (socket_table b argv)
        (
          Keeps-run_server argv,
          (
            Keeps-run_client argv,
            (
              Keeps-run_multi argv,
              (record { kept = run_chat_kept argv }, (record { kept = run_status_kept }, tt)),
            ),
          ),
        )
        (Keeps-emit _)
