-- ===== src/Tests/Routing.antt =====
-- Runs of the command line of cli/repl.c.
use Prim.Native.String.{String}
use nhan_linux_process.Prelude.{
  pos, All, inr, true, false, Option, some, List, [], ◌∷◌, codes, Bytes, ◌≡◌, ◌↔◌, inl, refl, arith,
}
use nhan_linux_process.Cli.Context.{main_context, initial, repl_get_current_context}
use nhan_linux_process.Cli.Names.{one_of}
use nhan_linux_process.Cli.Dispatch.Ladder.{unknown}
use nhan_linux_process.Cli.Repl.{
  ended, stuck, route_main, current, effect, dispatch_in, route_and_dispatch, is_valid_command,
}
use nhan_linux_process.Cli.Repl.Invariant.{Step, route_and_dispatch-Step}
use nhan_linux_process.Cli.Repl.Valid.{NoSpace, commands, valid_iff_dispatched}
use nhan_linux_process.Cli.Repl.Routes.{logged_command, refused_lem, same_command}
use nhan_linux_process.Cli.Autocomplete.{completion_callback}
use nhan_linux_process.Cli.Autocomplete.Laws.{Accepted, slash_completions-Accepted}
use nhan_linux_process.System.World.{Halt, by_exit, endless, gone}
use nhan_linux_process.System.Backend.{Backend}
use nhan_linux_process.Cli.Dispatch.Ladder.{ladder, act}
use nhan_linux_process.Cli.Dispatch.Commands.{dispatch_shell, dispatch_kernel}
use nhan_linux_process.Tests.{recorder, at_start, inside}

-- What a user types: a context, a command, a search, and the way out.
abbrev session : List (Option Bytes)
session =
    some (codes "file")
    ∷ some (codes "list docs")
    ∷ some (codes "/cop")
    ∷ some (codes "back")
    ∷ some (codes "exit")
    ∷ some (codes "help")
    ∷ []

route_and_dispatch-Step_example :
    Step initial (route_and_dispatch recorder (codes "shell" ∷ []) (at_start [])).1.contexts
route_and_dispatch-Step_example =
    route_and_dispatch-Step recorder (codes "shell" ∷ []) (at_start [])

word-NoSpace : NoSpace (codes "status")
word-NoSpace = ground arith

socket_nested :
    one_of
      (codes "socket")
      ("file" ∷ "process" ∷ "network" ∷ "socket" ∷ "package" ∷ "shell" ∷ "kernel" ∷ [])
    ≡ true
unfolding one_of
socket_nested = refl

valid_iff_dispatched_example :
    (is_valid_command (codes "socket") (codes "status") ≡ true)
    ↔ (one_of (codes "status") ("back" ∷ commands recorder [] (codes "socket")) ≡ true)
valid_iff_dispatched_example =
    valid_iff_dispatched recorder [] (codes "socket") (codes "status") socket_nested word-NoSpace
      (λ e. cc)

status_invalid : is_valid_command (current (at_start [])) (codes "status") ≡ false
unfolding is_valid_command repl_get_current_context
status_invalid = refl

current_main : current (at_start []) ≡ main_context
unfolding repl_get_current_context
current_main = refl

current-inside : current (inside "socket") ≡ codes "socket"
unfolding repl_get_current_context
current-inside = refl

refused_lem_example :
    (m : String) × (route_and_dispatch recorder (codes "status" ∷ []) (at_start [])
      ≡ effect (unknown m (codes "status")) (logged_command (codes "status") [] (at_start [])))
refused_lem_example =
    refused_lem recorder (codes "status") [] (at_start []) word-NoSpace (λ e. cc) (λ e. cc)
      (inl current_main) status_invalid

same_command_example :
    (route_and_dispatch recorder (codes "socket" ∷ codes "status" ∷ []) (at_start [])
      ≡ effect
          (dispatch_in recorder (codes "socket") (codes "status" ∷ []))
          (logged_command (codes "socket") (codes "status" ∷ []) (at_start [])))
    × (route_and_dispatch recorder (codes "status" ∷ []) (inside "socket")
        ≡ effect
            (dispatch_in recorder (codes "socket") (codes "status" ∷ []))
            (logged_command (codes "status") [] (inside "socket")))
same_command_example =
    same_command recorder (codes "socket") (codes "status") [] (at_start []) (inside "socket")
      socket_nested current_main current-inside refl

-- Modules whose calls do not come back
abbrev no_return : Halt → Backend
no_return h = record recorder {
  perform = λ c w. (record { value = pos 0; contents = [] }, record w { trace = gone h ∷ w.trace });
  perform_typed = λ c w. omega arith;
}

ends_in_module :
    (route_and_dispatch (no_return by_exit) (codes "kernel" ∷ codes "info" ∷ []) (at_start [])).0
    ≡ ended
unfolding route_and_dispatch route_main ladder dispatch_kernel act repl_get_current_context
ends_in_module = refl

stands_in_module :
    (route_and_dispatch (no_return endless) (codes "shell" ∷ codes "env" ∷ []) (at_start [])).0
    ≡ stuck
unfolding route_and_dispatch route_main ladder dispatch_shell act repl_get_current_context
stands_in_module = refl

slash_completions-Accepted_example :
    All (Accepted (codes "socket")) (completion_callback true (codes "socket") (b'/' ∷ codes "ch"))
slash_completions-Accepted_example =
    slash_completions-Accepted (codes "socket") (codes "ch") (inr socket_nested)

in-NoSpace : NoSpace (codes "in")
in-NoSpace = ground arith

completes :
    completion_callback true (codes "package") (codes "in") ≡ codes "info" ∷ codes "install" ∷ []
unfolding completion_callback
completes = refl
