-- ===== src/Cli/Repl.antt =====
-- cli/repl.c and cli/history.c: routing a command line, and the loop that reads them.
pub mod Valid
pub mod Invariant
pub mod Exits
pub mod Routes
pub mod KeepsLines
pub mod Ends
use Prim.Native.String.{String}
use nhan_linux_process.Prelude.{
  ℕ, zero, suc, Bool, true, false, not, ◌&&◌, ◌||◌, Option, none, some, List, [], ◌∷◌, ◌++◌,
  if◌then◌else◌, ◌==◌, length, get_or, str_eq, codes, Bytes, ℤ, pos,
}
use nhan_linux_process.Libc.Strings.{is_empty, has_prefix, strtok_words}
use nhan_linux_process.System.Call.{shell, cron_execute, time_execute}
use nhan_linux_process.System.World.{
  World, Event, gone, by_exit, endless, M, skip, ◌>>=◌, ◌>>◌, text, nat, print, log_info,
}
use nhan_linux_process.System.Backend.{Backend}
use nhan_linux_process.Cli.Parser.{parser_tokenize}
use nhan_linux_process.Cli.Names.{one_of}
use nhan_linux_process.Cli.Prompt.{linenoise, escape_line}
use nhan_linux_process.Cli.Context.{
  Contexts, main_context, initial, repl_get_current_context, context_push, context_pop,
}
use nhan_linux_process.Cli.Palette.Items.{PaletteItem, palette_items}
use nhan_linux_process.Cli.Palette.{palette_search_and_show}
use nhan_linux_process.Cli.Ui.{ui_show_help}
use nhan_linux_process.Cli.Dispatch.Ladder.{TableOf, ladder, act, unknown}
use nhan_linux_process.Cli.Dispatch.Socket.{dispatch_socket}
use nhan_linux_process.Cli.Dispatch.Commands.{
  dispatch_file, dispatch_process, dispatch_network, dispatch_package, dispatch_shell,
  dispatch_kernel,
}

-- The statics of repl.c, what was handed to linenoiseHistoryAdd (the newest in front), the system.
pub record Repl : Type 0 where
  pub contexts : Contexts
  pub history : List Bytes
  pub world : World

-- Behind a command the program goes on, or the command line called `exit(0)`, or a module ended the
-- program, or a module never returns.
pub data Flow : Type 0 where
  goes_on exits ended stuck : Flow

-- By the newest event
abbrev pub flow_after : List Event → Flow
flow_after (gone by_exit ∷ trace) = ended
flow_after (gone endless ∷ trace) = stuck
flow_after _ = goes_on

abbrev pub current : Repl → Bytes
current s = repl_get_current_context s.contexts

abbrev pub with_contexts : (Contexts → Contexts) → Repl → Flow × Repl
with_contexts f s = (goes_on, record s { contexts = f s.contexts })

abbrev pub effect : M (Unit {0}) → Repl → Flow × Repl
effect m s = (flow_after (m s.world).1.trace, record s { world = (m s.world).1 })

abbrev pub exit_program : Repl → Flow × Repl
exit_program s = (
  exits,
  record s {
    world = ((do log_info "REPL" "Graceful exit triggered." []; print "Goodbye!\n" []) s.world).1;
  },
)

abbrev pub received : Bytes → List Bytes → Bytes → M (Unit {0})
received root args ctx =
    log_info "REPL" "Command received: '%s' (args count: %d) under context '%s'"
      (text root ∷ nat (length args) ∷ text ctx ∷ [])

module _ (b : Backend) where
  -- `if (argc == 1) context_push(…) else dispatch_…(argc - 1, argv + 1)`
  abbrev pub enter : String → (List Bytes → M (Unit {0})) → List Bytes → Repl → Flow × Repl
  enter name dispatch [] s = with_contexts (context_push (codes name)) s
  enter name dispatch (a ∷ args) s = effect (dispatch (a ∷ args)) s

  abbrev pub main_table : Bytes → List Bytes → TableOf (Repl → Flow × Repl)
  main_table root args =
      ("file", enter "file" (dispatch_file b) args)
      ∷ ("process", enter "process" (dispatch_process b) args)
      ∷ ("network", enter "network" (dispatch_network b) args)
      ∷ ("socket", enter "socket" (dispatch_socket b) args)
      ∷ ("package", enter "package" (dispatch_package b) args)
      ∷ ("packet", enter "package" (dispatch_package b) args)
      ∷ ("shell", enter "shell" (dispatch_shell b) args)
      ∷ ("cron", effect (act b (shell (cron_execute (root ∷ args)))))
      ∷ ("time", effect (act b (shell (time_execute (root ∷ args)))))
      ∷ ("kernel", enter "kernel" (dispatch_kernel b) args)
      ∷ ("help", effect ui_show_help)
      ∷ ("exit", exit_program)
      ∷ []

  unfoldable pub route_main : Bytes → List Bytes → Repl → Flow × Repl
  route_main root args =
      ladder root (main_table root args) (
        effect
          (unknown "Error: Unknown context or command '%s'. Type / to browse contexts.\n" root))

  abbrev pub context_table : List Bytes → TableOf (M (Unit {0}))
  context_table argv =
      ("file", dispatch_file b argv)
      ∷ ("process", dispatch_process b argv)
      ∷ ("network", dispatch_network b argv)
      ∷ ("socket", dispatch_socket b argv)
      ∷ ("package", dispatch_package b argv)
      ∷ ("shell", dispatch_shell b argv)
      ∷ ("kernel", dispatch_kernel b argv)
      ∷ []

  -- The dispatcher of a context; there is none for any other name.
  unfoldable pub dispatch_in : Bytes → List Bytes → M (Unit {0})
  dispatch_in ctx argv = ladder ctx (context_table argv) skip

  unfoldable pub route_and_dispatch : List Bytes → Repl → Flow × Repl
  route_and_dispatch [] s = (goes_on, s)
  route_and_dispatch (root ∷ args) s =
      let ctx = current s in
      let t : Repl = record s { world = (received root args ctx s.world).1 } in
      if str_eq ctx main_context
      then route_main root args t
      else if str_eq root (codes "back") || str_eq root (codes "..")
      then with_contexts context_pop t
      else effect (dispatch_in ctx (root ∷ args)) t

-- The commands of the main context
abbrev pub main_commands : List String
main_commands =
    "file" ∷ "process" ∷ "network" ∷ "socket" ∷ "package" ∷ "packet" ∷ "shell" ∷ "kernel" ∷ "cron"
    ∷ "time" ∷ "help" ∷ "exit" ∷ []

-- A command of the table, or the first word of one.
abbrev pub offers : Bytes → PaletteItem → Bool
offers cmd i =
    str_eq (codes i.command) cmd
    || (has_prefix (codes i.command) cmd && get_or (codes i.command) (length cmd) 0 == b' ')

unfoldable pub offered : Bytes → Bytes → List PaletteItem → Bool
offered ctx cmd [] = false
offered ctx cmd (i ∷ items) =
    (str_eq (codes i.context) ctx && offers cmd i) || offered ctx cmd items

unfoldable pub is_valid_command : Bytes → Bytes → Bool
unfolding one_of offered
is_valid_command ctx cmd =
    if is_empty cmd
    then false
    else if str_eq ctx main_context
    then one_of cmd main_commands
    else offered ctx cmd palette_items

-- history_add
abbrev pub history_add : Bytes → List Bytes → List Bytes
history_add line h = if is_empty line then h else line ∷ h

module _ (b : Backend) where
  -- parser_tokenize into 64 arguments, and the command if there is one; `none` is a tokenizer that
  -- does not return.
  abbrev pub tokenize_and_route : Bytes → Repl → Flow × Repl
  tokenize_and_route line s = elim (parser_tokenize line 64) [
    | none ↦ (stuck, s)
    | some argv ↦ route_and_dispatch b argv s
  ]

  -- A line that begins with a slash: `line` is it, `cmd_part` what follows the slash.
  unfoldable pub slash_command : Bytes → Bytes → Repl → Flow × Repl
  slash_command line cmd_part s = elim (strtok_words 16 cmd_part) [
    | [] ↦ effect (palette_search_and_show (current s) line) s
    | word ∷ _ ↦
        if is_valid_command (current s) word
        then tokenize_and_route cmd_part s
        else effect (palette_search_and_show (current s) line) s
  ]

  -- One round of the loop, on the line that was read.
  unfoldable pub repl_line : Bytes → Repl → Flow × Repl
  unfolding slash_command
  repl_line [] s = (goes_on, s)
  repl_line (c ∷ cs) s =
      if str_eq (c ∷ cs) escape_line
      then with_contexts context_pop s
      else if c == b'/'
      then slash_command (c ∷ cs) cs s
      else tokenize_and_route (c ∷ cs) (record s { history = history_add (c ∷ cs) s.history })

  -- The loop, on fuel: how it left, by the end of the input (`goes_on`), by `exit(0)`, or in a
  -- command that did not come back; `none` is fuel run out.
  unfoldable pub repl_loop : ℕ → Repl → Option (Flow × Repl)
  unfolding linenoise
  repl_loop zero s = none
  repl_loop (suc fuel) s =
      let (answer, w) = linenoise s.world in
      let t : Repl = record s { world = w } in
      elim answer [
        | none ↦ some (effect (print "\n" []) t)
        | some line ↦
            let (flow, u) = repl_line line t in
            elim flow [
              | goes_on ↦ repl_loop fuel u
              | exits ↦ some (exits, u)
              | ended ↦ some (ended, u)
              | stuck ↦ some (stuck, u)
            ]
      ]

  -- Each round takes a line, so that a round for each line and one for the end is enough.
  unfoldable pub repl_run : Repl → Option (Flow × Repl)
  repl_run s = repl_loop (suc (length s.world.typed)) s

  -- `none` stands for a null pointer.
  unfoldable pub repl_execute_command : Option Bytes → Repl → Flow × Repl
  repl_execute_command none s = (goes_on, s)
  repl_execute_command (some []) s = (goes_on, s)
  repl_execute_command (some (c ∷ cs)) s = tokenize_and_route (if c == b'/' then cs else c ∷ cs) s
