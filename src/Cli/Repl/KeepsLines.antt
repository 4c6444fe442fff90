-- ===== src/Cli/Repl/KeepsLines.antt =====
-- cli/repl.c: what a line leaves of the lines that are left to the line editor.
use Prim.Native.String.{String}
use nhan_linux_process.Prelude.{
  ◌≤◌, ◌||◌, Option, none, some, List, [], ◌∷◌, if◌then◌else◌, if_elim, ◌==◌, length, str_eq, codes,
  Bytes, arith,
}
use nhan_linux_process.Libc.Strings.{strtok_words}
use nhan_linux_process.System.Call.{shell, cron_execute, time_execute}
use nhan_linux_process.System.World.{World, M, printed, text}
use nhan_linux_process.System.Backend.{Backend}
use nhan_linux_process.Cli.Parser.{parser_tokenize}
use nhan_linux_process.Cli.Prompt.{escape_line}
use nhan_linux_process.Cli.Context.{main_context}
use nhan_linux_process.Cli.Palette.{
  clean_query, matches, print_items, print_palette, palette_search_and_show,
}
use nhan_linux_process.Cli.Palette.Items.{PaletteItem, palette_items}
use nhan_linux_process.Cli.Ui.{help_texts, ui_show_help}
use nhan_linux_process.Cli.Dispatch.Ladder.{ladder_all}
use nhan_linux_process.Cli.Dispatch.Socket.{dispatch_socket}
use nhan_linux_process.Cli.Dispatch.Commands.{
  dispatch_file, dispatch_process, dispatch_network, dispatch_package, dispatch_shell,
  dispatch_kernel,
}
use nhan_linux_process.Cli.Keeps.Rules.{
  Keeps, Keeps-skip, Keeps-emit, Keeps-then, Keeps-act, Keeps-print_all, Keeps-ladder,
}
use nhan_linux_process.Cli.Keeps.Dispatch.{
  Keeps-dispatch_file, Keeps-dispatch_process, Keeps-dispatch_network, Keeps-dispatch_package,
  Keeps-dispatch_shell, Keeps-dispatch_kernel,
}
use nhan_linux_process.Cli.Keeps.Socket.{Keeps-dispatch_socket}
use nhan_linux_process.Cli.Repl.{
  current, main_table, context_table, history_add, tokenize_and_route, Repl, Flow, stuck, enter,
  effect, exit_program, route_main, dispatch_in, route_and_dispatch, received, slash_command,
  repl_line, is_valid_command,
}

-- A transition of the program that leaves no more lines unread than there were.
abbrev pub KeepsLines : (Repl → Flow × Repl) → Type 0
KeepsLines f = (s : Repl) → length (f s).1.world.typed ≤ length s.world.typed

effect-KeepsLines : {m : M (Unit {0})} → Keeps m → KeepsLines (effect m)
effect-KeepsLines k s = k.kept s.world

Keeps-ui_show_help : Keeps ui_show_help
unfolding ui_show_help
Keeps-ui_show_help = Keeps-print_all help_texts

Keeps-print_items : (items : List PaletteItem) → Keeps (print_items items)
unfolding print_items
Keeps-print_items [] = Keeps-skip
Keeps-print_items (i ∷ items) = Keeps-then (Keeps-emit _) (Keeps-print_items items)

print_items_kept :
    (items : List PaletteItem) (w : World) → length (print_items items w).1.typed ≤ length w.typed
print_items_kept items w = (Keeps-print_items items).kept w

Keeps-print_palette :
    (ctx query : Bytes) (found : List PaletteItem) → Keeps (print_palette ctx query found)
unfolding print_palette
Keeps-print_palette ctx query found = record { kept = λ w. grind (arith, print_items_kept) }

Keeps-palette : (ctx query : Bytes) → Keeps (palette_search_and_show ctx query)
unfolding palette_search_and_show
Keeps-palette ctx query =
    Keeps-print_palette ctx (clean_query query) (matches ctx (clean_query query) palette_items)

module _ (b : Backend) where
  enter-KeepsLines :
      (name : String) (dispatch : List Bytes → M (Unit {0})) (args : List Bytes)
      → ((argv : List Bytes) → Keeps (dispatch argv))
      → KeepsLines (enter b name dispatch args)
  enter-KeepsLines name dispatch [] k s = omega arith
  enter-KeepsLines name dispatch (a ∷ args) k s = (k (a ∷ args)).kept s.world

  exit_program-KeepsLines : KeepsLines exit_program
  exit_program-KeepsLines s = omega arith

  route_main-KeepsLines : (root : Bytes) (args : List Bytes) → KeepsLines (route_main b root args)
  unfolding route_main
  route_main-KeepsLines root args =
      ladder_all KeepsLines root (main_table b root args) _
        (
          enter-KeepsLines "file" (dispatch_file b) args (Keeps-dispatch_file b),
          (
            enter-KeepsLines "process" (dispatch_process b) args (Keeps-dispatch_process b),
            (
              enter-KeepsLines "network" (dispatch_network b) args (Keeps-dispatch_network b),
              (
                enter-KeepsLines "socket" (dispatch_socket b) args (Keeps-dispatch_socket b),
                (
                  enter-KeepsLines "package" (dispatch_package b) args (Keeps-dispatch_package b),
                  (
                    enter-KeepsLines "package" (dispatch_package b) args (Keeps-dispatch_package b),
                    (
                      enter-KeepsLines "shell" (dispatch_shell b) args (Keeps-dispatch_shell b),
                      (
                        effect-KeepsLines (Keeps-act b (shell (cron_execute (root ∷ args)))),
                        (
                          effect-KeepsLines (Keeps-act b (shell (time_execute (root ∷ args)))),
                          (
                            enter-KeepsLines "kernel" (dispatch_kernel b) args
                                (Keeps-dispatch_kernel b),
                            (effect-KeepsLines Keeps-ui_show_help, (exit_program-KeepsLines, tt)),
                          ),
                        ),
                      ),
                    ),
                  ),
                ),
              ),
            ),
          ),
        )
        (effect-KeepsLines (
          Keeps-emit (
            printed "Error: Unknown context or command '%s'. Type / to browse contexts.\n"
              (text root ∷ []))))

  Keeps-dispatch_in : (ctx : Bytes) (argv : List Bytes) → Keeps (dispatch_in b ctx argv)
  unfolding dispatch_in
  Keeps-dispatch_in ctx argv =
      Keeps-ladder ctx (context_table b argv)
        (
          Keeps-dispatch_file b argv,
          (
            Keeps-dispatch_process b argv,
            (
              Keeps-dispatch_network b argv,
              (
                Keeps-dispatch_socket b argv,
                (
                  Keeps-dispatch_package b argv,
                  (Keeps-dispatch_shell b argv, (Keeps-dispatch_kernel b argv, tt)),
                ),
              ),
            ),
          ),
        )
        Keeps-skip

  route_and_dispatch-KeepsLines : (argv : List Bytes) → KeepsLines (route_and_dispatch b argv)
  unfolding route_and_dispatch
  route_and_dispatch-KeepsLines [] s = omega arith
  route_and_dispatch-KeepsLines (root ∷ args) s =
      let t : Repl = record s { world = (received root args (current s) s.world).1 } in
      if_elim (λ (r : Flow × Repl). length r.1.world.typed ≤ length s.world.typed)
        (str_eq (current s) main_context) (route_main-KeepsLines root args t)
        (if_elim (λ (r : Flow × Repl). length r.1.world.typed ≤ length s.world.typed)
          (str_eq root (codes "back") || str_eq root (codes "..")) (omega arith)
          (omega (arith, (Keeps-dispatch_in (current s) (root ∷ args)).kept t.world)))

  tokenize_and_route-KeepsLines : (line : Bytes) → KeepsLines (tokenize_and_route b line)
  tokenize_and_route-KeepsLines line s = by_args (parser_tokenize line 64) s
    where
      by_args :
          (o : Option (List Bytes))
          → KeepsLines (λ t. elim o [ none ↦ (stuck, t) | some argv ↦ route_and_dispatch b argv t ])
      by_args none t = omega arith
      by_args (some argv) t = route_and_dispatch-KeepsLines argv t

  slash_command-KeepsLines : (line cmd_part : Bytes) → KeepsLines (slash_command b line cmd_part)
  unfolding slash_command
  slash_command-KeepsLines line cmd_part s = by_words (strtok_words 16 cmd_part) s
    where
      shows : KeepsLines (λ t. effect (palette_search_and_show (current t) line) t)
      shows t = (Keeps-palette (current t) line).kept t.world

      by_words :
          (ws : List Bytes)
          → KeepsLines (λ t. elim ws [
            | [] ↦ effect (palette_search_and_show (current t) line) t
            | word ∷ _ ↦
                if is_valid_command (current t) word
                then tokenize_and_route b cmd_part t
                else effect (palette_search_and_show (current t) line) t
          ])
      by_words [] t = shows t
      by_words (word ∷ _) t =
          if_elim (λ (r : Flow × Repl). length r.1.world.typed ≤ length t.world.typed)
            (is_valid_command (current t) word) (tokenize_and_route-KeepsLines cmd_part t) (shows t)

  pub repl_line-KeepsLines : (line : Bytes) → KeepsLines (repl_line b line)
  unfolding repl_line
  repl_line-KeepsLines [] s = omega arith
  repl_line-KeepsLines (c ∷ cs) s =
      let P = λ (r : Flow × Repl). length r.1.world.typed ≤ length s.world.typed in
      if_elim P (str_eq (c ∷ cs) escape_line) (omega arith) (
        if_elim P (c == b'/') (slash_command-KeepsLines (c ∷ cs) cs s) (
          tokenize_and_route-KeepsLines (c ∷ cs)
            (record s { history = history_add (c ∷ cs) s.history })))
