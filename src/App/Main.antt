-- ===== src/App/Main.antt =====
-- app/main.c: the modes of the program and the loop of the classic menu.
pub mod Laws
use Prim.Native.String.{String}
use nhan_linux_process.Prelude.{
  ℕ, zero, suc, ◌+◌, Bool, true, false, ◌||◌, Option, none, some, List, [], ◌∷◌, ◌++◌,
  if◌then◌else◌, ◌==◌, length, str_eq, codes, Bytes, ℤ, pos, negsuc, minus_one, int_eq, is_neg,
  at_most, not,
}
use nhan_linux_process.System.World.{World, M, skip, ◌>>=◌, ◌>>◌, text, print, log_info}
use nhan_linux_process.System.Round.{Round, leaves, again, hangs}
use nhan_linux_process.System.Backend.{Backend}
use nhan_linux_process.Cli.Context.{initial}
use nhan_linux_process.Cli.Ui.Menu.{ui_select_menu}
use nhan_linux_process.Cli.Repl.{Flow, Repl, repl_run, repl_execute_command}
use nhan_linux_process.App.Menu.{menu_clear_screen, menu_display_main, menu_read_choice, menu_pause}

-- The loop over `argv` for `--classic`
unfoldable pub has_classic : List Bytes → Bool
has_classic [] = false
has_classic (a ∷ args) = str_eq a (codes "--classic") || has_classic args

-- The loop of strcat: a space between two arguments.
unfoldable pub cmd_line : List Bytes → Bytes
cmd_line [] = []
cmd_line (a ∷ []) = a
cmd_line (a ∷ b ∷ args) = a ++ (b' ' ∷ cmd_line (b ∷ args))

abbrev pub main_options : List String
main_options =
    "File Manager (Quản lý file)" ∷ "Process Manager (Quản lý tiến trình)"
    ∷ "Network Manager (Quản lý mạng)" ∷ "Socket Manager (Quản lý Socket)"
    ∷ "Package Manager (Quản lý gói phần mềm)" ∷ "Shell Manager (Quản lý Shell)"
    ∷ "Kernel Module (Quản lý Kernel)" ∷ "Exit (Thoát)" ∷ []

-- `sel == 7 || sel == -1` is the exit, any other entry one more than its number.
abbrev pub choice_from : ℤ → ℤ
choice_from (pos n) = if n == 7 then pos 0 else pos (n + 1)
choice_from (negsuc zero) = pos 0
choice_from (negsuc (suc n)) = negsuc n

abbrev pub manager_names : List (String × String)
manager_names =
    ("Entering File Manager", "Leaving File Manager")
    ∷ ("Entering Process Manager", "Leaving Process Manager")
    ∷ ("Entering Network Manager", "Leaving Network Manager")
    ∷ ("Entering Socket Manager", "Leaving Socket Manager")
    ∷ ("Entering Package Manager", "Leaving Package Manager")
    ∷ ("Entering Shell Manager", "Leaving Shell Manager")
    ∷ ("Entering Kernel Module Manager", "Leaving Kernel Module Manager")
    ∷ []

-- The statics of the program before its first command.
abbrev pub starts : World → Repl
starts w = record { contexts = initial; history = []; world = w }

abbrev pub world_of : Option (Flow × Repl) → Option World
world_of none = none
world_of (some r) = some r.1.world

-- The statics in direct mode, where the line is logged.
abbrev pub direct_start : Bytes → World → Repl
direct_start line w =
    starts
      (log_info "SYSTEM" "Direct command invocation: '%s'" (text line ∷ [])
        (record w { is_interactive = false })).1

-- `manager n` is the menu of a module, file_mgr_run for 1 up to kernel_mgr_run for 7.
module _ (has_settings : Bool) (manager : ℕ → M (Unit {0})) where
  -- The chain over the choices `n`, `n + 1`, …
  unfoldable pub enter_manager : List (String × String) → ℕ → ℤ → M (Unit {0})
  unfolding menu_pause
  enter_manager [] n choice = skip
  enter_manager ((entering, leaving) ∷ more) n choice =
      let next = enter_manager more (suc n) choice in
      if int_eq choice (pos n)
      then (do log_info "SYSTEM" entering []; manager n; log_info "SYSTEM" leaving []; menu_pause)
      else next

  unfoldable pub dispatch_choice : ℤ → World → Round
  unfolding enter_manager
  dispatch_choice choice w =
      if int_eq choice (pos 0)
      then leaves
          ((do
            log_info "SYSTEM" "Application shutting down" []
            print "\nExiting Linux System Manager. Goodbye!\n" [])
            w).1
      else again (enter_manager manager_names 1 choice w).1

  abbrev pub on_selection : Option (ℤ × World) → Round
  on_selection none = hangs
  on_selection (some (sel, u)) = dispatch_choice (choice_from sel) u

  -- A choice that is read, below 0 or above 7 an invalid one
  unfoldable pub on_choice : ℤ → World → Round
  unfolding dispatch_choice menu_pause
  on_choice choice w =
      if is_neg choice || not (at_most 7 choice)
      then again
          ((do
            print "\n%sInvalid input. Please choose a number between 0 and 7.%s\n" []
            menu_pause)
            w).1
      else dispatch_choice choice w

  unfoldable pub classic_round : World → Round
  unfolding on_choice menu_clear_screen menu_display_main menu_read_choice ui_select_menu
  classic_round w =
      if w.is_interactive
      then on_selection (ui_select_menu has_settings "Linux System Manager" main_options w)
      else let r = menu_read_choice (menu_display_main (menu_clear_screen w).1).1 in
        on_choice r.0 r.1

  -- The loop, on fuel; `none` is a loop that still goes on, or hangs.
  unfoldable pub classic_loop : ℕ → World → Option World
  unfolding classic_round
  classic_loop zero w = none
  classic_loop (suc fuel) w = elim (classic_round w) [
    | leaves u ↦ some u
    | again u ↦ classic_loop fuel u
    | hangs ↦ none
  ]

  -- `args` are those behind the name of the program; `fuel` is for the classic loop.
  unfoldable pub main : Backend → ℕ → List Bytes → World → Option World
  unfolding classic_loop has_classic cmd_line
  main b fuel args w =
      if has_classic args
      then classic_loop fuel (log_info "SYSTEM" "Application started in classic mode" [] w).1
      else elim args [
        | [] ↦ world_of (
            repl_run b (
              starts
                (log_info "SYSTEM" "Application started in modern interactive REPL mode" [] w).1))
        | a ∷ more ↦
            let line = cmd_line (a ∷ more) in
            some (repl_execute_command b (some line) (direct_start line w)).1.world
      ]
