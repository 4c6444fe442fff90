-- ===== src/Modules/Shell/Cron.antt =====
-- modules/shell/shell_mgr.c: `shell_mgr_cron_execute`, the table of scheduled tasks.
use Prim.Native.String.{String}
use nhan_linux_process.Prelude.{
  ℕ, Bool, ◌||◌, Option, none, some, List, [], ◌∷◌, ◌++◌, if◌then◌else◌, get_elem?, str_eq, codes,
  Bytes, ℤ, pos, int_eq,
}
use nhan_linux_process.Libc.Strings.{is_empty, copy_to, chomp}
use nhan_linux_process.Libc.Stdio.{fgets}
use nhan_linux_process.System.World.{World, M, pure, skip, ◌>>=◌, ◌>>◌, text, print}
use nhan_linux_process.Cli.Explain.{print_prompt_explanation}
use nhan_linux_process.Cli.Prompt.{linenoise}
use nhan_linux_process.Cli.Ui.Menu.{ui_select_menu}
use nhan_linux_process.Modules.Shell.{shell_mgr_execute}

abbrev pub run : Bytes → M ℤ
run command = shell_mgr_execute (some command)

-- An answer for a buffer of `size` bytes that holds an empty text: from the line editor at a
-- terminal, from a line of standard input otherwise.
unfoldable pub ask_line : ℕ → Option String → String → M Bytes
unfolding linenoise fgets chomp
ask_line size explanation prompt w =
    if w.is_interactive
    then (do
      elim explanation [ none ↦ skip | some e ↦ print_prompt_explanation (codes e) ]
      input ← linenoise
      pure (elim input [ none ↦ [] | some line ↦ copy_to size line ]))
        w
    else let u : World = (print prompt [] w).1 in
      elim (fgets size u.stdin) [
        | none ↦ ([], u)
        | some (line, rest) ↦ (chomp line, record u { stdin = rest })
      ]

abbrev pub path_prompt : String
path_prompt = "Enter file path to script: "

abbrev pub expr_prompt : String
expr_prompt = "Enter cron expression (min hour dom month dow): "

abbrev pub chmod_command : Bytes → Bytes
chmod_command path = copy_to 512 (codes "chmod +x " ++ path)

abbrev pub cron_command : Bytes → Bytes → Bytes
cron_command expr path = copy_to 1024 (
    codes "crontab -l 2>/dev/null | { cat; echo \""
    ++ (expr ++ (codes " " ++ (path ++ codes "\"; } | crontab -"))))

-- The two commands, and what is said of the second.
unfoldable pub schedule : Bytes → Bytes → M (Unit {0})
unfolding shell_mgr_execute
schedule path expr = do
  run (chmod_command path)
  value ← run (cron_command expr path)
  if int_eq value (pos 0)
      then print "Successfully scheduled task '%s' with expression '%s'\n"
          (text path ∷ text expr ∷ [])
      else print "Failed to schedule task.\n" []

-- An argument as the buffer takes it, or what is asked for.
unfoldable pub given_or_asked : ℕ → Option Bytes → Option String → String → M Bytes
unfolding ask_line
given_or_asked size (some arg) explanation prompt = pure (copy_to size arg)
given_or_asked size none explanation prompt = ask_line size explanation prompt

unfoldable pub cron_create : Option Bytes → Option Bytes → M (Unit {0})
unfolding given_or_asked schedule
cron_create path_arg expr_arg = do
  path ← given_or_asked 256 path_arg (some path_prompt) path_prompt
  expr ←
      (if is_empty path
        then pure (elim expr_arg [ none ↦ [] | some e ↦ copy_to 128 e ])
        else given_or_asked 128 expr_arg (some "Enter cron expression") expr_prompt)
  if is_empty path || is_empty expr
      then print "Error: Missing file path or cron expression.\n" []
      else schedule path expr

abbrev pub cron_list : M (Unit {0})
cron_list = do print "\n--- Task Scheduling List ---\n" []; run (codes "crontab -l"); skip

abbrev pub cron_clear : M (Unit {0})
cron_clear = do run (codes "crontab -r"); print "All cron tasks deleted.\n" []

-- The subcommand of argv[1], with the arguments behind it.
unfoldable pub cron_subcommand : Bytes → List Bytes → M (Unit {0})
unfolding cron_create
cron_subcommand sub args =
    if str_eq sub (codes "list") || str_eq sub (codes "show")
    then cron_list
    else if str_eq sub (codes "delete") || str_eq sub (codes "clear")
    then cron_clear
    else if str_eq sub (codes "create")
    then cron_create (get_elem? args 0) (get_elem? args 1)
    else print "Unknown cron subcommand '%s'. Use: list, create, delete.\n" (text sub ∷ [])

abbrev pub cron_options : List String
cron_options =
    "Danh sách tác vụ (List scheduled tasks)" ∷ "Tạo tác vụ (Create new scheduled task)"
    ∷ "Xoá tất cả tác vụ (Delete all scheduled tasks)" ∷ "Cancel" ∷ []

-- The entry that creates a task: the lines are taken as they are, and a NULL ends the call.
unfoldable pub cron_create_asked : M (Unit {0})
unfolding linenoise schedule
cron_create_asked = do
  print_prompt_explanation (codes path_prompt)
  path ← linenoise
  elim path [
    | none ↦ skip
    | some p ↦ do
      print_prompt_explanation (codes "Enter cron expression")
      expr ← linenoise
      elim expr [ none ↦ skip | some e ↦ schedule p e ]
  ]

unfoldable pub on_cron_selection : ℤ → M (Unit {0})
unfolding cron_create_asked
on_cron_selection sel =
    if int_eq sel (pos 0)
    then cron_list
    else if int_eq sel (pos 1)
    then cron_create_asked
    else if int_eq sel (pos 2)
    then cron_clear
    else skip

-- `args` is argv without argv[0]; `none` is a menu that does not return.
unfoldable pub shell_mgr_cron_execute : Bool → List Bytes → World → Option World
unfolding cron_subcommand on_cron_selection
shell_mgr_cron_execute has_settings (sub ∷ args) w = some (cron_subcommand sub args w).1
shell_mgr_cron_execute has_settings [] w =
    if w.is_interactive
    then elim (ui_select_menu has_settings "Task Scheduling Manager (Cron)" cron_options w) [
      | none ↦ none
      | some (sel, u) ↦ some (on_cron_selection sel u).1
    ]
    else some (print "Usage: cron {list|create|delete} [args...]\n" [] w).1
