-- ===== src/Modules/Shell/Menu/Loop.antt =====
-- modules/shell/shell_mgr.c: `shell_mgr_run`.
use Prim.Native.String.{String}
use nhan_linux_process.Prelude.{
  ℕ, zero, suc, Bool, Option, none, some, List, [], ◌∷◌, if◌then◌else◌,
}
use nhan_linux_process.System.World.{M, ◌>>◌, print, log_info}
use nhan_linux_process.System.Files.{Files}
use nhan_linux_process.Cli.Ui.Menu.{ui_select_menu}
use nhan_linux_process.App.Menu.{menu_read_choice}
use nhan_linux_process.Modules.Shell.Menu.{
  Shell, ShellRound, shell_leaves, shell_again, shell_hangs, EnvCall, on_shell_selection,
  on_shell_choice,
}

abbrev pub shell_options : List String
shell_options =
    "Execute Command (Chạy lệnh)" ∷ "Run Script (Chạy kịch bản)"
    ∷ "Environment Manager (Quản lý môi trường)" ∷ "File Management (Quản lý tệp)"
    ∷ "Task Scheduling (Lập lịch tác vụ)" ∷ "System Time (Thời gian hệ thống)"
    ∷ "Package Manager (Trình quản lý gói)" ∷ "Return (Trở về)" ∷ []

abbrev pub print_shell_menu : M (Unit {0})
print_shell_menu = do
  print "\n========================================\n" []
  print "            Shell Manager\n" []
  print "========================================\n" []
  print "1. Execute Command\n" []
  print "2. Run Script\n" []
  print "3. Environment Manager\n" []
  print "4. File Management\n" []
  print "5. Task Scheduling\n" []
  print "6. System Time\n" []
  print "7. Package Manager\n" []
  print "0. Return\n" []
  print "========================================\n" []
  print "Select option: " []

unfoldable pub shell_round : Files → Bool → EnvCall → Shell → ShellRound
unfolding on_shell_selection on_shell_choice
shell_round fs has_settings c s =
    if s.world.is_interactive
    then on_shell_selection fs has_settings c s
        (ui_select_menu has_settings "Shell Manager" shell_options s.world)
    else (let r = menu_read_choice (print_shell_menu s.world).1 in
        on_shell_choice fs has_settings c r.0 (record s { world = r.1 }))

-- The loop on fuel; `none` is a loop that still goes on, or hangs.
unfoldable pub shell_rounds : Files → Bool → EnvCall → ℕ → Shell → Option Shell
unfolding shell_round
shell_rounds fs has_settings c zero s = none
shell_rounds fs has_settings c (suc fuel) s = elim (shell_round fs has_settings c s) [
  | shell_leaves t ↦ some t
  | shell_again t ↦ shell_rounds fs has_settings c fuel t
  | shell_hangs ↦ none
]

unfoldable pub shell_mgr_run : Files → Bool → EnvCall → ℕ → Shell → Option Shell
unfolding shell_rounds
shell_mgr_run fs has_settings c fuel s =
    shell_rounds fs has_settings c fuel
      (record s { world = (log_info "SHELL" "Entering Shell Manager" [] s.world).1 })
