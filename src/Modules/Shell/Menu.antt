-- ===== src/Modules/Shell/Menu.antt =====
-- modules/shell/shell_mgr.c: the entries of `shell_mgr_run`, the menu of the module.
pub mod Loop
use Prim.Native.String.{String}
use nhan_linux_process.Prelude.{
  ℕ, zero, suc, Bool, true, false, Option, none, some, List, [], ◌∷◌, if◌then◌else◌, ◌==◌, codes,
  Bytes, ℤ, pos, negsuc, int_eq,
}
use nhan_linux_process.Libc.Strings.{is_empty, chomp}
use nhan_linux_process.Libc.Stdio.{fgets}
use nhan_linux_process.System.World.{World, M, skip, ◌>>=◌, ◌>>◌, print, log_info}
use nhan_linux_process.System.Files.{Files}
use nhan_linux_process.Cli.Ui.Menu.{ui_select_menu}
use nhan_linux_process.App.Menu.{menu_read_choice, menu_pause}
use nhan_linux_process.Modules.Shell.{shell_mgr_execute}
use nhan_linux_process.Modules.Shell.Cron.{run, shell_mgr_cron_execute}
use nhan_linux_process.Modules.Shell.Time.{shell_mgr_time_execute}
use nhan_linux_process.Modules.Shell.Environment.Loop.{shell_mgr_env_run}

-- The world and the environment of the process.
pub record Shell : Type 0 where
  pub world : World
  pub environ : List Bytes

pub data ShellRound : Type 0 where
  shell_leaves shell_again : Shell → ShellRound
  shell_hangs : ShellRound

abbrev does : M (Unit {0}) → Shell → Shell
does m s = record s { world = (m s.world).1 }

-- How a round goes on from a call that may not return.
abbrev called_then : (World → World) → Shell → Option World → ShellRound
called_then after s none = shell_hangs
called_then after s (some u) = shell_again (record s { world = after u })

abbrev paused : World → World
paused u = (menu_pause u).1

abbrev unpaused : World → World
unpaused u = u

-- The command on the line that is read into 512 bytes
abbrev run_line : Bool → Option (Bytes × Bytes) → World → World
run_line complains none u = u
run_line complains (some (line, rest)) u =
    let v : World = record u { stdin = rest } in
    if is_empty (chomp line)
    then (if complains then (print "Error: Empty command string.\n" [] v).1 else v)
    else (run (chomp line) v).1

unfoldable pub read_command : Bool → World → World
unfolding fgets chomp shell_mgr_execute
read_command complains w = run_line complains (fgets 512 w.stdin) w

abbrev scripts : ℕ → Option Bytes
scripts n =
    if n == 0
    then some (codes "/bin/bash scripts/backup.sh")
    else if n == 1
    then some (codes "/bin/bash scripts/disk_usage.sh")
    else if n == 2
    then some (codes "/bin/bash scripts/show_date.sh")
    else none

-- The script of number `n`, and the pause behind it at a terminal
unfoldable pub run_script : (World → World) → ℕ → World → World
unfolding shell_mgr_execute
run_script after n u = elim (scripts n) [ none ↦ u | some command ↦ after (run command u).1 ]

unfoldable pub on_script_choice : (World → World) → ℤ → World → World
unfolding run_script
on_script_choice after (pos n) u = run_script after n u
on_script_choice after (negsuc n) u = u

abbrev pub script_options : List String
script_options = "backup.sh" ∷ "disk_usage.sh" ∷ "show_date.sh" ∷ "Cancel" ∷ []

-- A number from the classic menu is one above its script.
abbrev one_below : ℤ → ℤ
one_below (pos zero) = negsuc 0
one_below (pos (suc n)) = pos n
one_below (negsuc n) = negsuc n

-- What the environment menu starts with in its buffers, and how many rounds it may take.
pub record EnvCall : Type 0 where
  pub fuel : ℕ
  pub garbage : Bytes × Bytes

unfoldable pub env_entry : Bool → EnvCall → Shell → ShellRound
unfolding shell_mgr_env_run
env_entry has_settings c s =
    elim (shell_mgr_env_run has_settings c.fuel c.garbage s.environ s.world) [
      | none ↦ shell_hangs
      | some (environ, u) ↦ shell_again (record { world = u; environ = environ })
    ]

module _ (fs : Files) (has_settings : Bool) (c : EnvCall) where
  abbrev select_script : World → Option World
  select_script w = elim (ui_select_menu has_settings "Select Script to Run" script_options w) [
    | none ↦ none
    | some (choice, u) ↦ some (on_script_choice paused choice u)
  ]

  unfoldable pub shell_entry : ℕ → Shell → ShellRound
  unfolding read_command on_script_choice env_entry shell_mgr_cron_execute shell_mgr_time_execute
      shell_mgr_execute
  shell_entry n s =
      if n == 0
      then (let asks : M (Unit {0}) = (do
        print "\nEnter command to execute (e.g. 'ls -l', 'pwd', 'whoami'):\n" []
        print "Command: " []) in
          called_then paused s (some (read_command true (asks s.world).1)))
      else if n == 1
      then called_then unpaused s (select_script s.world)
      else if n == 2
      then env_entry has_settings c s
      else if n == 3
      then (let runs : M ℤ = (do
        log_info "SHELL" "Running shell/file.sh" []
        run (codes "/bin/bash shell/file.sh")) in
          called_then paused s (some (runs s.world).1))
      else if n == 4
      then called_then paused s (
          shell_mgr_cron_execute has_settings []
            (log_info "SHELL" "Running task scheduling (cron)" [] s.world).1)
      else if n == 5
      then called_then paused s (
          shell_mgr_time_execute fs has_settings []
            (log_info "SHELL" "Running system time" [] s.world).1)
      else if n == 6
      then (let runs : M ℤ = (do
        log_info "SHELL" "Running package manager" []
        run (codes "/bin/bash shell/program.sh")) in
          called_then paused s (some (runs s.world).1))
      else shell_again s

  abbrev leave_shell : Shell → ShellRound
  leave_shell s = shell_leaves (does (log_info "SHELL" "Leaving Shell Manager" []) s)

  unfoldable pub on_shell_selection : Shell → Option (ℤ × World) → ShellRound
  unfolding shell_entry
  on_shell_selection s none = shell_hangs
  on_shell_selection s (some (pos n, u)) =
      let t : Shell = record s { world = u } in if n == 7 then leave_shell t else shell_entry n t
  on_shell_selection s (some (negsuc zero, u)) = leave_shell (record s { world = u })
  on_shell_selection s (some (negsuc (suc n), u)) = shell_again (record s { world = u })

  -- The classic menu has no pauses, and a number that it does not list shows it again.
  unfoldable pub on_shell_choice : ℤ → Shell → ShellRound
  unfolding read_command on_script_choice env_entry shell_mgr_cron_execute shell_mgr_time_execute
      shell_mgr_execute
  on_shell_choice (negsuc n) s = leave_shell s
  on_shell_choice (pos n) s =
      if n == 0
      then leave_shell s
      else if n == 1
      then called_then unpaused s (some (read_command false s.world))
      else if n == 2
      then (let r = menu_read_choice s.world in
          called_then unpaused s (some (on_script_choice unpaused (one_below r.0) r.1)))
      else if n == 3
      then env_entry has_settings c s
      else if n == 4
      then called_then unpaused s (some (run (codes "/bin/bash shell/file.sh") s.world).1)
      else if n == 5
      then called_then unpaused s (shell_mgr_cron_execute has_settings [] s.world)
      else if n == 6
      then called_then unpaused s (shell_mgr_time_execute fs has_settings [] s.world)
      else if n == 7
      then called_then unpaused s (some (run (codes "/bin/bash shell/program.sh") s.world).1)
      else shell_again s
