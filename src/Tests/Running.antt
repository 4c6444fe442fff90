-- ===== src/Tests/Running.antt =====
-- Runs of the modules that start scripts, alone and from the command line.
use Prim.Native.String.{String}
use nhan_linux_process.Prelude.{
  Bytes, Option, List, ◌+◌, ◌-◌, ◌<◌, true, none, some, [], ◌∷◌, length, take, codes, pos,
  minus_one, to_int, if◌then◌else◌, ◌≡◌, refl, arith, ◌++◌,
}
use nhan_linux_process.System.Call.{FileOp, PackageOp}
use nhan_linux_process.System.World.{World}
use nhan_linux_process.System.Script.{programs, RunsOnce, next_child_ok}
use nhan_linux_process.Modules.File.Read.{file_mgr_read, piped, read_argv, read_runs}
use nhan_linux_process.Modules.File.Laws.{file_run, file_run-RunsOnce}
use nhan_linux_process.Modules.Package.Laws.{package_run, package_run-RunsOnce}
use nhan_linux_process.Libc.Stdio.{OneLine}
use nhan_linux_process.System.Script.{run_script_as}
use nhan_linux_process.Modules.Package.{package_mgr_install}
use nhan_linux_process.Modules.Package.Menu.{
  on_package_selection, ask_name, package_choice, package_mgr_run,
}
use nhan_linux_process.Modules.Package.Named.{Asked, package_choice_lem}
use nhan_linux_process.Cli.Explain.{print_prompt_explanation}
use nhan_linux_process.Cli.Ui.Menu.{ui_select_menu, select_by_keys}
use nhan_linux_process.App.Menu.{menu_read_choice, menu_pause}
use nhan_linux_process.Modules.Linked.{linked}
use nhan_linux_process.Cli.Context.{main_context, repl_get_current_context}
use nhan_linux_process.Cli.Repl.{current, route_and_dispatch}
use nhan_linux_process.App.Commands.{
  Starts, file_copy-Starts, package_install-Starts, shell_exec-Starts,
}
use nhan_linux_process.Tests.{world, recorder, at_start}

abbrev w : World
w = world [] []

file_run-RunsOnce_example :
    RunsOnce "shell/file.sh"
      (codes "shell/file.sh" ∷ codes "rename" ∷ codes "a" ∷ codes "b" ∷ [])
      (pos 0)
      w
      (file_run (FileOp.rename (codes "a") (codes "b")) w)
file_run-RunsOnce_example = file_run-RunsOnce (FileOp.rename (codes "a") (codes "b")) w refl refl

read_runs_example :
    let r = file_mgr_read (some (codes "notes")) (some 5) w in
    (r.0.0 ≡ (if next_child_ok w then to_int (pos (length r.0.1)) else minus_one))
    × (r.0.1 ≡ take (5 - 1) (piped (w.outputs w.forks)))
    × (length r.0.1 < 5)
    × (r.1.forks ≡ w.forks + 1)
    × (programs r.1.trace ≡ ("shell/file.sh", read_argv (codes "notes")) ∷ programs w.trace)
read_runs_example = read_runs (codes "notes") 5 w (omega arith) refl refl

reads_first_bytes : (file_mgr_read (some (codes "notes")) (some 5) w).0 ≡ (pos 4, codes "onet")
unfolding file_mgr_read
reads_first_bytes = refl

package_run-RunsOnce_example :
    RunsOnce "shell/program.sh"
      (codes "shell/program.sh" ∷ codes "install" ∷ codes "git" ∷ [])
      (pos 0)
      w
      (package_run (PackageOp.install (codes "git")) w)
package_run-RunsOnce_example = package_run-RunsOnce (PackageOp.install (codes "git")) w refl

current_main : current (at_start []) ≡ main_context
unfolding repl_get_current_context
current_main = refl

file_copy-Starts_example :
    Starts
      (at_start [])
      "shell/file.sh"
      (codes "shell/file.sh" ∷ codes "copy" ∷ codes "a" ∷ codes "b" ∷ [])
      (route_and_dispatch
        (linked recorder)
        (codes "file" ∷ codes "copy" ∷ codes "a" ∷ codes "b" ∷ [])
        (at_start []))
file_copy-Starts_example =
    file_copy-Starts recorder (codes "a") (codes "b") (at_start []) current_main (omega arith)
      (omega arith)

shell_exec-Starts_example :
    Starts (at_start []) "/bin/sh" (codes "sh" ∷ codes "-c" ∷ codes "ls -l" ∷ []) (
      route_and_dispatch
        (linked recorder)
        (codes "shell" ∷ codes "exec" ∷ codes "ls -l" ∷ [])
        (at_start []))
    × Starts (at_start []) "/bin/bash" (codes "bash" ∷ codes "a.sh" ∷ []) (
        route_and_dispatch
          (linked recorder)
          (codes "shell" ∷ codes "exec" ∷ codes "/bin/bash a.sh" ∷ [])
          (at_start []))
shell_exec-Starts_example =
    shell_exec-Starts recorder (codes "ls -l") (codes "a.sh") (at_start []) current_main refl
      (omega arith) refl (omega arith)

package_install-Starts_example :
    Starts
      (at_start [])
      "shell/program.sh"
      (codes "shell/program.sh" ∷ codes "install" ∷ codes "git" ∷ [])
      (route_and_dispatch
        (linked recorder)
        (codes "package" ∷ codes "install" ∷ codes "git" ∷ [])
        (at_start []))
package_install-Starts_example =
    package_install-Starts recorder (codes "git") (at_start []) current_main refl (omega arith)

-- The name of a package, a line for the pause, and more.
abbrev typed : World
typed = world [] (codes "git" ++ (b'\n' ∷ (b'\n' ∷ codes "x")))

git-OneLine : OneLine (codes "git")
git-OneLine = ground arith

package_choice_lem_example :
    Asked typed
      (PackageOp.install (codes "git"))
      (b'\n' ∷ codes "x")
      (package_choice (pos 3) typed).1
package_choice_lem_example =
    package_choice_lem 2 (codes "git") (b'\n' ∷ codes "x") typed (omega arith) git-OneLine (λ e. cc)
      (omega arith) refl

-- Two arrows down for the third option, its name, the pause, then an arrow up for the last one.
abbrev menu_input : Bytes
menu_input =
    (27 ∷ b'[' ∷ b'B' ∷ 27 ∷ b'[' ∷ b'B' ∷ b'\n' ∷ codes "git")
    ++ (b'\n' ∷ b'\n' ∷ 27 ∷ b'[' ∷ b'A' ∷ b'\n' ∷ [])

abbrev programs_of : Option World → List (String × List Bytes)
programs_of none = []
programs_of (some u) = programs u.trace

installs :
    programs_of (package_mgr_run true 2 (world [] menu_input))
    ≡ ("shell/program.sh", codes "shell/program.sh" ∷ codes "install" ∷ codes "git" ∷ []) ∷ []
unfolding package_mgr_run package_choice ask_name package_mgr_install ui_select_menu
    menu_read_choice menu_pause print_prompt_explanation run_script_as on_package_selection
    select_by_keys
installs = refl
