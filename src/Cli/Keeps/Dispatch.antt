-- ===== src/Cli/Keeps/Dispatch.antt =====
-- cli/repl.c: the dispatchers and the lines of the line editor.
use nhan_linux_process.Prelude.{Option, none, some, List, [], ◌∷◌, Bytes, arith}
use nhan_linux_process.System.Call.{file, FileOp}
use nhan_linux_process.System.Backend.{Backend}
use nhan_linux_process.Cli.Dispatch.Commands.{
  read_and_print, file_table, process_table, network_table, package_table, shell_table,
  kernel_table, script_menu, run_script, dispatch_file, dispatch_process, dispatch_network,
  dispatch_package, dispatch_shell, dispatch_kernel,
}
use nhan_linux_process.Cli.Keeps.Rules.{
  Keeps, Keeps-emit, Keeps-skip, Keeps-act, Keeps-with_arg, Keeps-ladder,
}

module _ (b : Backend) where
  Keeps-read_and_print : (path : Bytes) → Keeps (read_and_print b path)
  unfolding read_and_print
  Keeps-read_and_print path = record {
    kept = λ w. ground (arith, b.perform_typed (file (FileOp.read path)) w);
  }

  Keeps-script_menu : Keeps (script_menu b)
  unfolding script_menu
  Keeps-script_menu = record {
    kept = λ w.
        let chosen =
          b.select_typed "Select Script to Run"
            ("backup.sh (Execute pre-loaded backup script)"
              ∷ "disk_usage.sh (Show disk usage statistics)"
              ∷ "show_date.sh (Display current system date)" ∷ "Cancel" ∷ [])
            w in
        grind (arith, b.perform_typed);
  }

  ruleset rules = (Keeps-act, Keeps-with_arg, Keeps-read_and_print, Keeps-script_menu)

  pub Keeps-dispatch_process : (argv : List Bytes) → Keeps (dispatch_process b argv)
  unfolding dispatch_process
  Keeps-dispatch_process [] = Keeps-skip
  Keeps-dispatch_process (cmd ∷ args) =
      Keeps-ladder cmd (process_table b (cmd ∷ args)) (search rules) (Keeps-emit _)

  pub Keeps-dispatch_file : (argv : List Bytes) → Keeps (dispatch_file b argv)
  unfolding dispatch_file
  Keeps-dispatch_file [] = Keeps-skip
  Keeps-dispatch_file (cmd ∷ args) =
      Keeps-ladder cmd (file_table b (cmd ∷ args)) (search rules) (Keeps-emit _)

  pub Keeps-dispatch_network : (argv : List Bytes) → Keeps (dispatch_network b argv)
  unfolding dispatch_network
  Keeps-dispatch_network [] = Keeps-skip
  Keeps-dispatch_network (cmd ∷ args) =
      Keeps-ladder cmd (network_table b) (search rules) (Keeps-emit _)

  pub Keeps-dispatch_package : (argv : List Bytes) → Keeps (dispatch_package b argv)
  unfolding dispatch_package
  Keeps-dispatch_package [] = Keeps-skip
  Keeps-dispatch_package (cmd ∷ args) =
      Keeps-ladder cmd (package_table b (cmd ∷ args)) (search rules) (Keeps-emit _)

  pub Keeps-dispatch_kernel : (argv : List Bytes) → Keeps (dispatch_kernel b argv)
  unfolding dispatch_kernel
  Keeps-dispatch_kernel [] = Keeps-skip
  Keeps-dispatch_kernel (cmd ∷ args) =
      Keeps-ladder cmd (kernel_table b) (search rules) (Keeps-emit _)

  Keeps-run_script : (o : Option Bytes) → Keeps (run_script b o)
  unfolding run_script
  Keeps-run_script (some arg) = Keeps-act b _
  Keeps-run_script none = Keeps-script_menu

  pub Keeps-dispatch_shell : (argv : List Bytes) → Keeps (dispatch_shell b argv)
  unfolding dispatch_shell
  Keeps-dispatch_shell [] = Keeps-skip
  Keeps-dispatch_shell (cmd ∷ args) =
      Keeps-ladder cmd (shell_table b (cmd ∷ args)) (search (rules, Keeps-run_script))
        (Keeps-emit _)
