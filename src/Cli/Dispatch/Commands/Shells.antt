-- ===== src/Cli/Dispatch/Commands/Shells.antt =====
-- cli/repl.c: the dispatchers of the shell and kernel contexts.
use nhan_linux_process.Prelude.{
  Option, none, some, List, [], ◌∷◌, ◌++◌, if◌then◌else◌, get_elem?, codes, Bytes, pos, int_eq,
}
use nhan_linux_process.Libc.Strings.{copy_to}
use nhan_linux_process.System.Call.{
  shell, kernel, show_info, load_module, unload_module, show_status, show_log, show_network_stack,
  show_sk_buff_overview, show_napi_overview, execute, env_run, cron_execute, time_execute,
}
use nhan_linux_process.System.World.{M, skip}
use nhan_linux_process.System.Backend.{Backend}
use nhan_linux_process.Cli.Dispatch.Ladder.{Table, ladder, act, with_arg, unknown}

module _ (b : Backend) where
  unfoldable pub script_menu : M (Unit {0})
  unfolding act
  script_menu w =
      let r =
        b.select "Select Script to Run"
          ("backup.sh (Execute pre-loaded backup script)"
            ∷ "disk_usage.sh (Show disk usage statistics)"
            ∷ "show_date.sh (Display current system date)" ∷ "Cancel" ∷ [])
          w in
      (if int_eq r.0 (pos 0)
          then act b (shell (execute (codes "/bin/bash scripts/backup.sh")))
          else if int_eq r.0 (pos 1)
          then act b (shell (execute (codes "/bin/bash scripts/disk_usage.sh")))
          else if int_eq r.0 (pos 2)
          then act b (shell (execute (codes "/bin/bash scripts/show_date.sh")))
          else skip)
        r.1

  -- The script that is named, or the one that the menu gives.
  unfoldable pub run_script : Option Bytes → M (Unit {0})
  unfolding act script_menu
  run_script (some arg) = act b (shell (execute (copy_to 512 (codes "/bin/bash scripts/" ++ arg))))
  run_script none = script_menu

  abbrev pub shell_table : List Bytes → Table
  shell_table argv =
      (
        "exec",
        with_arg 512 1 argv (codes "Enter command to execute: ")
            λ command_str. act b (shell (execute command_str)),
      )
      ∷ ("script", run_script (get_elem? argv 1))
      ∷ ("env", act b (shell env_run))
      ∷ ("file", act b (shell (execute (codes "/bin/bash shell/file.sh"))))
      ∷ ("cron", act b (shell (cron_execute argv)))
      ∷ ("time", act b (shell (time_execute argv)))
      ∷ ("install", act b (shell (execute (codes "/bin/bash shell/program.sh"))))
      ∷ ("monitor", act b (shell (execute (codes "/bin/bash shell/monitor.sh"))))
      ∷ []

  unfoldable pub dispatch_shell : List Bytes → M (Unit {0})
  unfolding act with_arg run_script
  dispatch_shell [] = skip
  dispatch_shell (cmd ∷ args) =
      ladder cmd (shell_table (cmd ∷ args))
        (unknown "Error: Unknown shell command '%s'. Type / for options.\n" cmd)

  abbrev pub kernel_table : Table
  kernel_table =
      ("info", act b (kernel show_info))
      ∷ ("load", act b (kernel load_module))
      ∷ ("unload", act b (kernel unload_module))
      ∷ ("status", act b (kernel show_status))
      ∷ ("log", act b (kernel show_log))
      ∷ ("stack", act b (kernel show_network_stack))
      ∷ ("skbuff", act b (kernel show_sk_buff_overview))
      ∷ ("napi", act b (kernel show_napi_overview))
      ∷ []

  unfoldable pub dispatch_kernel : List Bytes → M (Unit {0})
  unfolding act with_arg
  dispatch_kernel [] = skip
  dispatch_kernel (cmd ∷ args) =
      ladder cmd kernel_table
        (unknown "Error: Unknown kernel module command '%s'. Type / for options.\n" cmd)
