-- ===== src/Modules/Shell/Laws.antt =====
-- modules/shell/shell_mgr.c: one command by the program that it starts and the value it gives.
use nhan_linux_process.Prelude.{
  ◌+◌, false, Option, none, some, [], ◌∷◌, Bytes, ℤ, pos, minus_one, ◌≡◌, ◌⊎◌, arith,
}
use nhan_linux_process.Libc.Strings.{is_empty}
use nhan_linux_process.System.World.{World, Child, exited}
use nhan_linux_process.System.Script.{programs, started, exit_status, Refused}
use nhan_linux_process.Modules.Shell.{shell_program, shell_argv, shell_mgr_execute}

-- The exit code of a child that ends by itself, and -1 otherwise.
abbrev pub exit_value : Child → ℤ
exit_value c = elim c [ exited n ↦ pos (exit_status n) | _ ↦ minus_one ]

-- A command that was run.
pub record Executes (command : Bytes) (w : World) (r : ℤ × World) : Type 0 where
  pub result : r.0 ≡ exit_value (w.children w.forks)
  pub one_fork : r.1.forks ≡ w.forks + 1
  pub runs : programs r.1.trace ≡ started w (shell_program command) (shell_argv command)
  pub input_kept : (r.1.typed ≡ w.typed) × (r.1.stdin ≡ w.stdin)
  pub system_kept : (r.1.children ≡ w.children) × (r.1.is_interactive ≡ w.is_interactive)

pub execute-Executes :
    (command : Bytes) (w : World)
    → is_empty command ≡ false
    → Executes command w (shell_mgr_execute (some command) w)
unfolding shell_mgr_execute
execute-Executes command w h = ground arith

pub execute-Refused :
    (command : Option Bytes) (w : World)
    → (command ≡ none) ⊎ (command ≡ some [])
    → Refused w (shell_mgr_execute command w)
unfolding shell_mgr_execute
execute-Refused none w h = ground arith
execute-Refused (some []) w h = ground arith
execute-Refused (some (c ∷ cs)) w h = ground arith
