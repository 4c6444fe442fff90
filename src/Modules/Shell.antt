-- ===== src/Modules/Shell.antt =====
-- modules/shell/shell_mgr.c: `shell_mgr_execute`, a command or a script that is started and waited
-- for.
pub mod Laws
pub mod Cron
pub mod Time
pub mod Variables
pub mod Environment
pub mod Menu
pub mod Scheduled
use Prim.Native.String.{String}
use nhan_linux_process.Prelude.{
  ℕ, Bool, Option, none, some, List, [], ◌∷◌, if◌then◌else◌, ◌==◌, drop, codes, Bytes, ℤ, pos,
  minus_one,
}
use nhan_linux_process.Libc.Strings.{is_empty, has_prefix}
use nhan_linux_process.System.World.{
  World, M, pure, skip, ◌>>=◌, ◌>>◌, text, nat, errno_text, pid_of, signal_of, log_info, log_error,
  fork_failed, wait_failed, signalled, exited,
}
use nhan_linux_process.System.Script.{fork_exec, exit_status}

abbrev pub is_script : Bytes → Bool
is_script command = has_prefix command (codes "/bin/bash ")

abbrev pub shell_program : Bytes → String
shell_program command = if is_script command then "/bin/bash" else "/bin/sh"

-- The arguments of the two calls of execl
abbrev pub shell_argv : Bytes → List Bytes
shell_argv command =
    if is_script command
    then codes "bash" ∷ drop 10 command ∷ []
    else codes "sh" ∷ codes "-c" ∷ command ∷ []

unfoldable announce_command : Bytes → M (Unit {0})
announce_command command =
    if is_script command
    then log_info "SHELL" "Script selected: '%s'" (text (drop 10 command) ∷ [])
    else log_info "SHELL" "Command entered: '%s'" (text command ∷ [])

-- The parent of fork number `n`, once the child has ended with an exit code
unfoldable report_exit : Bytes → ℕ → M ℤ
report_exit command exit_code = do
  log_info "SHELL" (if is_script command then "Script executed" else "Command executed") []
  log_info "SHELL" "Exit status: %d" (nat exit_code ∷ [])
  (if exit_code == 0
      then skip
      else log_error "SHELL" "Errors: execution failed with exit code %d" (nat exit_code ∷ []))
  pure (pos exit_code)

abbrev child_created : ℕ → M (Unit {0})
child_created n = log_info "SHELL" "Child process created (PID: %d)" (pid_of n ∷ [])

unfoldable pub shell_mgr_execute : Option Bytes → M ℤ
unfolding announce_command fork_exec report_exit
shell_mgr_execute none w = pure minus_one w
shell_mgr_execute (some command) w =
    if is_empty command
    then (minus_one, w)
    else (do
      announce_command command
      o ← fork_exec (shell_program command) (shell_argv command)
      elim o [
        | fork_failed ↦ do
          log_error "SHELL" "Errors: fork failed (errno %d)" (errno_text ∷ [])
          pure minus_one
        | wait_failed _ ↦ do
          child_created w.forks
          log_error "SHELL" "Errors: waitpid failed (errno %d)" (errno_text ∷ [])
          pure minus_one
        | exited n ↦ do child_created w.forks; report_exit command (exit_status n)
        | signalled ↦ do
          child_created w.forks
          log_error "SHELL" "Errors: command terminated by signal %d" (signal_of w.forks ∷ [])
          pure minus_one
      ])
        w
