-- ===== src/System/Command.antt =====
-- `run_command_direct` of modules/kernel/kernel_mgr.c and modules/network/network_mgr.c: a program
-- without a shell, in a directory.
use Prim.Native.String.{String}
use nhan_linux_process.Prelude.{ℕ, ◌+◌, Option, none, some, List, Bytes, ℤ, ◌≡◌, arith}
use nhan_linux_process.System.World.{fork_failed, World, M, emit, entered}
use nhan_linux_process.System.Script.{run_script_as, succeeded, next_child_ok, programs, started}

-- The child goes to the directory before it starts the program.
unfoldable pub enter_dir : Option String → World → World
enter_dir none w = w
enter_dir (some wdir) w = elim (w.children w.forks) [
  | fork_failed ↦ w
  | _ ↦ (emit (entered wdir) w).1
]

unfoldable pub run_command_direct : String → Option String → String → List Bytes → M (ℤ × ℕ)
unfolding enter_dir run_script_as
run_command_direct module_name wdir cmd argv w =
    run_script_as module_name cmd argv (enter_dir wdir w)

enter_dir_lem :
    (wdir : Option String) (w : World)
    → let u = enter_dir wdir w in
      (u.children ≡ w.children)
      × (u.forks ≡ w.forks)
      × (u.stdin ≡ w.stdin)
      × (programs u.trace ≡ programs w.trace)
unfolding enter_dir
enter_dir_lem none w = ground arith
enter_dir_lem (some wdir) w = ground arith

-- How a function that waits for the program goes on.
pub ends_command :
    (module_name : String) (wdir : Option String) (cmd : String) (argv : List Bytes) (w : World)
    → let r = run_command_direct module_name wdir cmd argv w in
      (succeeded r.0 ≡ next_child_ok w)
      × (r.1.forks ≡ w.forks + 1)
      × (programs r.1.trace ≡ started w cmd argv)
      × (r.1.stdin ≡ w.stdin)
      × (r.1.children ≡ w.children)
unfolding run_command_direct enter_dir run_script_as
ends_command module_name none cmd argv w = ground arith
ends_command module_name (some wdir) cmd argv w = ground arith
