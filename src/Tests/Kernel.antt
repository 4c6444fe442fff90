-- ===== src/Tests/Kernel.antt =====
-- Runs of the kernel module.
use nhan_linux_process.Prelude.{
  ℕ, ◌-◌, ltb, Bool, true, false, none, some, List, [], ◌∷◌, if◌then◌else◌, length, drop, str_eq,
  codes, Bytes, pos, ◌≡◌, ◌≢◌, refl,
}
use nhan_linux_process.System.World.{World, fork_failed}
use nhan_linux_process.System.Files.{Files}
use nhan_linux_process.System.Script.{programs}
use nhan_linux_process.Modules.Kernel.{
  is_module_loaded, any_read, kernel_mgr_load_module_internal, any_line, names_module, sees_module,
  build_module, insert_module, ko_path, insmod_argv,
}
use nhan_linux_process.Modules.Kernel.Laws.{Tells, load, change, change_lem, load_runs}
use nhan_linux_process.Modules.Kernel.Log.{keep_line, keep_lines, shown, shown_from}
use nhan_linux_process.Modules.Kernel.Described.{module_lines, shown_lem}
use nhan_linux_process.Libc.Stdio.{lines_by}
use nhan_linux_process.System.Command.{run_command_direct}
use nhan_linux_process.Tests.{world}

-- A kernel with the module built, which is loaded once lsmod and insmod have run.
abbrev loaded : ℕ → Bool
loaded n = ltb 1 n

abbrev host : Files
host = record {
  exists = λ path n. if str_eq (codes path) (codes ko_path) then true else loaded n;
  content = λ _ n. some (if loaded n then codes "system_monitor 16384 0\n" else codes "ext4 1 2\n");
}

abbrev w : World
w = world [] []

lists_when :
    (b : Bool)
    → elim (some (if b then codes "system_monitor 16384 0\n" else codes "ext4 1 2\n")) [
      | none ↦ false
      | some s ↦ any_line names_module (lines_by 255 s)
    ]
      ≡ b
unfolding any_line lines_by
lists_when true = refl
lists_when false = refl

lists : (n : ℕ) → is_module_loaded host n ≡ loaded n
unfolding is_module_loaded
lists n = lists_when (loaded n)

lsmod_says : any_read (w.outputs 0) ≡ false
unfolding any_read
lsmod_says = refl

tells : Tells host w loaded
tells = record {
  modules_file = lists;
  proc_file = λ n. refl;
  lsmod = lsmod_says;
  failed_fork = λ e. refl;
}

loads : (change host (load true) w).0 ≡ pos 0
unfolding change kernel_mgr_load_module_internal sees_module build_module insert_module
    run_command_direct
loads = refl

change_lem_example : loaded (change host (load true) w).1.forks ≡ true
change_lem_example = change_lem host loaded (load true) w tells loads

works : w.children 0 ≢ fork_failed
works = λ e. cc e

load_runs_example :
    (kernel_mgr_load_module_internal host false w).0 ≡ pos 0
    × (programs (kernel_mgr_load_module_internal host false w).1.trace
        ≡ ("insmod", insmod_argv false) ∷ ("lsmod", codes "lsmod" ∷ []) ∷ [])
load_runs_example = load_runs host false w (lists 0) refl works lsmod_says

abbrev log : List Bytes
log = codes "SYSMGR: one\n" ∷ codes "other\n" ∷ codes "System_Monitor two\n" ∷ []

shown_lem_example :
    shown (keep_lines (record { slots = λ _. []; count = 0 }) log)
    ≡ drop (length (module_lines log) - 20) (module_lines log)
shown_lem_example = shown_lem (λ _. []) log

shows_log :
    shown (keep_lines (record { slots = λ _. []; count = 0 }) log)
    ≡ codes "SYSMGR: one" ∷ codes "System_Monitor two" ∷ []
unfolding keep_lines keep_line shown shown_from
shows_log = refl
