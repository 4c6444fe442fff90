-- ===== src/Modules/Kernel/Laws.antt =====
-- modules/kernel/kernel_mgr.c: loading and unloading, by the state of the kernel and by the programs
-- that are started.
use nhan_linux_process.Prelude.{
  ℕ, ◌+◌, Bool, true, false, ◌&&◌, ◌||◌, some, [], ◌∷◌, if◌then◌else◌, codes, ℤ, pos, minus_one,
  ◌≡◌, ◌≢◌, arith,
}
use nhan_linux_process.System.World.{World, fork_failed, log_info, print, M, ◌>>◌}
use nhan_linux_process.System.Files.{Files}
use nhan_linux_process.System.Script.{programs, after_start, is_ok}
use nhan_linux_process.System.Command.{ends_command}
use nhan_linux_process.Modules.Kernel.{
  is_module_loaded, any_read, is_module_loaded_via_lsmod, sees_module, build_module, insert_module,
  remove_module, kernel_mgr_load_module_internal, kernel_mgr_unload_module, ko_path, kernel_dir,
  insmod_program, insmod_argv,
}

-- `loaded n` is whether the module is in the kernel after `n` forks, and the files and lsmod, which
-- is the first program that is started, tell it; a fork that fails changes nothing.
pub record Tells (fs : Files) (w : World) (loaded : ℕ → Bool) : Type 0 where
  pub modules_file : (n : ℕ) → is_module_loaded fs n ≡ loaded n
  pub proc_file : (n : ℕ) → fs.exists "/proc/sysmgr" n ≡ loaded n
  pub lsmod : any_read (w.outputs w.forks) ≡ loaded (w.forks + 1)
  pub failed_fork : w.children w.forks ≡ fork_failed → loaded (w.forks + 1) ≡ loaded w.forks

-- What is asked for: loading, with sudo or without, or unloading.
pub data Change : Type 0 where
  load : Bool → Change
  unload : Change

unfoldable pub change : Files → Change → M ℤ
change fs (load use_sudo) = kernel_mgr_load_module_internal fs use_sudo
change fs unload = kernel_mgr_unload_module fs

abbrev pub wanted : Change → Bool
wanted (load use_sudo) = true
wanted unload = false

sees_lem :
    (fs : Files) (loaded : ℕ → Bool) (w : World)
    → Tells fs w loaded
    → (sees_module fs w).0 ≡ loaded (sees_module fs w).1.forks
unfolding sees_module is_module_loaded_via_lsmod
sees_lem fs loaded w t = ground (arith, t.modules_file w.forks, t.lsmod, t.failed_fork)

insert_lem :
    (fs : Files) (use_sudo : Bool) (w : World)
    → (insert_module fs use_sudo w).0 ≡ pos 0
    → fs.exists "/proc/sysmgr" (insert_module fs use_sudo w).1.forks ≡ true
unfolding insert_module
insert_lem fs use_sudo w h = ground arith

remove_lem :
    (fs : Files) (w : World)
    → (remove_module fs w).0 ≡ pos 0
    → fs.exists "/proc/sysmgr" (remove_module fs w).1.forks ≡ false
unfolding remove_module
remove_lem fs w h = ground arith

abbrev announced : Change → World → World
announced (load use_sudo) w = (log_info "KERNEL" "Module load requested" [] w).1
announced unload w = (log_info "KERNEL" "Module unload requested" [] w).1

-- Announcing the change does not change what is told.
told :
    {fs : Files} {w : World} {loaded : ℕ → Bool} (c : Change)
    → Tells fs w loaded
    → Tells fs (announced c w) loaded
told (load use_sudo) t = record {
  modules_file = t.modules_file;
  proc_file = t.proc_file;
  lsmod = t.lsmod;
  failed_fork = t.failed_fork;
}
told unload t = record {
  modules_file = t.modules_file;
  proc_file = t.proc_file;
  lsmod = t.lsmod;
  failed_fork = t.failed_fork;
}

-- If /proc/modules, /proc/sysmgr and the output of lsmod, which is the first program that is
-- started, tell whether the module is in the kernel, and a fork that fails does not change that:
-- when loading, with sudo or without, or unloading returns 0, the module is in the kernel
-- afterwards, or not in it for unloading.
pub change_lem :
    (fs : Files) (loaded : ℕ → Bool) (c : Change) (w : World)
    → Tells fs w loaded
    → (change fs c w).0 ≡ pos 0
    → loaded (change fs c w).1.forks ≡ wanted c
unfolding change kernel_mgr_load_module_internal kernel_mgr_unload_module
change_lem fs loaded (load use_sudo) w t h =
    let v : World = announced (load use_sudo) w in
    let u : World = (sees_module fs v).1 in
    let b : World = (build_module fs u).1 in
    ground (
      arith,
      sees_lem fs loaded v (told (load use_sudo) t),
      insert_lem fs use_sudo b,
      t.proc_file (insert_module fs use_sudo b).1.forks,
    )
change_lem fs loaded unload w t h =
    let v : World = announced unload w in
    let u : World = (sees_module fs v).1 in
    ground (
      arith,
      sees_lem fs loaded v (told unload t),
      remove_lem fs u,
      t.proc_file (remove_module fs u).1.forks,
    )

build_lem :
    (fs : Files) (w : World)
    → let here = fs.exists ko_path w.forks in
      let r = build_module fs w in
      (r.0 ≡ here || (is_ok (w.children w.forks) && fs.exists ko_path (w.forks + 1)))
      × (r.1.forks ≡ (if here then w.forks else w.forks + 1))
      × (r.1.children ≡ w.children)
      × (programs r.1.trace ≡ (
          if here
          then programs w.trace
          else after_start (w.children w.forks) "make" (codes "make" ∷ []) (programs w.trace)))
unfolding build_module
build_lem fs w =
    let starting : M (Unit {0}) = (do
      log_info "KERNEL" "Module build started" []
      print "system_monitor.ko not found. Auto-building module...\n" []) in
    let v : World = (starting w).1 in
    ground (arith, ends_command "KERNEL" (some kernel_dir) "make" (codes "make" ∷ []) v)

insert_runs :
    (fs : Files) (use_sudo : Bool) (w : World)
    → let r = insert_module fs use_sudo w in
      (r.0 ≡ (
        if is_ok (w.children w.forks) && fs.exists "/proc/sysmgr" (w.forks + 1)
        then pos 0
        else minus_one))
      × (programs r.1.trace
          ≡ after_start
              (w.children w.forks)
              (insmod_program use_sudo)
              (insmod_argv use_sudo)
              (programs w.trace))
unfolding insert_module
insert_runs fs use_sudo w = ground (
  arith,
  ends_command "KERNEL" (some kernel_dir) (insmod_program use_sudo) (insmod_argv use_sudo) w,
)

-- When /proc/modules does not list the module and lsmod, which can be started, does not mention it:
-- as far as the forks work, loading starts make only if system_monitor.ko is not there, and insmod,
-- with sudo or without, exactly if the file is there or make ends with status 0 and leaves it; it
-- starts no other program but lsmod, and returns 0 exactly when insmod was reached and ends with
-- status 0 and /proc/sysmgr is there then, -1 otherwise.
pub load_runs :
    (fs : Files) (use_sudo : Bool) (w : World)
    → is_module_loaded fs w.forks ≡ false
    → w.pipe_fails w.forks ≡ false
    → w.children w.forks ≢ fork_failed
    → any_read (w.outputs w.forks) ≡ false
    → let k = w.forks + 1 in
      let here = fs.exists ko_path k in
      let built = here || (is_ok (w.children k) && fs.exists ko_path (k + 1)) in
      let j = if here then k else k + 1 in
      let before =
        if here
        then ("lsmod", codes "lsmod" ∷ []) ∷ programs w.trace
        else after_start
            (w.children k)
            "make"
            (codes "make" ∷ [])
            (("lsmod", codes "lsmod" ∷ []) ∷ programs w.trace) in
      let r = kernel_mgr_load_module_internal fs use_sudo w in
      (r.0 ≡ (
        if built && (is_ok (w.children j) && fs.exists "/proc/sysmgr" (j + 1))
        then pos 0
        else minus_one))
      × (programs r.1.trace ≡ (
          if built
          then after_start (w.children j) (insmod_program use_sudo) (insmod_argv use_sudo) before
          else before))
unfolding kernel_mgr_load_module_internal sees_module is_module_loaded_via_lsmod
load_runs fs use_sudo w l p f a =
    let v : World = announced (load use_sudo) w in
    let u : World = (sees_module fs v).1 in
    ground (arith, build_lem fs u, insert_runs fs use_sudo (build_module fs u).1)
