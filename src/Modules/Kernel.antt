-- ===== src/Modules/Kernel.antt =====
-- modules/kernel/kernel_mgr.c: whether the module is loaded, and loading and unloading it.
pub mod Log
pub mod Recent
pub mod Described
pub mod Status
pub mod Menu
pub mod Laws
pub mod Overviews
use Prim.Native.String.{String}
use nhan_linux_process.Prelude.{
  ℕ, zero, suc, Bool, true, false, ◌||◌, not, Option, none, some, List, [], ◌∷◌, if◌then◌else◌,
  take, drop, length, codes, Bytes, ℤ, pos, minus_one,
}
use nhan_linux_process.Libc.Strings.{is_empty, has_prefix, contains, until_nul}
use nhan_linux_process.Libc.Stdio.{lines_by}
use nhan_linux_process.System.World.{
  World, M, pure, ◌>>=◌, ◌>>◌, nat, log_info, log_error, print, fork_failed,
}
use nhan_linux_process.System.Files.{Files}
use nhan_linux_process.System.Script.{fork_exec, succeeded}
use nhan_linux_process.System.Command.{run_command_direct}

-- The loop over the lines that fgets reads from /proc/modules into 256 bytes
unfoldable pub any_line : (Bytes → Bool) → List Bytes → Bool
any_line test [] = false
any_line test (l ∷ ls) = let rest = any_line test ls in if test l then true else rest

abbrev pub names_module : Bytes → Bool
names_module line = has_prefix line (codes "system_monitor ")

unfoldable pub is_module_loaded : Files → ℕ → Bool
unfolding any_line lines_by
is_module_loaded fs now = elim (fs.content "/proc/modules" now) [
  | none ↦ false
  | some s ↦ any_line names_module (lines_by 255 s)
]

-- What reads of at most `n` bytes make of the bytes that are there, on fuel for each byte
unfoldable pub pieces : ℕ → ℕ → Bytes → List Bytes
pieces zero n s = []
pieces (suc fuel) n [] = []
pieces (suc fuel) n (c ∷ cs) = take n (c ∷ cs) ∷ pieces fuel n (drop n (c ∷ cs))

abbrev mentions_module : Bytes → Bool
mentions_module buf = contains (until_nul buf) (codes "system_monitor")

-- The loop over read(pipefd[0], buf, sizeof(buf) - 1), for the output as it comes: an empty one is
-- the end. Each buffer is searched for itself.
unfoldable pub any_read : List Bytes → Bool
unfolding any_line pieces until_nul
any_read [] = false
any_read (c ∷ cs) =
    let rest = any_read cs in
    if is_empty c then false else any_line mentions_module (pieces (length c) 4095 c) || rest

unfoldable pub is_module_loaded_via_lsmod : M Bool
unfolding fork_exec any_read
is_module_loaded_via_lsmod w =
    if w.pipe_fails w.forks
    then (false, w)
    else (do
      o ← fork_exec "lsmod" (codes "lsmod" ∷ [])
      pure (elim o [ fork_failed ↦ false | _ ↦ any_read (w.outputs w.forks) ]))
        w

-- is_module_loaded() || is_module_loaded_via_lsmod()
unfoldable pub sees_module : Files → M Bool
unfolding is_module_loaded is_module_loaded_via_lsmod
sees_module fs w = if is_module_loaded fs w.forks then (true, w) else is_module_loaded_via_lsmod w

abbrev pub ko_path : String
ko_path = "kernel/system_monitor/system_monitor.ko"

abbrev pub kernel_dir : String
kernel_dir = "kernel/system_monitor"

-- `system_monitor.ko` is there, or is there once make is through
unfoldable pub build_module : Files → M Bool
build_module fs w =
    if fs.exists ko_path w.forks
    then (true, w)
    else (do
      log_info "KERNEL" "Module build started" []
      print "system_monitor.ko not found. Auto-building module...\n" []
      r ← run_command_direct "KERNEL" (some kernel_dir) "make" (codes "make" ∷ [])
      if succeeded r
          then (λ u.
              if fs.exists ko_path u.forks
              then (true, u)
              else (do
                log_error "KERNEL" "Build failed" []
                print "Error: Missing system_monitor.ko after build.\n" []
                pure false)
                  u)
          else do
            log_error "KERNEL" "Build failed" []
            print "Build failure: make failed (exit code %d).\n" (nat r.1 ∷ [])
            print "Please ensure kernel headers are installed (e.g. linux-headers-$(uname -r)).\n"
                []
            pure false)
        w

abbrev pub insmod_program : Bool → String
insmod_program use_sudo = if use_sudo then "sudo" else "insmod"

abbrev pub insmod_argv : Bool → List Bytes
insmod_argv use_sudo =
    if use_sudo
    then codes "sudo" ∷ codes "insmod" ∷ codes "system_monitor.ko" ∷ []
    else codes "insmod" ∷ codes "system_monitor.ko" ∷ []

unfoldable pub insert_module : Files → Bool → M ℤ
insert_module fs use_sudo = do
  r ← run_command_direct "KERNEL" (some kernel_dir) (insmod_program use_sudo) (insmod_argv use_sudo)
  if succeeded r
      then (λ u.
          if fs.exists "/proc/sysmgr" u.forks
          then (do
            log_info "KERNEL" "Module loaded" []
            print "Kernel module loaded successfully.\n" []
            pure (pos 0))
              u
          else (do
            log_error "KERNEL" "Build failed" []
            print "Error: /proc/sysmgr is missing after loading.\n" []
            pure minus_one)
              u)
      else do
        log_error "KERNEL" "Permission denied" []
        print "Permission denied: Failed to load module (exit code %d).\n" (nat r.1 ∷ [])
        pure minus_one

unfoldable pub kernel_mgr_load_module_internal : Files → Bool → M ℤ
kernel_mgr_load_module_internal fs use_sudo = do
  log_info "KERNEL" "Module load requested" []
  loaded ← sees_module fs
  if loaded
      then (do print "Module is already loaded.\n" []; pure (pos 0))
      else do built ← build_module fs; if built then insert_module fs use_sudo else pure minus_one

unfoldable pub kernel_mgr_load_module : Files → M ℤ
kernel_mgr_load_module fs = kernel_mgr_load_module_internal fs true

unfoldable pub kernel_mgr_load_module_no_sudo : Files → M ℤ
kernel_mgr_load_module_no_sudo fs = kernel_mgr_load_module_internal fs false

abbrev pub rmmod_argv : List Bytes
rmmod_argv = codes "sudo" ∷ codes "rmmod" ∷ codes "system_monitor" ∷ []

unfoldable pub remove_module : Files → M ℤ
remove_module fs = do
  r ← run_command_direct "KERNEL" none "sudo" rmmod_argv
  if succeeded r
      then (λ u.
          if not (fs.exists "/proc/sysmgr" u.forks)
          then (do
            log_info "KERNEL" "Module unloaded" []
            print "Kernel module unloaded successfully.\n" []
            pure (pos 0))
              u
          else (do print "Error: /proc/sysmgr still exists after unloading.\n" []; pure minus_one)
              u)
      else do
        log_error "KERNEL" "Permission denied" []
        print "Permission denied: Failed to unload module (exit code %d).\n" (nat r.1 ∷ [])
        pure minus_one

unfoldable pub kernel_mgr_unload_module : Files → M ℤ
kernel_mgr_unload_module fs = do
  log_info "KERNEL" "Module unload requested" []
  loaded ← sees_module fs
  if loaded then remove_module fs else do print "Module is not currently loaded.\n" []; pure (pos 0)
