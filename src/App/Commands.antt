-- ===== src/App/Commands.antt =====
-- cli/repl.c over modules/: commands from the line down to the script that they start.
use Prim.Native.String.{String}
use nhan_linux_process.Prelude.{
  ℕ, suc, ◌+◌, ◌≤◌, false, some, List, [], ◌∷◌, ◌++◌, length, codes, Bytes, ℤ, arith, take-ge, ◌≡◌,
  refl, ap, ◌∙◌, not,
}
use nhan_linux_process.Libc.Strings.{copy_to, is_empty, has_prefix}
use nhan_linux_process.System.Call.{FileOp, PackageOp}
use nhan_linux_process.System.World.{World, M}
use nhan_linux_process.System.Script.{run_script_as, programs, started}
use nhan_linux_process.System.Backend.{Backend}
use nhan_linux_process.Modules.File.Laws.{file_run, file_run-RunsOnce}
use nhan_linux_process.Modules.Package.Laws.{package_run, package_run-RunsOnce}
use nhan_linux_process.Modules.Shell.{shell_program, shell_argv, shell_mgr_execute}
use nhan_linux_process.Modules.Shell.Laws.{execute-Executes}
use nhan_linux_process.Modules.Linked.{linked}
use nhan_linux_process.Cli.Context.{main_context}
use nhan_linux_process.Cli.Names.{one_of}
use nhan_linux_process.Cli.Prompt.{get_arg_or_prompt}
use nhan_linux_process.Cli.Dispatch.Ladder.{ladder, act, with_arg}
use nhan_linux_process.Cli.Dispatch.Commands.{dispatch_file, dispatch_package, dispatch_shell}
use nhan_linux_process.Cli.Repl.{
  Repl, Flow, flow_after, goes_on, effect, current, dispatch_in, route_and_dispatch,
}
use nhan_linux_process.Cli.Repl.Routes.{logged_command, prefixed}

-- A command of the program whose one effect is to start a program: the stack of contexts and the
-- history are as before, and the input is not read.
pub record Starts (s : Repl) (program : String) (argv : List Bytes) (r : Flow × Repl) : Type 0 where
  pub flow : r.0 ≡ goes_on
  pub same_contexts : r.1.contexts ≡ s.contexts
  pub same_history : r.1.history ≡ s.history
  pub one_fork : r.1.world.forks ≡ s.world.forks + 1
  pub runs : programs r.1.world.trace ≡ started s.world program argv
  pub input_kept : (r.1.world.typed ≡ s.world.typed) × (r.1.world.stdin ≡ s.world.stdin)

copied : (n : ℕ) (s : Bytes) → length s ≤ n → copy_to (suc n) s ≡ s
copied n s h = take-ge n s h

-- A dispatcher that only runs a program, behind the log line of the command
runs-Starts :
    (dispatch : M (Unit {0})) (root : Bytes) (args : List Bytes) (program : String)
    (argv : List Bytes) (m : M ℤ) (s : Repl)
    → dispatch (logged_command root args s).world ≡ (tt, (m (logged_command root args s).world).1)
    → (let w = (logged_command root args s).world in
        ((m w).1.forks ≡ w.forks + 1)
        × (programs (m w).1.trace ≡ started w program argv)
        × (((m w).1.typed ≡ w.typed) × ((m w).1.stdin ≡ w.stdin)))
    → flow_after (m (logged_command root args s).world).1.trace ≡ goes_on
    → Starts s program argv (effect dispatch (logged_command root args s))
runs-Starts dispatch root args program argv m s e o on =
    let same : (dispatch (logged_command root args s).world).1
        ≡ (m (logged_command root args s).world).1 =
      ap (λ r. r.1) e in
    record {
      flow = ap (λ (w : World). flow_after w.trace) same ∙ on;
      same_contexts = refl;
      same_history = refl;
      one_fork = ap (λ (w : World). w.forks) same ∙ o.0;
      runs = ap (λ (w : World). programs w.trace) same ∙ o.1;
      input_kept =
          (ap (λ (w : World). w.typed) same ∙ o.2.0, ap (λ (w : World). w.stdin) same ∙ o.2.1);
    }

-- The module comes back.
abbrev Back : M ℤ → Bytes → List Bytes → Repl → Type 0
Back m root args s = flow_after (m (logged_command root args s).world).1.trace ≡ goes_on

copy_goes_on :
    (p q root : Bytes) (args : List Bytes) (s : Repl)
    → Back (file_run (FileOp.copy p q)) root args s
unfolding file_run
copy_goes_on p q root args s = ground arith

install_goes_on :
    (name root : Bytes) (args : List Bytes) (s : Repl)
    → Back (package_run (PackageOp.install name)) root args s
unfolding package_run run_script_as
install_goes_on [] root args s = refl
install_goes_on (c ∷ cs) root args s = ground arith

exec_goes_on :
    (command root : Bytes) (args : List Bytes) (s : Repl)
    → Back (shell_mgr_execute (some command)) root args s
unfolding shell_mgr_execute
exec_goes_on command root args s = ground arith

module _ (others : Backend) where
  copy_in_file :
      (p q : Bytes) (w : World)
      → length p ≤ 255
      → length q ≤ 255
      → dispatch_in (linked others) (codes "file") (codes "copy" ∷ p ∷ q ∷ []) w
        ≡ (tt, (file_run (FileOp.copy p q) w).1)
  unfolding dispatch_in ladder dispatch_file with_arg get_arg_or_prompt act
  copy_in_file p q w h k = rw (copied 255 p h, copied 255 q k) refl

  install_in_package :
      (name : Bytes) (w : World)
      → length name ≤ 255
      → dispatch_in (linked others) (codes "package") (codes "install" ∷ name ∷ []) w
        ≡ (tt, (package_run (PackageOp.install name) w).1)
  unfolding dispatch_in ladder dispatch_package with_arg get_arg_or_prompt act
  install_in_package name w h = rw (copied 255 name h) refl

  -- In the main context, with the model of the file module behind the command line, the command
  -- `file copy p q` with paths of at most 255 bytes forks once, and unless the fork fails it starts
  -- shell/file.sh once with copy, p and q, in this order, and no other program; the program goes on
  -- in the same context with the same history and reads no input.
  pub file_copy-Starts :
      (p q : Bytes) (s : Repl)
      → current s ≡ main_context
      → length p ≤ 255
      → length q ≤ 255
      → Starts s "shell/file.sh"
          (codes "shell/file.sh" ∷ codes "copy" ∷ p ∷ q ∷ [])
          (route_and_dispatch (linked others) (codes "file" ∷ codes "copy" ∷ p ∷ q ∷ []) s)
  unfolding one_of
  file_copy-Starts p q s m h k =
      let args : List Bytes = codes "copy" ∷ p ∷ q ∷ [] in
      let o =
        file_run-RunsOnce (FileOp.copy p q) (logged_command (codes "file") args s).world refl
          refl in
      rw (prefixed (linked others) (codes "file") (codes "copy") (p ∷ q ∷ []) s refl m) (
        runs-Starts (dispatch_in (linked others) (codes "file") args) (codes "file") args
          "shell/file.sh" _ (file_run (FileOp.copy p q)) s (copy_in_file p q _ h k)
          (o.one_fork, o.runs, o.input_kept) (copy_goes_on p q (codes "file") args s))

  -- In the main context, with the model of the package module behind the command line, the command
  -- `package install name` with a name of 1 to 255 bytes forks once, and unless the fork fails it
  -- starts shell/program.sh once with install and the name, and no other program; the program goes
  -- on in the same context with the same history and reads no input.
  pub package_install-Starts :
      (name : Bytes) (s : Repl)
      → current s ≡ main_context
      → is_empty name ≡ false
      → length name ≤ 255
      → Starts s "shell/program.sh"
          (codes "shell/program.sh" ∷ codes "install" ∷ name ∷ [])
          (route_and_dispatch (linked others) (codes "package" ∷ codes "install" ∷ name ∷ []) s)
  unfolding one_of
  package_install-Starts name s m n h =
      let args : List Bytes = codes "install" ∷ name ∷ [] in
      let o =
        package_run-RunsOnce (PackageOp.install name)
          (logged_command (codes "package") args s).world (ap not n) in
      rw (prefixed (linked others) (codes "package") (codes "install") (name ∷ []) s refl m) (
        runs-Starts (dispatch_in (linked others) (codes "package") args) (codes "package") args
          "shell/program.sh" _ (package_run (PackageOp.install name)) s
          (install_in_package name _ h) (o.one_fork, o.runs, o.input_kept)
          (install_goes_on name (codes "package") args s))

  exec_in_shell :
      (command : Bytes) (w : World)
      → length command ≤ 511
      → dispatch_in (linked others) (codes "shell") (codes "exec" ∷ command ∷ []) w
        ≡ (tt, (shell_mgr_execute (some command) w).1)
  unfolding dispatch_in ladder dispatch_shell with_arg get_arg_or_prompt act
  exec_in_shell command w h = rw (copied 511 command h) refl

  exec-Starts :
      (command : Bytes) (s : Repl)
      → current s ≡ main_context
      → is_empty command ≡ false
      → length command ≤ 511
      → Starts s
          (shell_program command)
          (shell_argv command)
          (route_and_dispatch (linked others) (codes "shell" ∷ codes "exec" ∷ command ∷ []) s)
  unfolding one_of
  exec-Starts command s m n h =
      let args : List Bytes = codes "exec" ∷ command ∷ [] in
      let o = execute-Executes command (logged_command (codes "shell") args s).world n in
      rw (prefixed (linked others) (codes "shell") (codes "exec") (command ∷ []) s refl m) (
        runs-Starts (dispatch_in (linked others) (codes "shell") args) (codes "shell") args
          (shell_program command) _ (shell_mgr_execute (some command)) s (exec_in_shell command _ h)
          (o.one_fork, o.runs, o.input_kept) (exec_goes_on command (codes "shell") args s))

  exec_text :
      (command : Bytes)
      → has_prefix command (codes "/bin/bash ") ≡ false
      → (shell_program command ≡ "/bin/sh")
        × (shell_argv command ≡ codes "sh" ∷ codes "-c" ∷ command ∷ [])
  exec_text command p = rw p (refl, refl)

  -- In the main context, with the model of the shell module behind the command line, the command
  -- `shell exec c` forks once, and unless the fork fails it starts one program: for a text c of 1
  -- to 511 bytes that does not begin with `/bin/bash `, /bin/sh with sh, -c and the text; for a
  -- text of `/bin/bash ` and a script of at most 501 bytes behind it, /bin/bash with bash and the
  -- script. The program goes on in the same context with the same history and reads no input.
  pub shell_exec-Starts :
      (command script : Bytes) (s : Repl)
      → current s ≡ main_context
      → is_empty command ≡ false
      → length command ≤ 511
      → has_prefix command (codes "/bin/bash ") ≡ false
      → length script ≤ 501
      → Starts s "/bin/sh"
          (codes "sh" ∷ codes "-c" ∷ command ∷ [])
          (route_and_dispatch (linked others) (codes "shell" ∷ codes "exec" ∷ command ∷ []) s)
        × Starts s "/bin/bash" (codes "bash" ∷ script ∷ []) (
            route_and_dispatch
              (linked others)
              (codes "shell" ∷ codes "exec" ∷ (codes "/bin/bash " ++ script) ∷ [])
              s)
  shell_exec-Starts command script s m n h p k =
      let whole : Bytes = codes "/bin/bash " ++ script in
      let text = exec_text command p in
      (
        rw (text.0, text.1) at (exec-Starts command s m n h),
        exec-Starts whole s m refl (omega arith),
      )
