-- ===== src/System/Script.antt =====
-- fork, execvp of a shell script, and waitpid: `run_file_script` and `run_script`.
use Prim.Native.String.{String}
use nhan_linux_process.Prelude.{
  ℕ, ◌+◌, ◌%◌, Bool, true, false, List, [], ◌∷◌, ◌==◌, if◌then◌else◌, Bytes, ℤ, pos, minus_one, ◌≡◌,
  arith,
}
use nhan_linux_process.System.World.{
  Child, fork_failed, wait_failed, signalled, exited, World, Event, M, pure, ◌>>=◌, ◌>>◌, log_error,
  errno_text, spawned, logged, printed, called, requested, entered, gone,
}

-- What the wait status of a child shows of its exit code
abbrev pub exit_status : ℕ → ℕ
exit_status n = n % 256

-- One fork: the program runs unless the fork fails.
unfoldable pub fork_exec : String → List Bytes → M Child
fork_exec program argv w =
    let o = w.children w.forks in
    (
      o,
      record w {
        forks = w.forks + 1;
        trace = elim o [ fork_failed ↦ w.trace | _ ↦ spawned program argv ∷ w.trace ];
      },
    )

-- The result of the C function, and what it leaves in `exit_code`, which was 0 before the call.
unfoldable pub run_script_as : String → String → List Bytes → M (ℤ × ℕ)
unfolding fork_exec
run_script_as module_name program argv = do
  o ← fork_exec program argv
  elim o [
    | fork_failed ↦ do
      log_error module_name "fork failed: %s" (errno_text ∷ [])
      pure (minus_one, 0)
    | wait_failed _ ↦ do
      log_error module_name "waitpid failed: %s" (errno_text ∷ [])
      pure (minus_one, 0)
    | signalled ↦ pure (minus_one, 0)
    | exited n ↦ pure (pos 0, exit_status n)
  ]

-- `res == 0 && exit_code == 0`
abbrev pub succeeded : ℤ × ℕ → Bool
succeeded (pos n, code) = if n == 0 then code == 0 else false
succeeded (_, code) = false

-- The next child runs to its end and exits with status 0.
abbrev pub next_child_ok : World → Bool
next_child_ok w = elim (w.children w.forks) [ exited n ↦ exit_status n == 0 | _ ↦ false ]

-- The fork and the wait both work.
abbrev pub is_waited : Child → Bool
is_waited (exited n) = true
is_waited signalled = true
is_waited _ = false

-- The programs started, the last one in front.
abbrev pub programs : List Event → List (String × List Bytes)
programs [] = []
programs (spawned program argv ∷ es) = (program, argv) ∷ programs es
programs (logged _ _ _ _ ∷ es) = programs es
programs (printed _ _ ∷ es) = programs es
programs (called _ ∷ es) = programs es
programs (requested _ _ ∷ es) = programs es
programs (entered _ ∷ es) = programs es
programs (gone _ ∷ es) = programs es

abbrev pub started : World → String → List Bytes → List (String × List Bytes)
started w program argv = elim (w.children w.forks) [
  | fork_failed ↦ programs w.trace
  | _ ↦ (program, argv) ∷ programs w.trace
]

-- The programs with one more in front, if its fork works.
abbrev pub after_start :
    Child → String → List Bytes → List (String × List Bytes) → List (String × List Bytes)
after_start c program argv ps = elim c [ fork_failed ↦ ps | _ ↦ (program, argv) ∷ ps ]

-- It ran to its end with status 0.
abbrev pub is_ok : Child → Bool
is_ok c = elim c [ exited n ↦ exit_status n == 0 | _ ↦ false ]

-- An operation that does nothing but run the program once, `value` being its result if the program
-- ends well.
pub record RunsOnce (program : String) (argv : List Bytes) (value : ℤ) (w : World) (r : ℤ × World)
    : Type 0 where
  pub result : r.0 ≡ (if next_child_ok w then value else minus_one)
  pub one_fork : r.1.forks ≡ w.forks + 1
  pub runs : programs r.1.trace ≡ started w program argv
  pub input_kept : (r.1.typed ≡ w.typed) × (r.1.stdin ≡ w.stdin)

-- An operation that is refused: it starts nothing and reads nothing.
pub record Refused (w : World) (r : ℤ × World) : Type 0 where
  pub result : r.0 ≡ minus_one
  pub no_fork : r.1.forks ≡ w.forks
  pub nothing_run : programs r.1.trace ≡ programs w.trace
  pub input_kept : (r.1.typed ≡ w.typed) × (r.1.stdin ≡ w.stdin)

-- How a function that waits for a script goes on, by the end of the child.
pub ends_run :
    (module_name program : String) (argv : List Bytes) (w : World)
    → let r = run_script_as module_name program argv w in
      (succeeded r.0 ≡ next_child_ok w)
      × (r.1.forks ≡ w.forks + 1)
      × (programs r.1.trace ≡ started w program argv)
      × (r.1.typed ≡ w.typed)
      × (r.1.stdin ≡ w.stdin)
unfolding run_script_as
ends_run module_name program argv w = ground arith
