-- ===== src/System/World.antt =====
-- The state of the system around the program, and the program's effects on it.
use Prim.Native.String.{String}
use nhan_linux_process.Prelude.{ℕ, Bool, true, false, Option, List, ◌∷◌, Bytes, ℤ}
use nhan_linux_process.System.Call.{Call}

pub data Level : Type 0 where
  info warning error : Level

-- An argument of a format; `errno_text` stands for errno or strerror(errno), `pid_of n` for the process
-- of fork number `n`, and `signal_of n` for the signal that ended it.
pub data Arg : Type 0 where
  text : Bytes → Arg
  int : ℤ → Arg
  nat : ℕ → Arg
  errno_text : Arg
  pid_of signal_of : ℕ → Arg

-- How the program leaves a call of a module for good: by `_exit`, or by never coming back from it.
pub data Halt : Type 0 where
  by_exit endless : Halt

-- What an observer sees: log lines and prints (their format and arguments), programs started, calls
-- of modules that are not part of the model, system calls on other processes, the directory
-- that a child goes to before it starts a program, and the end of all events in a call that does
-- not come back.
pub data Event : Type 0 where
  logged : Level → String → String → List Arg → Event
  printed : String → List Arg → Event
  spawned : String → List Bytes → Event
  called : Call → Event
  requested : String → List ℤ → Event
  entered : String → Event
  gone : Halt → Event

-- How a fork with a wait for the child ends. A failed wait leaves `status` as it was: `some n` if
-- the bytes there read as an exit with code `n`.
pub data Child : Type 0 where
  fork_failed signalled : Child
  wait_failed : Option ℕ → Child
  exited : ℕ → Child

-- `children` answers the forks in turn, `typed` the calls of linenoise (`none` is NULL, and so is
-- the end of the list); `pipe_fails` says whether the pipe made before a fork fails, and `outputs`
-- what the reads from that pipe find, in turn; `memory` whether malloc gives so many bytes. `trace` has the newest event in front.
pub record World : Type 0 where
  pub stdin : Bytes
  pub typed : List (Option Bytes)
  pub children : ℕ → Child
  pub pipe_fails : ℕ → Bool
  pub outputs : ℕ → List Bytes
  pub memory : ℕ → Bool
  pub forks : ℕ
  pub is_interactive : Bool
  pub trace : List Event

abbrev pub M : Type 0 → Type 0
M A = World → A × World

abbrev pub pure : {A : Type 0} → A → M A
pure a w = (a, w)

infixl 5 ◌>>=◌ ◌>>◌
abbrev pub ◌>>=◌ : {A B : Type 0} → M A → (A → M B) → M B
◌>>=◌ m f w = let r = m w in f r.0 r.1

abbrev pub ◌>>◌ : {A B : Type 0} → M A → M B → M B
m >> k = m >>= λ _. k

abbrev pub skip : M (Unit {0})
skip = pure tt

abbrev pub emit : Event → M (Unit {0})
emit e w = (tt, record w { trace = e ∷ w.trace })

-- A call that did not come back is the last thing that happened.
abbrev pub is_gone : List Event → Bool
is_gone (gone h ∷ trace) = true
is_gone _ = false

abbrev pub log_info : String → String → List Arg → M (Unit {0})
log_info module_name format args = emit (logged info module_name format args)

abbrev pub log_warning : String → String → List Arg → M (Unit {0})
log_warning module_name format args = emit (logged warning module_name format args)

abbrev pub log_error : String → String → List Arg → M (Unit {0})
log_error module_name format args = emit (logged error module_name format args)

abbrev pub print : String → List Arg → M (Unit {0})
print format args = emit (printed format args)
