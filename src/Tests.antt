-- ===== src/Tests.antt =====
-- Runs of the model at concrete inputs: shared data.
mod Parsing
mod Routing
mod Running
mod Menus
mod Processes
mod Kernel
mod Shell
mod Network
mod Sockets
use Prim.Native.String.{String}
use nhan_linux_process.Prelude.{
  ℕ, Bool, true, false, Option, none, some, List, [], ◌∷◌, length, codes, Bytes, ℤ, pos, minus_one,
  ◌≤◌, arith,
}
use nhan_linux_process.System.Call.{Call}
use nhan_linux_process.System.World.{World, Child, exited, called}
use nhan_linux_process.System.Backend.{Backend, Reply}
use nhan_linux_process.Cli.Context.{Contexts, initial, main_context}
use nhan_linux_process.Cli.Repl.{Repl}

-- A system where every child exits with status 0, on what is typed and what stands on standard input.
abbrev pub world : List (Option Bytes) → Bytes → World
world typed stdin = record {
  stdin = stdin;
  typed = typed;
  children = λ _. exited 0;
  pipe_fails = λ _. false;
  memory = λ _. true;
  outputs = λ _. codes "one" ∷ codes "two" ∷ [];
  forks = 0;
  is_interactive = true;
  trace = [];
}

abbrev pub perform_recorded : Call → World → Reply × World
perform_recorded c w =
    (record { value = pos 0; contents = [] }, record w { trace = called c ∷ w.trace })

-- Modules that only note that they were called, and a menu where nothing is chosen.
abbrev pub recorder : Backend
recorder = record {
  perform = perform_recorded;
  select = λ _ _ w. (minus_one, w);
  has_sysmgr = true;
  perform_typed = λ c w. omega arith;
  select_typed = λ _ _ w. omega arith;
}

abbrev pub at_start : List (Option Bytes) → Repl
at_start typed = record { contexts = initial; history = []; world = world typed [] }

-- The program inside of the context of a module.
abbrev pub inside : String → Repl
inside name = record {
  contexts = record {
    stack = main_context ∷ codes name ∷ [] ∷ [] ∷ [] ∷ [] ∷ [] ∷ [] ∷ [];
    depth = 1;
  };
  history = [];
  world = world [] [];
}
