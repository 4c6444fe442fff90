-- ===== src/Cli/Repl/Ends.antt =====
-- cli/repl.c: the end of the loop, and the contexts there.
use nhan_linux_process.Prelude.{Option, some, ◌≡◌}
use nhan_linux_process.System.Backend.{Backend}
use nhan_linux_process.Cli.Repl.{Repl, Flow}
use nhan_linux_process.Cli.Repl.Invariant.{IsValid}

module _ (b : Backend) where
  -- What the loop leaves behind on enough fuel.
  abbrev pub EndsValid : Option (Flow × Repl) → Type 0
  EndsValid o = (r : Flow × Repl) × (o ≡ some r) × IsValid r.1.contexts
