-- ===== src/Cli/Context.antt =====
-- cli/repl.c: the stack of contexts.
use nhan_linux_process.Prelude.{
  ℕ, ◌+◌, ◌-◌, List, [], ◌∷◌, ltb, if◌then◌else◌, get_or, set, codes, Bytes,
}
use nhan_linux_process.Libc.Strings.{copy_to}

abbrev pub max_context_depth : ℕ
max_context_depth = 8

abbrev pub context_size : ℕ
context_size = 64

-- `context_stack` and `context_depth`
pub record Contexts : Type 0 where
  pub stack : List Bytes
  pub depth : ℕ

abbrev pub main_context : Bytes
main_context = codes "main"

abbrev pub initial : Contexts
initial = record { stack = main_context ∷ [] ∷ [] ∷ [] ∷ [] ∷ [] ∷ [] ∷ [] ∷ []; depth = 0 }

unfoldable pub repl_get_current_context : Contexts → Bytes
repl_get_current_context s = get_or s.stack s.depth []

unfoldable pub context_push : Bytes → Contexts → Contexts
context_push context s =
    if ltb s.depth (max_context_depth - 1)
    then record {
      stack = set s.stack (s.depth + 1) (copy_to context_size context);
      depth = s.depth + 1;
    }
    else s

unfoldable pub context_pop : Contexts → Contexts
context_pop s = if ltb 0 s.depth then record s { depth = s.depth - 1 } else s
