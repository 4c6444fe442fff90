-- ===== src/Cli/Keeps/Rules.antt =====
-- The rules for actions put together as the command line puts them together.
use Prim.Native.String.{String}
use nhan_linux_process.Prelude.{
  ℕ, ◌≤◌, Bool, Option, none, some, List, [], ◌∷◌, if◌then◌else◌, if_elim, length, get_elem?, Bytes,
  ℤ, pos, negsuc, All, ◌==◌, arith,
}
use nhan_linux_process.Libc.Strings.{copy_to}
use nhan_linux_process.System.Call.{Call}
use nhan_linux_process.System.World.{World, Event, M, pure, skip, ◌>>=◌, ◌>>◌, emit, print, text}
use nhan_linux_process.System.Backend.{Backend}
use nhan_linux_process.Cli.Explain.{explain_in, print_all, explanations, print_prompt_explanation}
use nhan_linux_process.Cli.Prompt.{linenoise, read_answer, typed_answer, get_arg_or_prompt}
use nhan_linux_process.Cli.Dispatch.Ladder.{Table, ladder, ladder_all, act, with_arg}

pub record Keeps {A : Type 0} (m : M A) : Type 0 where
  pub kept : (w : World) → length (m w).1.typed ≤ length w.typed

pub Keeps-pure : {A : Type 0} (a : A) → Keeps (pure a)
Keeps-pure a = record { kept = λ w. omega arith }

module _ {A B : Type 0} where
  pub Keeps-bind : {m : M A} (f : A → M B) → Keeps m → ((a : A) → Keeps (f a)) → Keeps (m >>= f)
  Keeps-bind {m} f k l = record { kept = λ w. omega (arith, k.kept w, (l (m w).0).kept (m w).1) }

  pub Keeps-then : {m : M A} {n : M B} → Keeps m → Keeps n → Keeps (m >> n)
  Keeps-then {m} {n} k l = record { kept = λ w. omega (arith, k.kept w, l.kept (m w).1) }

pub Keeps-emit : (e : Event) → Keeps (emit e)
Keeps-emit e = record { kept = λ w. omega arith }

pub Keeps-skip : Keeps skip
Keeps-skip = Keeps-pure tt

pub Keeps-if : {A : Type 0} (b : Bool) {m n : M A} → Keeps m → Keeps n → Keeps (if b then m else n)
Keeps-if b k l = if_elim Keeps b k l

-- An action that asks whether the user is at a terminal
pub Keeps-interactive :
    {A : Type 0} {m n : M A}
    → Keeps m
    → Keeps n
    → Keeps (λ w. (if w.is_interactive then m else n) w)
Keeps-interactive {m} {n} k l = record { kept = λ w. (Keeps-if w.is_interactive k l).kept w }

pub Keeps-linenoise : Keeps linenoise
unfolding linenoise
Keeps-linenoise = record { kept = λ w. ground arith }

pub Keeps-print_all : (ts : List String) → Keeps (print_all ts)
unfolding print_all
Keeps-print_all [] = Keeps-skip
Keeps-print_all (t ∷ ts) = Keeps-then (Keeps-emit _) (Keeps-print_all ts)

pub Keeps-print_prompt_explanation : (prompt : Bytes) → Keeps (print_prompt_explanation prompt)
unfolding print_prompt_explanation
Keeps-print_prompt_explanation prompt = go (explain_in explanations prompt)
  where
    go : (o : Option (List String)) → Keeps (elim o [ none ↦ skip | some texts ↦ print_all texts ])
    go none = Keeps-skip
    go (some texts) = Keeps-print_all texts

Keeps-read_answer : (size : ℕ) → Keeps (read_answer size)
unfolding read_answer
Keeps-read_answer size = record { kept = λ w. ground arith }

pub Keeps-get_arg_or_prompt :
    (size index : ℕ) (argv : List Bytes) (prompt : Bytes)
    → Keeps (get_arg_or_prompt size index argv prompt)
unfolding get_arg_or_prompt
Keeps-get_arg_or_prompt size index argv prompt = go (get_elem? argv index)
  where
    go :
        (o : Option Bytes)
        → Keeps {A = ℤ × Bytes} (elim o [
          | some arg ↦ pure (pos 0, copy_to size arg)
          | none ↦ do
            print_prompt_explanation prompt
            λ w.
                (if w.is_interactive
                    then (do input ← linenoise; pure (typed_answer size input))
                    else do print "%s" (text prompt ∷ []); read_answer size)
                  w
        ])
    go (some arg) = Keeps-pure _
    go none = Keeps-then (Keeps-print_prompt_explanation prompt) (
        Keeps-interactive
          (Keeps-bind (λ input. pure (typed_answer size input)) Keeps-linenoise
            (λ input. Keeps-pure _))
          (Keeps-then (Keeps-emit _) (Keeps-read_answer size)))

pub Keeps-act : (b : Backend) (c : Call) → Keeps (act b c)
unfolding act
Keeps-act b c = record { kept = λ w. b.perform_typed c w }

-- The same, where a tactic is to find the call
pub act_kept : (b : Backend) (c : Call) (w : World) → length (act b c w).1.typed ≤ length w.typed
act_kept b c w = (Keeps-act b c).kept w

pub Keeps-with_arg :
    (size index : ℕ) (argv : List Bytes) (prompt : Bytes) {next : Bytes → M (Unit {0})}
    → ((x : Bytes) → Keeps (next x))
    → Keeps (with_arg size index argv prompt next)
unfolding with_arg
Keeps-with_arg size index argv prompt {next} k =
    Keeps-bind _ (Keeps-get_arg_or_prompt size index argv prompt) go
  where
    go :
        (r : ℤ × Bytes)
        → Keeps {A = Unit {0}} (elim r.0 [ pos n ↦ if n == 0 then next r.1 else skip | _ ↦ skip ])
    go (pos n, x) = Keeps-if (n == 0) (k x) Keeps-skip
    go (negsuc n, x) = Keeps-skip

-- A dispatcher keeps the lines if each of its entries does.
pub Keeps-ladder :
    (cmd : Bytes) (t : Table) {other : M (Unit {0})}
    → All (λ e. Keeps e.1) t
    → Keeps other
    → Keeps (ladder cmd t other)
Keeps-ladder cmd t {other} h o = ladder_all Keeps cmd t other h o
