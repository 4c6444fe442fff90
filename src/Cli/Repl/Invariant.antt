-- ===== src/Cli/Repl/Invariant.antt =====
-- cli/repl.c: the stack of contexts as a state machine, and the commands as its steps.
use Prim.Native.String.{String}
use nhan_linux_process.Prelude.{
  ℕ, zero, suc, ◌≤◌, true, ◌||◌, Option, none, some, List, [], ◌∷◌, if◌then◌else◌, ◌==◌, length,
  get_or, str_eq, str_eq_iff, length-set, get_or-set_self, get_or-set-suc, codes, Bytes, ◌≡◌, ◌≢◌,
  ◌⊎◌, refl, ◌∙◌, arith, inl, inr, Bool-cases, if_elim,
}
use nhan_linux_process.Libc.Strings.{strtok_words, copy_to}
use nhan_linux_process.System.World.{M}
use nhan_linux_process.System.Backend.{Backend}
use nhan_linux_process.Cli.Parser.{parser_tokenize}
use nhan_linux_process.Cli.Prompt.{escape_line}
use nhan_linux_process.Cli.Context.{
  Contexts, main_context, initial, max_context_depth, context_size, repl_get_current_context,
  context_push, context_pop,
}
use nhan_linux_process.Cli.Names.{one_of, one_of_elim}
use nhan_linux_process.Cli.Palette.{palette_search_and_show}
use nhan_linux_process.Cli.Dispatch.Ladder.{ladder_all}
use nhan_linux_process.Cli.Dispatch.Socket.{dispatch_socket}
use nhan_linux_process.Cli.Dispatch.Commands.{
  dispatch_file, dispatch_process, dispatch_network, dispatch_package, dispatch_shell,
  dispatch_kernel,
}
use nhan_linux_process.Cli.Repl.{
  main_table, history_add, tokenize_and_route, current, Repl, Flow, stuck, enter, effect,
  route_main, route_and_dispatch, slash_command, repl_line, is_valid_command,
}

-- The contexts below the main one.
abbrev pub context_names : List String
context_names = "file" ∷ "process" ∷ "network" ∷ "socket" ∷ "package" ∷ "shell" ∷ "kernel" ∷ []

-- Eight entries of which at most two are in use: main, and one of its contexts.
pub record IsValid (c : Contexts) : Type 0 where
  pub size : length c.stack ≡ max_context_depth
  pub shallow : c.depth ≤ 1
  pub bottom : get_or c.stack 0 [] ≡ main_context
  pub nested : c.depth ≡ 1 → one_of (get_or c.stack 1 []) context_names ≡ true

-- What a command may do to the stack.
pub data Step (c : Contexts) : Contexts → Type 0 where
  stay : Step c c
  push :
      (name : String)
      → one_of (codes name) context_names ≡ true
      → repl_get_current_context c ≡ main_context
      → Step c (context_push (codes name) c)
  pop : Step c (context_pop c)

pub initial-IsValid : IsValid initial
initial-IsValid = record {
  size = refl;
  shallow = omega arith;
  bottom = refl;
  nested = λ e. absurd (omega arith);
}

one_cases : (n : ℕ) → n ≤ 1 → (n ≡ 0) ⊎ (n ≡ 1)
one_cases zero h = inl refl
one_cases (suc n) h = inr (omega arith)

main_not_nested : (n : Bytes) → one_of n context_names ≡ true → n ≡ main_context → ⊥
main_not_nested n h e = one_of_elim (λ m. m ≢ main_context) n context_names (ground arith) h e

-- Only the bottom of a valid stack is the main context.
pub main_at_bottom :
    {c : Contexts} → IsValid c → repl_get_current_context c ≡ main_context → c.depth ≡ 0
unfolding repl_get_current_context
main_at_bottom {c} v e = elim (one_cases c.depth v.shallow) [
  | inl z ↦ z
  | inr o ↦ absurd (main_not_nested _ (v.nested o) (rw o at e))
]

push-IsValid :
    {c : Contexts} (name : Bytes)
    → IsValid c
    → c.depth ≡ 0
    → one_of (copy_to context_size name) context_names ≡ true
    → IsValid (context_push name c)
unfolding context_push
push-IsValid {c} name v z h = rw z (record {
  size = length-set c.stack 1 (copy_to context_size name) ∙ v.size;
  shallow = omega arith;
  bottom = get_or-set-suc c.stack 0 (copy_to context_size name) [] ∙ v.bottom;
  nested =
      λ _. rw (get_or-set_self c.stack 1 (copy_to context_size name) [] (omega (arith, v.size))) h;
})

pop-IsValid : {c : Contexts} → IsValid c → IsValid (context_pop c)
unfolding context_pop
pop-IsValid v = ground arith

-- The name of a context fits its buffer.
name_fits : (name : Bytes) → one_of name context_names ≡ true → copy_to context_size name ≡ name
name_fits name h = one_of_elim (λ n. copy_to context_size n ≡ n) name context_names (ground arith) h

pub Step-IsValid : {c d : Contexts} → Step c d → IsValid c → IsValid d
Step-IsValid stay v = v
Step-IsValid (push name h m) v =
    push-IsValid (codes name) v (main_at_bottom v m) (rw (name_fits (codes name) h) h)
Step-IsValid pop v = pop-IsValid v

-- A transition of the program that takes a step of the stack.
abbrev StepsFrom : Repl → (Repl → Flow × Repl) → Type 0
StepsFrom s f = Step s.contexts (f s).1.contexts

module _ (b : Backend) where
  enter-Step :
      (name : String) (dispatch : List Bytes → M (Unit {0})) (args : List Bytes) (s : Repl)
      → one_of (codes name) context_names ≡ true
      → current s ≡ main_context
      → StepsFrom s (enter b name dispatch args)
  enter-Step name dispatch [] s h m = push name h m
  enter-Step name dispatch (a ∷ args) s h m = stay

  route_main-Step :
      (root : Bytes) (args : List Bytes) (s : Repl)
      → current s ≡ main_context
      → StepsFrom s (route_main b root args)
  unfolding route_main one_of
  route_main-Step root args s m =
      let into =
        λ (name : String) (dispatch : List Bytes → M (Unit {0}))
            (h : one_of (codes name) context_names ≡ true).
          enter-Step name dispatch args s h m in
      ladder_all (StepsFrom s) root (main_table b root args) _
        (
          into "file" (dispatch_file b) refl,
          (
            into "process" (dispatch_process b) refl,
            (
              into "network" (dispatch_network b) refl,
              (
                into "socket" (dispatch_socket b) refl,
                (
                  into "package" (dispatch_package b) refl,
                  (
                    into "package" (dispatch_package b) refl,
                    (
                      into "shell" (dispatch_shell b) refl,
                      (stay, (stay, (into "kernel" (dispatch_kernel b) refl, (stay, (stay, tt))))),
                    ),
                  ),
                ),
              ),
            ),
          ),
        )
        stay

  -- Every routed command leaves the stack of contexts as it is, or pops it, or, only in the main
  -- context, pushes the name of one of the seven contexts of the modules.
  pub route_and_dispatch-Step :
      (argv : List Bytes) (s : Repl) → StepsFrom s (route_and_dispatch b argv)
  unfolding route_and_dispatch
  route_and_dispatch-Step [] s = stay
  route_and_dispatch-Step (root ∷ args) s = elim (Bool-cases (str_eq (current s) main_context)) [
    | inl m ↦ rw m (route_main-Step root args _ ((str_eq_iff (current s) main_context).0 m))
    | inr m ↦ rw m (elim (Bool-cases (str_eq root (codes "back") || str_eq root (codes ".."))) [
      | inl k ↦ rw k pop
      | inr k ↦ rw k stay
    ])
  ]

  tokenize_and_route-Step : (line : Bytes) (s : Repl) → StepsFrom s (tokenize_and_route b line)
  tokenize_and_route-Step line s = by_args (parser_tokenize line 64)
    where
      by_args :
          (o : Option (List Bytes))
          → StepsFrom s
              (λ t. elim o [ none ↦ (stuck, t) | some argv ↦ route_and_dispatch b argv t ])
      by_args none = stay
      by_args (some argv) = route_and_dispatch-Step argv s

  -- So does a line of the user.
  slash_command-Step :
      (line cmd_part : Bytes) (s : Repl) → StepsFrom s (slash_command b line cmd_part)
  unfolding slash_command
  slash_command-Step line cmd_part s = by_words (strtok_words 16 cmd_part)
    where
      by_words :
          (ws : List Bytes)
          → StepsFrom s (λ t. elim ws [
            | [] ↦ effect (palette_search_and_show (current t) line) t
            | word ∷ _ ↦
                if is_valid_command (current t) word
                then tokenize_and_route b cmd_part t
                else effect (palette_search_and_show (current t) line) t
          ])
      by_words [] = stay
      by_words (word ∷ _) =
          if_elim (λ (r : Flow × Repl). Step s.contexts r.1.contexts)
            (is_valid_command (current s) word) (tokenize_and_route-Step cmd_part s) stay

  pub repl_line-Step : (line : Bytes) (s : Repl) → StepsFrom s (repl_line b line)
  unfolding repl_line
  repl_line-Step [] s = stay
  repl_line-Step (c ∷ cs) s =
      if_elim (λ (r : Flow × Repl). Step s.contexts r.1.contexts) (str_eq (c ∷ cs) escape_line) pop
        (if_elim (λ (r : Flow × Repl). Step s.contexts r.1.contexts) (c == b'/')
          (slash_command-Step (c ∷ cs) cs s)
          (tokenize_and_route-Step (c ∷ cs)
            (record s { history = history_add (c ∷ cs) s.history })))
