-- ===== src/Cli/Prompt.antt =====
-- cli/repl.c: `get_arg_or_prompt`, an argument of a command or what the user answers instead.
use nhan_linux_process.Prelude.{
  ℕ, Option, none, some, List, [], ◌∷◌, if◌then◌else◌, get_elem?, str_eq, Bytes, ℤ, pos, negsuc,
  minus_one,
}
use nhan_linux_process.Libc.Strings.{is_empty, copy_to, chomp}
use nhan_linux_process.Libc.Stdio.{fgets}
use nhan_linux_process.System.World.{M, pure, ◌>>=◌, ◌>>◌, text, print}
use nhan_linux_process.Cli.Explain.{print_prompt_explanation}

-- linenoise(prompt): the line, `none` for NULL
unfoldable pub linenoise : M (Option Bytes)
linenoise w = elim w.typed [ [] ↦ (none, w) | line ∷ more ↦ (line, record w { typed = more }) ]

-- "\x1b", which linenoise returns for the escape key
abbrev pub escape_line : Bytes
escape_line = 27 ∷ []

abbrev pub cancelled : ℤ
cancelled = negsuc 1

-- The result with what is in `dest`: 0 and the text, -1 for none, -2 for the escape key.
abbrev pub typed_answer : ℕ → Option Bytes → ℤ × Bytes
typed_answer size none = (minus_one, [])
typed_answer size (some input) =
    if str_eq input escape_line
    then (cancelled, [])
    else if is_empty (copy_to size input)
    then (minus_one, [])
    else (pos 0, copy_to size input)

abbrev pub piped_answer : Bytes → ℤ × Bytes
piped_answer line = if is_empty line then (minus_one, []) else (pos 0, line)

-- The prompt of a program whose input is no terminal
unfoldable pub read_answer : ℕ → M (ℤ × Bytes)
unfolding fgets
read_answer size w = elim (fgets size w.stdin) [
  | none ↦ ((minus_one, []), w)
  | some (line, rest) ↦ (piped_answer (chomp line), record w { stdin = rest })
]

unfoldable pub get_arg_or_prompt : ℕ → ℕ → List Bytes → Bytes → M (ℤ × Bytes)
unfolding print_prompt_explanation linenoise read_answer
get_arg_or_prompt size index argv prompt = elim (get_elem? argv index) [
  | some arg ↦ pure (pos 0, copy_to size arg)
  | none ↦ do
    print_prompt_explanation prompt
    λ w.
        (if w.is_interactive
            then (do input ← linenoise; pure (typed_answer size input))
            else do print "%s" (text prompt ∷ []); read_answer size)
          w
]
