-- ===== src/Cli/Parser/Tokens.antt =====
-- cli/parser.c: what the tokenizer computes, as a machine with no pointer and no buffer.
use nhan_linux_process.Prelude.{
  ℕ, zero, suc, true, false, Option, none, some, List, [], ◌∷◌, ◌++◌, ◌==◌, if◌then◌else◌, Bytes,
  ◌≡◌,
}
use nhan_linux_process.Libc.Strings.{is_space}

-- Between two arguments, inside a bare one, or inside a quoted one, with the bytes read so far.
pub data Mode : Type 0 where
  gap : Mode
  word : Bytes → Mode
  quoted : Bytes → Mode

-- One byte: the next mode, and the argument that the byte ends.
unfoldable pub advance : Mode → ℕ → Mode × Option Bytes
advance gap c =
    if c == b'"'
    then (quoted [], none)
    else if is_space c
    then (gap, none)
    else (word (c ∷ []), none)
advance (word w) c =
    if c == b'"'
    then (quoted [], none)
    else if is_space c
    then (gap, some w)
    else (word (w ++ c ∷ []), none)
advance (quoted w) c = if c == b'"' then (gap, some w) else (quoted (w ++ c ∷ []), none)

-- An argument that the end of the line ends.
abbrev pub rest_of : Mode → List Bytes
rest_of gap = []
rest_of (word w) = w ∷ []
rest_of (quoted w) = w ∷ []

-- At most `n` arguments from here on.
unfoldable pub tokens_in : ℕ → Mode → Bytes → List Bytes
unfolding advance
tokens_in zero m cs = []
tokens_in (suc n) m [] = rest_of m
tokens_in (suc n) m (c ∷ cs) =
    let (m', out) = advance m c in
    let on : List Bytes = elim out [
      | none ↦ tokens_in (suc n) m' cs
      | some w ↦ w ∷ tokens_in n m' cs
    ] in
    if c == 0 then rest_of m else on

abbrev pub tokens : ℕ → Bytes → List Bytes
tokens n line = tokens_in n gap line

-- A byte that ends no argument, and one that ends `w`.
pub tokens_in-none :
    (n : ℕ) (m : Mode) (c : ℕ) (cs : Bytes)
    → (c == 0) ≡ false
    → (advance m c).1 ≡ none
    → tokens_in (suc n) m (c ∷ cs) ≡ tokens_in (suc n) (advance m c).0 cs
unfolding tokens_in
tokens_in-none n m c cs z e = rw (z, e)

pub tokens_in-some :
    (n : ℕ) (m : Mode) (c : ℕ) (cs : Bytes) {w : Bytes}
    → (c == 0) ≡ false
    → (advance m c).1 ≡ some w
    → tokens_in (suc n) m (c ∷ cs) ≡ w ∷ tokens_in n (advance m c).0 cs
unfolding tokens_in
tokens_in-some n m c cs z e = rw (z, e)

tokens_in_nul :
    (n : ℕ) (m : Mode) (c : ℕ) (cs : Bytes)
    → (c == 0) ≡ true
    → tokens_in (suc n) m (c ∷ cs) ≡ rest_of m
unfolding tokens_in
tokens_in_nul n m c cs z = rw z
