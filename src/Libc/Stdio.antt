-- ===== src/Libc/Stdio.antt =====
-- fgets on the bytes that are left of standard input.
use nhan_linux_process.Prelude.{
  ℕ, zero, suc, Option, none, some, [], ◌∷◌, ◌++◌, ◌==◌, if◌then◌else◌, Bytes, ◌≡◌, refl, arith,
  All, ◌≢◌, ◌<◌, ◌≤◌, ap, length, List, ◌∙◌,
}
use nhan_linux_process.Libc.Strings.{chomp}

-- At most `n` bytes, up to and with the first newline, and what is left.
unfoldable pub line_of : ℕ → Bytes → Bytes × Bytes
line_of zero s = ([], s)
line_of (suc n) [] = ([], [])
line_of (suc n) (c ∷ cs) =
    let (line, rest) = line_of n cs in if c == b'\n' then (c ∷ [], cs) else (c ∷ line, rest)

-- fgets(buf, size, stdin): `none` is NULL, at the end of the input.
unfoldable pub fgets : ℕ → Bytes → Option (Bytes × Bytes)
unfolding line_of
fgets zero s = none
fgets (suc n) [] = none
fgets (suc n) (c ∷ cs) = some (line_of n (c ∷ cs))

-- A loop over fgets(buf, n + 1, fp) until it returns NULL, on fuel, and the pieces it reads.
unfoldable pub read_lines : ℕ → ℕ → Bytes → List Bytes
unfolding line_of
read_lines zero n s = []
read_lines (suc fuel) n [] = []
read_lines (suc fuel) n (c ∷ cs) =
    let (line, rest) = line_of n (c ∷ cs) in line ∷ read_lines fuel n rest

-- Each call takes a byte at least, so that one round for each byte is enough.
unfoldable pub lines_by : ℕ → Bytes → List Bytes
unfolding read_lines
lines_by n s = read_lines (length s) n s

-- What fgets read and what it left are the input.
line_of-append : (n : ℕ) (s : Bytes) → (line_of n s).0 ++ (line_of n s).1 ≡ s
unfolding line_of
line_of-append zero s = refl
line_of-append (suc n) [] = refl
line_of-append (suc n) (c ∷ cs) = ground (arith, line_of-append n cs)

-- A line with no newline and no NUL in it, that fits the buffer, is read whole.
abbrev pub OneLine : Bytes → Type 0
OneLine = All (λ c. (c ≢ 0) × (c ≢ b'\n'))

pub line_of-OneLine :
    (n : ℕ) (s rest : Bytes)
    → OneLine s
    → length s < n
    → line_of n (s ++ (b'\n' ∷ rest)) ≡ (s ++ (b'\n' ∷ []), rest)
unfolding line_of
line_of-OneLine zero s rest h k = absurd (omega arith)
line_of-OneLine (suc n) [] rest h k = refl
line_of-OneLine (suc n) (c ∷ s) rest h k = ground (arith, line_of-OneLine n s rest h.1)

pub chomp-OneLine : (s : Bytes) → OneLine s → chomp (s ++ (b'\n' ∷ [])) ≡ s
unfolding chomp
chomp-OneLine [] h = refl
chomp-OneLine (c ∷ s) h = ground (arith, chomp-OneLine s h.1)

pub fgets-OneLine :
    (n : ℕ) (s rest : Bytes)
    → OneLine s
    → length s < n
    → fgets (suc n) (s ++ (b'\n' ∷ rest)) ≡ some (s ++ (b'\n' ∷ []), rest)
unfolding fgets
fgets-OneLine n [] rest h k = ap some (line_of-OneLine n [] rest h k)
fgets-OneLine n (c ∷ s) rest h k = ap some (line_of-OneLine n (c ∷ s) rest h k)

pub concat : List Bytes → Bytes
concat [] = []
concat (s ∷ ss) = s ++ concat ss

line_of_le : (n : ℕ) (s : Bytes) → length (line_of n s).1 ≤ length s
unfolding line_of
line_of_le zero s = omega arith
line_of_le (suc n) [] = omega arith
line_of_le (suc n) (c ∷ cs) = ground (arith, line_of_le n cs)

pub line_of_shorter : (n c : ℕ) (cs : Bytes) → length (line_of (suc n) (c ∷ cs)).1 ≤ length cs
unfolding line_of
line_of_shorter n c cs = ground (arith, line_of_le n cs)

-- The loop reads the whole file, in order.
read_lines_all : (fuel n : ℕ) (s : Bytes) → length s ≤ fuel → concat (read_lines fuel (suc n) s) ≡ s
unfolding read_lines concat
read_lines_all zero n [] h = refl
read_lines_all zero n (c ∷ cs) h = absurd (omega arith)
read_lines_all (suc fuel) n [] h = refl
read_lines_all (suc fuel) n (c ∷ cs) h =
    ap (λ t. (line_of (suc n) (c ∷ cs)).0 ++ t)
      (read_lines_all fuel n (line_of (suc n) (c ∷ cs)).1 (omega (arith, line_of_shorter n c cs)))
    ∙ line_of-append (suc n) (c ∷ cs)

pub concat-lines_by : (n : ℕ) (s : Bytes) → concat (lines_by (suc n) s) ≡ s
unfolding lines_by
concat-lines_by n s = read_lines_all (length s) n s (omega arith)
