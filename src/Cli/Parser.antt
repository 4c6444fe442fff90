-- ===== src/Cli/Parser.antt =====
-- cli/parser.c: `parser_tokenize` on the copy of the line that it cuts up in place.
pub mod Tokens
mod Agrees
pub mod Refine
pub mod RoundTrip
use nhan_linux_process.Prelude.{
  ℕ, zero, suc, ◌+◌, Bool, true, false, not, ◌&&◌, ◌||◌, Option, none, some, List, [], ◌∷◌, ◌++◌,
  ltb, leb, ◌==◌, if◌then◌else◌, length, get_or, set, drop, Bytes,
}
use nhan_linux_process.Libc.Strings.{is_space}

-- strdup: the bytes from the pointer to the next NUL
abbrev pub c_str : Bytes → Bytes
c_str [] = []
c_str (c ∷ cs) = if c == 0 then [] else c ∷ c_str cs

-- The locals of the loop, but for `p`. The pointer `arg_start` is an index into `copy`, `argc` is
-- the length of `argv`, and reading at the end of `copy` gives the NUL that strdup put there.
pub record Scan : Type 0 where
  pub copy : Bytes
  pub in_quotes : Bool
  pub arg_start : Option ℕ
  pub argv : List Bytes

-- argv[argc++] = strdup(arg_start), or strdup("") for a null pointer
abbrev pub arg_text : Bytes → Option ℕ → Bytes
arg_text copy none = []
arg_text copy (some a) = c_str (drop a copy)

abbrev pub push_arg : Scan → Scan
push_arg s = record s { argv = s.argv ++ (arg_text s.copy s.arg_start ∷ []); arg_start = none }

-- At the end of an argument the byte at `p` becomes a NUL before the argument is copied.
abbrev pub cut_arg : Scan → ℕ → Scan
cut_arg s p = push_arg (record s { copy = set s.copy p 0 })

at_quote : Scan → ℕ → Scan
at_quote s p =
    if s.in_quotes
    then record (cut_arg s p) { in_quotes = false }
    else record s { in_quotes = true; arg_start = some (p + 1) }

at_space : Scan → ℕ → Scan
at_space s p = if s.in_quotes then s else elim s.arg_start [ none ↦ s | some a ↦ cut_arg s p ]

at_other : Scan → ℕ → Scan
at_other s p = elim s.arg_start [ none ↦ record s { arg_start = some p } | some a ↦ s ]

-- the body of the loop
pub scan_byte : Scan → ℕ → Scan
unfolding at_quote at_space at_other
scan_byte s p =
    let c = get_or s.copy p 0 in
    if c == b'"' then at_quote s p else if is_space c then at_space s p else at_other s p

-- behind the loop: the last argument, which no quote or space ended
pub finish : ℕ → Scan → List Bytes
finish max_args s = elim s.arg_start [
  | none ↦ s.argv
  | some a ↦ if ltb (length s.argv) max_args then (push_arg s).argv else s.argv
]

-- The loop, with a round of fuel for each byte and one for the NUL; `none` is fuel run out.
pub scan : ℕ → ℕ → ℕ → Scan → Option (List Bytes)
unfolding scan_byte finish
scan max_args zero p s = none
scan max_args (suc fuel) p s =
    let more = scan max_args fuel (p + 1) (scan_byte s p) in
    if not (get_or s.copy p 0 == 0) && ltb (length s.argv) max_args
    then more
    else some (finish max_args s)

abbrev pub start : Bytes → Scan
start line = record { copy = line; in_quotes = false; arg_start = none; argv = [] }

-- The arguments that the call stores in `argv`, if the fuel is enough; what it returns is their
-- number.
unfoldable pub parser_tokenize : Bytes → ℕ → Option (List Bytes)
unfolding scan
parser_tokenize line max_args = scan max_args (suc (length line)) 0 (start line)
