-- ===== src/Cli/Parser/Refine.antt =====
-- cli/parser.c: the loop of the tokenizer against the machine on bytes.
use nhan_linux_process.Prelude.{
  ℕ, zero, suc, ◌+◌, lt→ltb, ◌⊎◌, Option-cases, ◌<◌, true, false, some, [], ◌∷◌, ◌++◌, ltb, ◌==◌,
  length, get_or, Bytes, ◌≡◌, refl, sym, ap, ap₂, ◌∙◌, arith, inl, inr, Bool-cases, ==_iff,
  length-append, get_or-append, drop-append, append-nil, append_assoc,
}
use nhan_linux_process.Cli.Parser.{Scan, arg_text, scan_byte, finish, scan, start, parser_tokenize}
use nhan_linux_process.Cli.Parser.Tokens.{
  Mode, gap, word, quoted, advance, rest_of, tokens_in, tokens, tokens_in-none, tokens_in-some,
}
use nhan_linux_process.Cli.Parser.Agrees.{
  text, Agrees, c_str-NoNul, c_str_end, byte_is, scan_byte-Follows,
}

-- The copy at the end of the line, and at a byte that is NUL.
end_byte : {s : Scan} {p : ℕ} (m : Mode) → Agrees s p m [] → get_or s.copy p 0 ≡ 0
end_byte {s} {p} m a =
    rw (a.copy_is, ← append_assoc)
      (get_or-append (a.front ++ text m) [] p 0
        (omega (arith, a.at, length-append a.front (text m))))

-- Where the line ends, what the pointer still shows is the argument that was being read.
abbrev Ends : Bytes → Type 0
Ends [] = Unit
Ends (c ∷ cs) = c ≡ 0

last_arg :
    (m : Mode) {s : Scan} {p : ℕ} (cs : Bytes) (a : Agrees s p m cs)
    → Ends cs
    → arg_text s.copy (some (length a.front)) ≡ text m
last_arg m [] a e =
    rw (a.copy_is, drop-append a.front (text m ++ []) (length a.front) refl, append-nil)
      (c_str_end (text m) a.no_nul)
last_arg m (c ∷ cs) a e =
    rw (a.copy_is, drop-append a.front (text m ++ (c ∷ cs)) (length a.front) refl, e)
      (c_str-NoNul (text m) cs a.no_nul)

finish_room :
    (m : Mode) (max_args : ℕ) {s : Scan} {p : ℕ} (cs : Bytes)
    → Agrees s p m cs
    → Ends cs
    → length s.argv < max_args
    → finish max_args s ≡ s.argv ++ rest_of m
unfolding finish
finish_room gap max_args {s} cs a e h = rw a.start_is (sym (append-nil s.argv))
finish_room (word w) max_args {s} cs a e h =
    rw (a.start_is, lt→ltb _ _ h) (ap (λ x. s.argv ++ (x ∷ [])) (last_arg (word w) cs a e))
finish_room (quoted w) max_args {s} cs a e h =
    rw (a.start_is, lt→ltb _ _ h) (ap (λ x. s.argv ++ (x ∷ [])) (last_arg (quoted w) cs a e))

finish_full :
    (max_args : ℕ) (s : Scan) → ltb (length s.argv) max_args ≡ false → finish max_args s ≡ s.argv
unfolding finish
finish_full max_args s h = ground arith

scan_stop :
    (max_args fuel p : ℕ) (s : Scan)
    → (get_or s.copy p 0 ≡ 0) ⊎ (ltb (length s.argv) max_args ≡ false)
    → scan max_args (suc fuel) p s ≡ some (finish max_args s)
unfolding scan
scan_stop max_args fuel p s (inl e) = rw e
scan_stop max_args fuel p s (inr e) = elim (Bool-cases (get_or s.copy p 0 == 0)) [
  | inl z ↦ rw z
  | inr z ↦ rw (z, e)
]

scan_more :
    (max_args fuel p : ℕ) (s : Scan)
    → (get_or s.copy p 0 == 0) ≡ false
    → ltb (length s.argv) max_args ≡ true
    → scan max_args (suc fuel) p s ≡ scan max_args fuel (p + 1) (scan_byte s p)
unfolding scan
scan_more max_args fuel p s z e = rw (z, e)

not_full : (k n : ℕ) → ltb k (k + suc n) ≡ true
not_full k n = ground arith

full : (k : ℕ) → ltb k (k + 0) ≡ false
full k = ground arith

-- From agreeing states the loop ends within its fuel, with the arguments of the machine.
scan-tokens_in :
    (cs : Bytes) (n : ℕ) (m : Mode) {s : Scan} {p : ℕ} (fuel max_args : ℕ)
    → Agrees s p m cs
    → length cs < fuel
    → max_args ≡ length s.argv + n
    → scan max_args fuel p s ≡ some (s.argv ++ tokens_in n m cs)
unfolding tokens_in
scan-tokens_in cs n m zero max_args a h k = absurd (omega arith)
scan-tokens_in cs zero m {s} {p} (suc fuel) max_args a h k =
    let e : ltb (length s.argv) max_args ≡ false = rw k (full (length s.argv)) in
    rw (scan_stop max_args fuel p s (inr e), finish_full max_args s e)
      (ap some (sym (append-nil s.argv)))
scan-tokens_in [] (suc n) m {s} {p} (suc fuel) max_args a h k =
    rw (scan_stop max_args fuel p s (inl (end_byte m a)))
      (ap some (finish_room m max_args [] a tt (omega arith)))
scan-tokens_in (c ∷ cs) (suc n) m {s} {p} (suc fuel) max_args a h k = elim (Bool-cases (c == 0)) [
  | inl z ↦
      rw (scan_stop max_args fuel p s (inl (byte_is a ∙ (==_iff c 0).0 z)), z)
        (ap some (finish_room m max_args (c ∷ cs) a ((==_iff c 0).0 z) (omega arith)))
  | inr z ↦
      let room : ltb (length s.argv) max_args ≡ true = rw k (not_full (length s.argv) n) in
      let next = scan_byte-Follows m (ground arith) a in
      scan_more max_args fuel p s (rw (byte_is a) z) room ∙ elim (Option-cases (advance m c).1) [
        | inl e ↦
            let same = next.1 ∙ rw e (append-nil s.argv) in
            scan-tokens_in cs (suc n) (advance m c).0 fuel max_args next.0 (omega arith)
              (omega (arith, ap length same))
            ∙ ap some (ap₂ ◌++◌ same (sym (tokens_in-none n m c cs z e)))
        | inr (w, e) ↦
            let longer : (scan_byte s p).argv ≡ s.argv ++ (w ∷ []) = next.1 ∙ rw e in
            scan-tokens_in cs n (advance m c).0 fuel max_args next.0 (omega arith)
              (omega (arith, ap length longer, length-append s.argv (w ∷ [])))
            ∙ ap some (
                ap (λ v. v ++ tokens_in n (advance m c).0 cs) longer
                ∙ append_assoc s.argv (w ∷ []) _
                ∙ ap (◌++◌ s.argv) (sym (tokens_in-some n m c cs z e)))
      ]
]

-- For every line and every size of argv, the loop that cuts up a copy of the line in place, with
-- its pointer, its flag and its fuel, ends within its fuel, and stores the arguments that the
-- reference automaton reads off the line.
pub parser_tokenize-tokens :
    (line : Bytes) (max_args : ℕ) → parser_tokenize line max_args ≡ some (tokens max_args line)
unfolding parser_tokenize
parser_tokenize-tokens line max_args =
    scan-tokens_in line max_args gap {s = start line} (suc (length line)) max_args
      (record {
        front = [];
        copy_is = refl;
        at = omega arith;
        start_is = refl;
        quotes_are = refl;
        no_nul = tt;
      })
      (omega arith) (omega arith)
