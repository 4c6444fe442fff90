-- ===== src/Cli/Parser/Agrees.antt =====
-- cli/parser.c: one round of the loop, on the buffer and its pointers, against the machine.
use nhan_linux_process.Prelude.{
  ℕ, ◌+◌, Bool, true, false, Option, none, some, List, [], ◌∷◌, ◌++◌, ◌==◌, length, get_or, set,
  Bytes, NoNul, All-append, ◌≡◌, ◌≢◌, refl, sym, ap, ◌∙◌, arith, inl, inr, Bool-cases, ==_iff,
  length-append, get_or-append, set-append, drop-append, append-nil, append_assoc,
}
use nhan_linux_process.Libc.Strings.{is_space}
use nhan_linux_process.Cli.Parser.{
  c_str, Scan, arg_text, cut_arg, at_quote, at_space, at_other, scan_byte,
}
use nhan_linux_process.Cli.Parser.Tokens.{Mode, gap, word, quoted, advance}

abbrev pub text : Mode → Bytes
text gap = []
text (word w) = w
text (quoted w) = w

abbrev pub is_quoted : Mode → Bool
is_quoted (quoted w) = true
is_quoted _ = false

abbrev pub pointer : Mode → ℕ → Option ℕ
pointer gap a = none
pointer (word w) a = some a
pointer (quoted w) a = some a

-- At `p` the copy still holds the unread bytes, behind the bytes of the argument being read.
pub record Agrees (s : Scan) (p : ℕ) (m : Mode) (unread : Bytes) : Type 0 where
  pub front : Bytes
  pub copy_is : s.copy ≡ front ++ (text m ++ unread)
  pub at : p ≡ length front + length (text m)
  pub start_is : s.arg_start ≡ pointer m (length front)
  pub quotes_are : s.in_quotes ≡ is_quoted m
  pub no_nul : NoNul (text m)

pub c_str-NoNul : (w rest : Bytes) → NoNul w → c_str (w ++ (0 ∷ rest)) ≡ w
c_str-NoNul [] rest h = refl
c_str-NoNul (c ∷ w) rest h = ground (arith, c_str-NoNul w rest h.1)

pub c_str_end : (w : Bytes) → NoNul w → c_str w ≡ w
c_str_end [] h = refl
c_str_end (c ∷ w) h = ground (arith, c_str_end w h.1)

module _ {s : Scan} {p : ℕ} {m : Mode} {c : ℕ} {cs : Bytes} (a : Agrees s p m (c ∷ cs)) where
  pub byte_is : get_or s.copy p 0 ≡ c
  byte_is =
      rw (a.copy_is, ← append_assoc)
        (get_or-append (a.front ++ text m) (c ∷ cs) p 0
          (omega (arith, a.at, length-append a.front (text m))))

  cut_is : set s.copy p 0 ≡ a.front ++ (text m ++ (0 ∷ cs))
  cut_is =
      rw (a.copy_is, ← append_assoc)
        (set-append (a.front ++ text m) (c ∷ cs) p 0
            (omega (arith, a.at, length-append a.front (text m)))
          ∙ append_assoc a.front (text m) (0 ∷ cs))

  arg_is : (w : Bytes) → w ≡ text m → arg_text (set s.copy p 0) (some (length a.front)) ≡ w
  arg_is w e =
      rw (cut_is, drop-append a.front (text m ++ (0 ∷ cs)) (length a.front) refl, e)
        (c_str-NoNul (text m) cs a.no_nul)

-- The front part grows by the argument that was read and the byte behind it.
grow_front :
    (front w cs : Bytes) (x : ℕ) → front ++ (w ++ (x ∷ cs)) ≡ (front ++ (w ++ (x ∷ []))) ++ cs
grow_front front w cs x = simp append_assoc

length-grow_front :
    (front w : Bytes) (x : ℕ) → length (front ++ (w ++ (x ∷ []))) ≡ length front + length w + 1
length-grow_front front w x =
    omega (arith, length-append front (w ++ (x ∷ [])), length-append w (x ∷ []))

abbrev pub emitted : Option Bytes → List Bytes
emitted none = []
emitted (some w) = w ∷ []

-- The scanner after one byte is where the machine is after that byte.
abbrev pub Follows : Scan → Scan → ℕ → Mode × Option Bytes → Bytes → Type 0
Follows s s' p next cs = Agrees s' (p + 1) next.0 cs × (s'.argv ≡ s.argv ++ emitted next.1)

-- A quote opens: what was read of a bare argument is left behind.
opens-Follows :
    (m : Mode) {s : Scan} {p : ℕ} {cs : Bytes}
    → is_quoted m ≡ false
    → Agrees s p m (b'"' ∷ cs)
    → Follows s (at_quote s p) p (quoted [], none) cs
unfolding at_quote
opens-Follows m {s} {p} {cs} q a =
    let e : s.in_quotes ≡ false = a.quotes_are ∙ q in
    rw e (
      record {
        front = a.front ++ (text m ++ (b'"' ∷ []));
        copy_is = a.copy_is ∙ grow_front a.front (text m) cs b'"';
        at = omega (arith, a.at, length-grow_front a.front (text m) b'"');
        start_is = ap some (omega (arith, a.at, length-grow_front a.front (text m) b'"'));
        quotes_are = refl;
        no_nul = tt;
      },
      sym (append-nil s.argv),
    )

-- A quote or a space ends an argument.
cut_arg-Follows :
    (m : Mode) {s t : Scan} {p c : ℕ} {cs : Bytes} (a : Agrees s p m (c ∷ cs))
    → s.arg_start ≡ some (length a.front)
    → t ≡ record (cut_arg s p) { in_quotes = false }
    → Follows s t p (gap, some (text m)) cs
cut_arg-Follows m {s} {t} {p} {c} {cs} a b e = rw e (
  record {
    front = a.front ++ (text m ++ (0 ∷ []));
    copy_is = cut_is a ∙ grow_front a.front (text m) cs 0;
    at = omega (arith, a.at, length-grow_front a.front (text m) 0);
    start_is = refl;
    quotes_are = refl;
    no_nul = tt;
  },
  ap (λ w. s.argv ++ (w ∷ [])) (rw b (arg_is a (text m) refl)),
)

at_quote-Follows :
    (m : Mode) {s : Scan} {p : ℕ} {cs : Bytes}
    → Agrees s p m (b'"' ∷ cs)
    → Follows s (at_quote s p) p (advance m b'"') cs
unfolding at_quote advance
at_quote-Follows gap a = opens-Follows gap refl a
at_quote-Follows (word w) a = opens-Follows (word w) refl a
at_quote-Follows (quoted w) a = cut_arg-Follows (quoted w) a a.start_is (rw a.quotes_are)

-- A byte that joins the argument, or a gap that grows by a byte.
reads-Follows :
    (m m' : Mode) {s t : Scan} {p c : ℕ} {cs : Bytes}
    → c ≢ 0
    → (a : Agrees s p m (c ∷ cs)) → text m' ≡ text m ++ (c ∷ [])
    → t.copy ≡ s.copy
    → t.argv ≡ s.argv
    → t.arg_start ≡ pointer m' (length a.front)
    → t.in_quotes ≡ is_quoted m'
    → Follows s t p (m', none) cs
reads-Follows m m' {s} {t} {p} {c} {cs} ne a tx ec ev es eq = (
  record {
    front = a.front;
    copy_is = ec ∙ a.copy_is ∙ rw (tx, append_assoc);
    at = omega (arith, a.at, ap length tx, length-append (text m) (c ∷ []));
    start_is = es;
    quotes_are = eq;
    no_nul = rw tx (All-append (λ x. x ≢ 0) (text m) (c ∷ []) a.no_nul (ne, tt));
  },
  ev ∙ sym (append-nil s.argv),
)

gap_space-Follows :
    {s : Scan} {p c : ℕ} {cs : Bytes} → Agrees s p gap (c ∷ cs) → Follows s s p (gap, none) cs
gap_space-Follows {s} {p} {c} {cs} a = (
  record {
    front = a.front ++ (c ∷ []);
    copy_is = a.copy_is ∙ grow_front a.front [] cs c;
    at = omega (arith, a.at, length-grow_front a.front [] c);
    start_is = a.start_is;
    quotes_are = a.quotes_are;
    no_nul = tt;
  },
  sym (append-nil s.argv),
)

at_space-Follows :
    (m : Mode) {s : Scan} {p c : ℕ} {cs : Bytes}
    → c ≢ 0
    → (c == b'"') ≡ false
    → is_space c ≡ true
    → Agrees s p m (c ∷ cs)
    → Follows s (at_space s p) p (advance m c) cs
unfolding at_space advance
at_space-Follows gap {s} ne q sp a = rw (q, sp, a.quotes_are, a.start_is) (gap_space-Follows a)
at_space-Follows (word w) {s} ne q sp a =
    rw (q, sp, a.quotes_are, a.start_is) (cut_arg-Follows (word w) a a.start_is (ground arith))
at_space-Follows (quoted w) {s} ne q sp a =
    rw (q, a.quotes_are)
      (reads-Follows (quoted w) (quoted (w ++ (_ ∷ []))) ne a refl refl refl a.start_is refl)

at_other-Follows :
    (m : Mode) {s : Scan} {p c : ℕ} {cs : Bytes}
    → c ≢ 0
    → (c == b'"') ≡ false
    → is_space c ≡ false
    → Agrees s p m (c ∷ cs)
    → Follows s (at_other s p) p (advance m c) cs
unfolding at_other advance
at_other-Follows gap {s} {p} {c} ne q sp a =
    rw (q, sp, a.start_is)
      (reads-Follows gap (word (c ∷ [])) ne a refl refl refl (ap some (omega (arith, a.at)))
        a.quotes_are)
at_other-Follows (word w) {s} {p} {c} ne q sp a =
    rw (q, sp, a.start_is)
      (reads-Follows (word w) (word (w ++ (c ∷ []))) ne a refl refl refl refl a.quotes_are)
at_other-Follows (quoted w) {s} {p} {c} ne q sp a =
    rw (q, a.start_is)
      (reads-Follows (quoted w) (quoted (w ++ (c ∷ []))) ne a refl refl refl refl a.quotes_are)

pub scan_byte-Follows :
    (m : Mode) {s : Scan} {p c : ℕ} {cs : Bytes}
    → c ≢ 0
    → Agrees s p m (c ∷ cs)
    → Follows s (scan_byte s p) p (advance m c) cs
unfolding scan_byte
scan_byte-Follows m {s} {p} {c} {cs} ne a = elim (Bool-cases (c == b'"')) [
  | inl q ↦
      rw (byte_is a, q)
        (rw ((==_iff c b'"').0 q) (at_quote-Follows m (rw (← (==_iff c b'"').0 q) a)))
  | inr q ↦ elim (Bool-cases (is_space c)) [
    | inl sp ↦ rw (byte_is a, q, sp) (at_space-Follows m ne q sp a)
    | inr sp ↦ rw (byte_is a, q, sp) (at_other-Follows m ne q sp a)
  ]
]
