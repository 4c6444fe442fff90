-- ===== src/Modules/Kernel/Recent.antt =====
-- modules/kernel/kernel_mgr.c: the ring of the last 20 lines against the list of all of them, and
-- the search for a keyword against strstr.
use nhan_linux_process.Prelude.{
  ℕ, zero, suc, ◌+◌, ◌-◌, ◌%◌, ◌≤◌, ◌<◌, true, false, List, [], ◌∷◌, ◌++◌, map, if◌then◌else◌, ltb,
  ◌==◌, length, get_or, drop, Bytes, ◌≡◌, refl, ap, ap₂, ◌∙◌, sym, arith, Bool-cases, inl, inr,
  length-append, append-nil, append_assoc, tests,
}
use nhan_linux_process.Libc.Strings.{to_lower, has_prefix, contains}
use nhan_linux_process.Modules.Kernel.Log.{
  Recent, keep_line, keep_lines, is_about_module, kept, shown_from, shown, matches_at, matches_from,
  contains_keyword,
}

-- All that was kept, in order.
unfoldable pub about_lines : List Bytes → List Bytes
about_lines [] = []
about_lines (l ∷ ls) =
    let rest = about_lines ls in if is_about_module l then kept l ∷ rest else rest

-- The array holds the last 20 of the lines `xs`, the line of number `i` in slot `i % 20`.
record Holds (r : Recent) (xs : List Bytes) : Type 0 where
  counted : r.count ≡ length xs
  stored : (i : ℕ) → i < length xs → length xs ≤ i + 20 → r.slots (i % 20) ≡ get_or xs i []

get_or-snoc :
    (xs : List Bytes) (x : Bytes) (i : ℕ)
    → get_or (xs ++ (x ∷ [])) i [] ≡ (if i == length xs then x else get_or xs i [])
get_or-snoc [] x zero = refl
get_or-snoc [] x (suc i) = ground arith
get_or-snoc (y ∷ xs) x zero = ground arith
get_or-snoc (y ∷ xs) x (suc i) = ground (arith, get_or-snoc xs x i)

keep_about :
    (r : Recent) (xs : List Bytes) (line : Bytes)
    → is_about_module line ≡ true
    → Holds r xs
    → Holds (keep_line r line) (xs ++ (kept line ∷ []))
unfolding keep_line
keep_about r xs line a h = rw a (record {
  counted = omega (arith, h.counted, length-append xs (kept line ∷ []));
  stored = λ i below recent. ground (
    arith,
    h.counted,
    length-append xs (kept line ∷ []),
    get_or-snoc xs (kept line) i,
    h.stored i,
  );
})

keep_other :
    (r : Recent) (xs : List Bytes) (line : Bytes)
    → is_about_module line ≡ false
    → Holds r xs
    → Holds (keep_line r line) xs
unfolding keep_line
keep_other r xs line a h = rw a h

keep_lines-Holds :
    (ls : List Bytes) (r : Recent) (xs : List Bytes)
    → Holds r xs
    → Holds (keep_lines r ls) (xs ++ about_lines ls)
unfolding keep_lines about_lines
keep_lines-Holds [] r xs h = rw (append-nil xs) h
keep_lines-Holds (l ∷ ls) r xs h = elim (Bool-cases (is_about_module l)) [
  | inl a ↦ rw a (
      rw (sym (append_assoc xs (kept l ∷ []) (about_lines ls)))
        (keep_lines-Holds ls (keep_line r l) (xs ++ (kept l ∷ [])) (keep_about r xs l a h)))
  | inr a ↦ rw a (keep_lines-Holds ls (keep_line r l) xs (keep_other r xs l a h))
]

shown_from_lem :
    (slots : ℕ → Bytes) (ys : List Bytes) (s : ℕ)
    → ((i : ℕ) → i < length ys → slots ((s + i) % 20) ≡ get_or ys i [])
    → shown_from slots s (length ys) ≡ ys
unfolding shown_from
shown_from_lem slots [] s h = refl
shown_from_lem slots (y ∷ ys) s h =
    ap₂ ◌∷◌ (ap (λ k. slots (k % 20)) (omega arith) ∙ h 0 (omega arith)) (
      shown_from_lem slots ys (s + 1)
        (λ i below. ap (λ k. slots (k % 20)) (omega arith) ∙ h (suc i) (omega arith)))

get_or-drop : (k : ℕ) (xs : List Bytes) (i : ℕ) → get_or (drop k xs) i [] ≡ get_or xs (k + i) []
get_or-drop zero xs i = ap (λ j. get_or xs j []) (omega arith)
get_or-drop (suc k) [] i = refl
get_or-drop (suc k) (x ∷ xs) i =
    let e : suc (k + i) ≡ suc k + i = omega arith in
    get_or-drop k xs i ∙ ap (λ j. get_or (x ∷ xs) j []) e

length-drop : (k : ℕ) (xs : List Bytes) → length (drop k xs) ≡ length xs - k
length-drop zero xs = omega arith
length-drop (suc k) [] = omega arith
length-drop (suc k) (x ∷ xs) = omega (arith, length-drop k xs)

-- The lines that the array shows, behind any earlier use of it, are the last 20 of all.
shown-Holds : (r : Recent) (xs : List Bytes) → Holds r xs → shown r ≡ drop (length xs - 20) xs
unfolding shown
shown-Holds r xs h = elim (Bool-cases (ltb 20 r.count)) [
  | inl many ↦ rw many (
      ap (shown_from r.slots (r.count % 20)) (omega (tests, h.counted, last_20 many))
      ∙ shown_from_lem r.slots (drop (length xs - 20) xs) (r.count % 20) (λ i below.
        ap r.slots (omega (arith, h.counted, last_20 many))
        ∙ h.stored (length xs - 20 + i) (omega (arith, last_20 many)) (omega arith)
        ∙ sym (get_or-drop (length xs - 20) xs i)))
  | inr few ↦ rw few (
      ap (shown_from r.slots 0) h.counted
      ∙ shown_from_lem r.slots xs 0 (λ i below.
        ap r.slots (omega arith) ∙ h.stored i below (omega (arith, h.counted, at_most_20 few)))
      ∙ ap (λ k. drop k xs) (none_dropped few))
]
  where
    last_20 : ltb 20 r.count ≡ true → (20 < length xs) × (length (drop (length xs - 20) xs) ≡ 20)
    last_20 many = omega (tests, h.counted, length-drop (length xs - 20) xs)

    at_most_20 : ltb 20 r.count ≡ false → r.count ≤ 20
    at_most_20 few = ground arith

    none_dropped : ltb 20 r.count ≡ false → 0 ≡ length xs - 20
    none_dropped few = omega (arith, h.counted, at_most_20 few)

has_prefix-map :
    (s keyword : Bytes) → matches_at s keyword ≡ has_prefix (map to_lower s) (map to_lower keyword)
unfolding matches_at
has_prefix-map s [] = refl
has_prefix-map [] (k ∷ ks) = refl
has_prefix-map (c ∷ cs) (k ∷ ks) = ground (arith, has_prefix-map cs ks)

too_short : (s part : Bytes) → length s < length part → has_prefix s part ≡ false
too_short [] [] h = absurd (omega arith)
too_short [] (p ∷ ps) h = refl
too_short (c ∷ cs) [] h = absurd (omega arith)
too_short (c ∷ cs) (p ∷ ps) h = ground (arith, too_short cs ps (omega arith))

contains_short : (s part : Bytes) → length s < length part → contains s part ≡ false
contains_short [] part h = too_short [] part h
contains_short (c ∷ cs) part h =
    ground (arith, too_short (c ∷ cs) part h, contains_short cs part (omega arith))

length-map : (s : Bytes) → length (map to_lower s) ≡ length s
length-map [] = refl
length-map (c ∷ cs) = ap suc (length-map cs)

matches_from_lem :
    (n : ℕ) (s keyword : Bytes)
    → n + length keyword ≡ length s + 1
    → matches_from n s keyword ≡ contains (map to_lower s) (map to_lower keyword)
unfolding matches_from
matches_from_lem zero s keyword h = sym (
    contains_short (map to_lower s) (map to_lower keyword)
      (omega (arith, length-map s, length-map keyword)))
matches_from_lem (suc n) [] keyword h = has_prefix-map [] keyword
matches_from_lem (suc n) (c ∷ cs) keyword h =
    ground (arith, has_prefix-map (c ∷ cs) keyword, matches_from_lem n cs keyword (omega arith))

pub contains_keyword_lem :
    (s keyword : Bytes)
    → contains_keyword s keyword ≡ contains (map to_lower s) (map to_lower keyword)
unfolding contains_keyword
contains_keyword_lem s keyword = elim (Bool-cases (ltb (length s) (length keyword))) [
  | inl short ↦ rw short (
      sym (
        contains_short (map to_lower s) (map to_lower keyword)
          (omega (tests, length-map s, length-map keyword))))
  | inr long ↦ rw long (matches_from_lem (length s - length keyword + 1) s keyword (ground arith))
]

pub shown_last_20 :
    (slots : ℕ → Bytes) (lines : List Bytes)
    → shown (keep_lines (record { slots = slots; count = 0 }) lines)
      ≡ drop (length (about_lines lines) - 20) (about_lines lines)
shown_last_20 slots lines =
    shown-Holds (keep_lines (record { slots = slots; count = 0 }) lines) (about_lines lines) (
      keep_lines-Holds lines (record { slots = slots; count = 0 }) []
        (record { counted = refl; stored = λ i below recent. elim below [ ] }))
