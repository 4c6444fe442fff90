-- ===== src/Libc/Strings.antt =====
-- <string.h> and <ctype.h> in the C locale.
use nhan_linux_process.Prelude.{
  ℕ, zero, suc, ◌+◌, ◌≤◌, All, ◌≢◌, ◌≡◌, refl, Bool, true, false, ◌&&◌, ◌||◌, Option, none, some,
  List, [], ◌∷◌, ◌++◌, leb, ◌==◌, if◌then◌else◌, length, take, Bytes, arith, length-take,
}

abbrev pub is_empty : Bytes → Bool
is_empty [] = true
is_empty (c ∷ cs) = false

-- isspace in the C locale
abbrev pub is_space : ℕ → Bool
is_space c = c == b' ' || (leb 9 c && leb c 13)

-- strncpy(dest, s, size - 1) and a NUL at the end of `dest`, for `size` of at least 1
abbrev pub copy_to : ℕ → Bytes → Bytes
copy_to zero s = []
copy_to (suc n) s = take n s

-- s[strcspn(s, "\n")] = '\0', on a buffer that may hold a NUL
unfoldable pub chomp : Bytes → Bytes
chomp [] = []
chomp (c ∷ cs) = let rest = chomp cs in if c == 0 || c == b'\n' then [] else c ∷ rest

-- A buffer read as a text: its bytes before the first NUL
unfoldable pub until_nul : Bytes → Bytes
until_nul [] = []
until_nul (c ∷ cs) = let rest = until_nul cs in if c == 0 then [] else c ∷ rest

abbrev pub to_lower : ℕ → ℕ
to_lower c = if leb b'A' c && leb c b'Z' then c + 32 else c

-- strncmp(s, prefix, strlen(prefix)) == 0
abbrev pub has_prefix : Bytes → Bytes → Bool
has_prefix s [] = true
has_prefix [] (p ∷ ps) = false
has_prefix (c ∷ cs) (p ∷ ps) = c == p && has_prefix cs ps

-- strstr(s, part) != NULL
abbrev pub contains : Bytes → Bytes → Bool
contains [] part = has_prefix [] part
contains (c ∷ cs) part = has_prefix (c ∷ cs) part || contains cs part

-- strchr and strrchr: the index of the first and of the last `c`
unfoldable pub index_of : ℕ → Bytes → Option ℕ
index_of c [] = none
index_of c (x ∷ xs) =
    let rest = index_of c xs in
    if x == c then some 0 else elim rest [ none ↦ none | some n ↦ some (suc n) ]

unfoldable pub last_index_of : ℕ → Bytes → Option ℕ
last_index_of c [] = none
last_index_of c (x ∷ xs) = elim (last_index_of c xs) [
  | none ↦ (if x == c then some 0 else none)
  | some n ↦ some (suc n)
]

-- strstr: the text from the first place of `part` on
unfoldable pub find_part : Bytes → Bytes → Option Bytes
find_part [] part = if has_prefix [] part then some [] else none
find_part (c ∷ cs) part =
    let rest = find_part cs part in if has_prefix (c ∷ cs) part then some (c ∷ cs) else rest

-- The first bytes of `s` up to a space, and what strtok(s, " ") goes on with.
abbrev pub first_word : Bytes → Bytes
first_word [] = []
first_word (c ∷ cs) = if c == b' ' then [] else c ∷ first_word cs

-- strtok(s, " ") called until it returns NULL: the runs of bytes that are no space, where `word`
-- holds what is read of the current run.
unfoldable pub split_spaces : Bytes → Bytes → List Bytes
split_spaces word [] = if is_empty word then [] else word ∷ []
split_spaces word (c ∷ cs) =
    let rest = split_spaces (if c == b' ' then [] else word ++ (c ∷ [])) cs in
    if c == b' ' && (if is_empty word then false else true) then word ∷ rest else rest

-- The loop over strtok that fills an array of `n` words.
unfoldable pub strtok_words : ℕ → Bytes → List Bytes
unfolding split_spaces
strtok_words n s = take n (split_spaces [] s)

pub length-copy_to : (n : ℕ) (s : Bytes) → length (copy_to (suc n) s) ≤ n
length-copy_to n s = omega (arith, length-take n s)

-- The first `c` stands behind a text that has none, and the last one in front of such a text.
pub index_of-append :
    (c : ℕ) (s t : Bytes) → All (λ x. x ≢ c) s → index_of c (s ++ (c ∷ t)) ≡ some (length s)
unfolding index_of
index_of-append c [] t h = ground arith
index_of-append c (x ∷ s) t h = ground (arith, index_of-append c s t h.1)

last_index_of-none : (c : ℕ) (t : Bytes) → All (λ x. x ≢ c) t → last_index_of c t ≡ none
unfolding last_index_of
last_index_of-none c [] h = refl
last_index_of-none c (x ∷ t) h = ground (arith, last_index_of-none c t h.1)

pub last_index_of-append :
    (c : ℕ) (s t : Bytes) → All (λ x. x ≢ c) t → last_index_of c (s ++ (c ∷ t)) ≡ some (length s)
unfolding last_index_of
last_index_of-append c [] t h = ground (arith, last_index_of-none c t h)
last_index_of-append c (x ∷ s) t h = ground (arith, last_index_of-append c s t h)
