-- ===== src/Libc/Numbers.antt =====
-- strtol in base 10, and atoi.
use nhan_linux_process.Prelude.{
  Option, none, some, ◌%◌, ℕ, zero, suc, ◌+◌, ◌-◌, ◌*◌, ◌^◌, Bool, true, false, ◌&&◌, ◌||◌, [], ◌∷◌,
  min, leb, ltb, ◌/◌, ◌==◌, if◌then◌else◌, Bytes, All, ℤ, pos, negsuc, to_int, ◌≡◌, refl, arith,
}
use nhan_linux_process.Libc.Strings.{is_empty, is_space}

abbrev pub is_digit : ℕ → Bool
is_digit c = leb b'0' c && leb c b'9'

unfoldable pub skip_spaces : Bytes → Bytes
skip_spaces [] = []
skip_spaces (c ∷ cs) = let rest = skip_spaces cs in if is_space c then rest else c ∷ cs

-- The digits in front, and what follows them.
pub digits_of : Bytes → Bytes
digits_of [] = []
digits_of (c ∷ cs) = let rest = digits_of cs in if is_digit c then c ∷ rest else []

pub after_digits : Bytes → Bytes
after_digits [] = []
after_digits (c ∷ cs) = let rest = after_digits cs in if is_digit c then rest else c ∷ cs

unfoldable pub decimal : ℕ → Bytes → ℕ
decimal acc [] = acc
decimal acc (c ∷ cs) = decimal (acc * 10 + (c - b'0')) cs

-- A value out of the range of a 64-bit long becomes LONG_MAX or LONG_MIN.
abbrev pub signed_long : Bool → ℕ → ℤ
signed_long false n = pos (min n (2 ^ 63 - 1))
signed_long true zero = pos 0
signed_long true (suc n) = negsuc (min n (2 ^ 63 - 1))

abbrev sign_of : Bytes → Bool
sign_of [] = false
sign_of (c ∷ cs) = c == b'-'

abbrev after_sign : Bytes → Bytes
after_sign [] = []
after_sign (c ∷ cs) = if c == b'-' || c == b'+' then cs else c ∷ cs

-- The value, and the text at endptr: all of it where there is no number.
unfoldable pub strtol : Bytes → ℤ × Bytes
unfolding skip_spaces digits_of after_digits decimal
strtol s =
    let t = skip_spaces s in
    let u = after_sign t in
    if is_empty (digits_of u)
    then (pos 0, s)
    else (signed_long (sign_of t) (decimal 0 (digits_of u)), after_digits u)

-- A conversion %ld of sscanf: the value and the rest, `none` where there is no number.
unfoldable pub scan_long : Bytes → Option (ℤ × Bytes)
unfolding skip_spaces digits_of after_digits decimal
scan_long s =
    let t = skip_spaces s in
    let u = after_sign t in
    if is_empty (digits_of u)
    then none
    else some (signed_long (sign_of t) (decimal 0 (digits_of u)), after_digits u)

-- A conversion %lu: a value out of range becomes ULONG_MAX, and a minus sign negates modulo 2 ^ 64.
unfoldable pub scan_ulong : Bytes → Option ℕ
unfolding skip_spaces digits_of decimal
scan_ulong s =
    let t = skip_spaces s in
    let ds = digits_of (after_sign t) in
    let n = min (decimal 0 ds) (2 ^ 64 - 1) in
    if is_empty ds then none else some (if sign_of t then (2 ^ 64 - n) % 2 ^ 64 else n)

unfoldable pub atoi : Bytes → ℤ
unfolding strtol
atoi s = to_int (strtol s).0

-- A number in decimal, by its digits from the last on; a number of `n` digits takes `n` rounds.
unfoldable pub decimal_loop : ℕ → ℕ → Bytes → Bytes
decimal_loop zero n more = (b'0' + n % 10) ∷ more
decimal_loop (suc fuel) n more =
    let rest = decimal_loop fuel (n / 10) ((b'0' + n % 10) ∷ more) in
    if ltb n 10 then (b'0' + n) ∷ more else rest

-- An int has at most 10 digits.
unfoldable pub decimal_bytes : ℕ → Bytes
unfolding decimal_loop
decimal_bytes n = decimal_loop 10 n []

-- Text that is all digits, and what strtol makes of it.
abbrev pub Digits : Bytes → Type 0
Digits = All (λ c. is_digit c ≡ true)

digits_of-Digits : (ds : Bytes) → Digits ds → digits_of ds ≡ ds
unfolding digits_of
digits_of-Digits [] h = refl
digits_of-Digits (c ∷ ds) h = ground (arith, digits_of-Digits ds h.1)

after_digits-Digits : (ds : Bytes) → Digits ds → after_digits ds ≡ []
unfolding after_digits
after_digits-Digits [] h = refl
after_digits-Digits (c ∷ ds) h = ground (arith, after_digits-Digits ds h.1)

skip_spaces-digit : (c : ℕ) (cs : Bytes) → is_digit c ≡ true → skip_spaces (c ∷ cs) ≡ c ∷ cs
unfolding skip_spaces
skip_spaces-digit c cs h = ground arith

after_sign-digit : (c : ℕ) (cs : Bytes) → is_digit c ≡ true → after_sign (c ∷ cs) ≡ c ∷ cs
after_sign-digit c cs h = ground arith

sign_of-digit : (c : ℕ) (cs : Bytes) → is_digit c ≡ true → sign_of (c ∷ cs) ≡ false
sign_of-digit c cs h = ground arith

pub strtol-Digits :
    (c : ℕ) (ds : Bytes)
    → Digits (c ∷ ds)
    → strtol (c ∷ ds) ≡ (pos (min (decimal 0 (c ∷ ds)) (2 ^ 63 - 1)), [])
unfolding strtol
strtol-Digits c ds h =
    rw (skip_spaces-digit c ds h.0, after_sign-digit c ds h.0)
      (rw (digits_of-Digits (c ∷ ds) h, after_digits-Digits (c ∷ ds) h, sign_of-digit c ds h.0)
        refl)
