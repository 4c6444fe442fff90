-- ===== src/Libc/Scan.antt =====
-- The conversions %s and %x of sscanf, and inet_ntop for IPv4 on a little-endian machine.
use nhan_linux_process.Prelude.{
  ℕ, zero, suc, ◌+◌, ◌-◌, ◌*◌, ◌/◌, ◌%◌, ◌^◌, ◌<◌, min, Bool, true, false, ◌&&◌, ◌||◌, Option, none,
  some, [], ◌∷◌, ◌++◌, leb, ltb, ◌==◌, if◌then◌else◌, Bytes, ◌≡◌, ap, arith,
}
use nhan_linux_process.Libc.Strings.{is_empty, is_space}
use nhan_linux_process.Libc.Numbers.{skip_spaces}

-- At most `n` bytes that are no white space, and what follows them.
unfoldable pub word_of : ℕ → Bytes → Bytes × Bytes
word_of zero s = ([], s)
word_of (suc n) [] = ([], [])
word_of (suc n) (c ∷ cs) =
    let (word, rest) = word_of n cs in if is_space c then ([], c ∷ cs) else (c ∷ word, rest)

-- %ns, `none` at the end of the input
unfoldable pub scan_word : ℕ → Bytes → Option (Bytes × Bytes)
unfolding skip_spaces word_of
scan_word n s = let r = word_of n (skip_spaces s) in if is_empty r.0 then none else some r

-- The value of a hexadecimal digit, 16 for any other byte
abbrev pub hex_value : ℕ → ℕ
hex_value c =
    if leb b'0' c && leb c b'9'
    then c - b'0'
    else if leb b'a' c && leb c b'f'
    then c - b'a' + 10
    else if leb b'A' c && leb c b'F'
    then c - b'A' + 10
    else 16

abbrev pub is_hex : ℕ → Bool
is_hex c = ltb (hex_value c) 16

-- The number in front, by the digits read so far, and what follows it.
unfoldable pub hex_run : ℕ → Bytes → ℕ × Bytes
hex_run acc [] = (acc, [])
hex_run acc (c ∷ cs) =
    let more = hex_run (acc * 16 + hex_value c) cs in if is_hex c then more else (acc, c ∷ cs)

abbrev starts_hex : Bytes → Bool
starts_hex [] = false
starts_hex (c ∷ cs) = is_hex c

abbrev after_prefix : Bytes → Bytes
after_prefix (z ∷ x ∷ cs) = if z == b'0' && (x == b'x' || x == b'X') then cs else z ∷ x ∷ cs
after_prefix s = s

abbrev minus_in : Bytes → Bool
minus_in [] = false
minus_in (c ∷ cs) = c == b'-'

abbrev behind_sign : Bytes → Bytes
behind_sign [] = []
behind_sign (c ∷ cs) = if c == b'-' || c == b'+' then cs else c ∷ cs

-- %lx: a value out of range becomes ULONG_MAX, and a minus sign negates modulo 2 ^ 64.
unfoldable pub scan_hex : Bytes → Option (ℕ × Bytes)
scan_hex s =
    let t = skip_spaces s in
    let u = after_prefix (behind_sign t) in
    let r = hex_run 0 u in
    let n = min r.0 (2 ^ 64 - 1) in
    if starts_hex u then some (if minus_in t then (2 ^ 64 - n) % 2 ^ 64 else n, r.1) else none

skip_spaces-hex : (c : ℕ) (cs : Bytes) → is_hex c ≡ true → skip_spaces (c ∷ cs) ≡ c ∷ cs
unfolding skip_spaces
skip_spaces-hex c cs h = ground arith

behind_sign-hex : (c : ℕ) (cs : Bytes) → is_hex c ≡ true → behind_sign (c ∷ cs) ≡ c ∷ cs
behind_sign-hex c cs h = ground arith

after_prefix-hex : (c e : ℕ) (cs : Bytes) → is_hex e ≡ true → after_prefix (c ∷ e ∷ cs) ≡ c ∷ e ∷ cs
after_prefix-hex c e cs h = ground arith

minus_in-hex : (c : ℕ) (cs : Bytes) → is_hex c ≡ true → minus_in (c ∷ cs) ≡ false
minus_in-hex c cs h = ground arith

-- Two digits at the front are no sign and no prefix.
pub scan_hex-digits :
    (c e : ℕ) (cs rest : Bytes) (n : ℕ)
    → is_hex c ≡ true
    → is_hex e ≡ true
    → n < 2 ^ 32
    → hex_run 0 (c ∷ e ∷ cs) ≡ (n, rest)
    → scan_hex (c ∷ e ∷ cs) ≡ some (n, rest)
unfolding scan_hex
scan_hex-digits c e cs rest n hc he hn r =
    rw
      (
        skip_spaces-hex c (e ∷ cs) hc,
        behind_sign-hex c (e ∷ cs) hc,
        after_prefix-hex c e cs he,
        minus_in-hex c (e ∷ cs) hc,
        hc,
        r,
      )
      (ap (λ m. some (m, rest)) (omega arith))

-- A number below 1000 in decimal
abbrev pub decimal_text : ℕ → Bytes
decimal_text n =
    if ltb n 10
    then (b'0' + n) ∷ []
    else if ltb n 100
    then (b'0' + n / 10) ∷ (b'0' + n % 10) ∷ []
    else (b'0' + n / 100) ∷ (b'0' + n / 10 % 10) ∷ (b'0' + n % 10) ∷ []

abbrev pub dotted : ℕ → ℕ → ℕ → ℕ → Bytes
dotted a b c d =
    decimal_text a
    ++ (b'.' ∷ (decimal_text b ++ (b'.' ∷ (decimal_text c ++ (b'.' ∷ decimal_text d)))))

-- inet_ntop(AF_INET, &addr, ...) where addr.s_addr is `n`: its bytes lie in memory from the lowest on.
unfoldable pub inet_text : ℕ → Bytes
inet_text n = dotted (n % 256) (n / 256 % 256) (n / 65536 % 256) (n / 16777216 % 256)
