-- ===== src/Libc/Decimal.antt =====
-- Numbers written in decimal by printf, and read by atoi.
use nhan_linux_process.Prelude.{
  ℕ, zero, suc, ◌+◌, ◌-◌, ◌*◌, ◌/◌, ◌%◌, ◌^◌, ◌<◌, ◌≤◌, ◌≡◌, refl, ap, ◌∙◌, arith, false, [], ◌∷◌,
  ltb, min, Bytes, pos, to_int, to_int_of_lt, length, Bool-cases, inl, inr,
}
use nhan_linux_process.Libc.Strings.{is_empty}
use nhan_linux_process.Libc.Numbers.{
  decimal, decimal_loop, decimal_bytes, Digits, strtol-Digits, atoi,
}

-- What the loop can write with this much fuel.
limit : ℕ → ℕ
limit zero = 10
limit (suc fuel) = 10 * limit fuel

decimal_loop-decimal :
    (fuel n : ℕ) (more : Bytes)
    → n < limit fuel
    → decimal 0 (decimal_loop fuel n more) ≡ decimal n more
unfolding decimal decimal_loop limit
decimal_loop-decimal zero n more h = ap (λ k. decimal k more) (omega arith)
decimal_loop-decimal (suc fuel) n more h = elim (Bool-cases (ltb n 10)) [
  | inl e ↦ rw e (ap (λ k. decimal k more) (omega arith))
  | inr e ↦ rw e (
      decimal_loop-decimal fuel (n / 10) ((b'0' + n % 10) ∷ more) (omega arith)
      ∙ ap (λ k. decimal k more) (omega arith))
]

decimal_loop-Digits : (fuel n : ℕ) (more : Bytes) → Digits more → Digits (decimal_loop fuel n more)
unfolding decimal_loop
decimal_loop-Digits zero n more h = (ground arith, h)
decimal_loop-Digits (suc fuel) n more h = elim (Bool-cases (ltb n 10)) [
  | inl e ↦ rw e (ground arith, h)
  | inr e ↦ rw e (decimal_loop-Digits fuel (n / 10) ((b'0' + n % 10) ∷ more) (ground arith, h))
]

decimal_loop-full : (fuel n : ℕ) (more : Bytes) → is_empty (decimal_loop fuel n more) ≡ false
unfolding decimal_loop
decimal_loop-full zero n more = refl
decimal_loop-full (suc fuel) n more = elim (Bool-cases (ltb n 10)) [
  | inl e ↦ rw e refl
  | inr e ↦ rw e (decimal_loop-full fuel (n / 10) ((b'0' + n % 10) ∷ more))
]

atoi-Digits :
    (s : Bytes)
    → Digits s
    → is_empty s ≡ false
    → atoi s ≡ to_int (pos (min (decimal 0 s) (2 ^ 63 - 1)))
unfolding atoi
atoi-Digits [] h e = absurd (cc e)
atoi-Digits (c ∷ s) h e = ap (λ r. to_int r.0) (strtol-Digits c s h)

-- A number that is an int is read back.
pub atoi-decimal_bytes : (n : ℕ) → n < 2 ^ 31 → atoi (decimal_bytes n) ≡ pos n
unfolding decimal_bytes limit decimal
atoi-decimal_bytes n h =
    let value : decimal 0 (decimal_loop 10 n []) ≡ n = decimal_loop-decimal 10 n [] (omega arith) in
    let small : min n (2 ^ 63 - 1) ≡ n = omega arith in
    atoi-Digits (decimal_loop 10 n []) (decimal_loop-Digits 10 n [] tt) (decimal_loop-full 10 n [])
    ∙ rw (value, small) (to_int_of_lt n h)

pub decimal_bytes-Digits : (n : ℕ) → Digits (decimal_bytes n)
unfolding decimal_bytes
decimal_bytes-Digits n = decimal_loop-Digits 10 n [] tt

pub decimal_bytes-full : (n : ℕ) → is_empty (decimal_bytes n) ≡ false
unfolding decimal_bytes
decimal_bytes-full n = decimal_loop-full 10 n []

length-decimal_loop :
    (fuel n : ℕ) (more : Bytes) → length (decimal_loop fuel n more) ≤ suc fuel + length more
unfolding decimal_loop
length-decimal_loop zero n more = omega arith
length-decimal_loop (suc fuel) n more = elim (Bool-cases (ltb n 10)) [
  | inl e ↦ rw e (omega arith)
  | inr e ↦ rw e (omega (arith, length-decimal_loop fuel (n / 10) ((b'0' + n % 10) ∷ more)))
]

pub length-decimal_bytes : (n : ℕ) → length (decimal_bytes n) ≤ 11
unfolding decimal_bytes
length-decimal_bytes n = omega (arith, length-decimal_loop 10 n [])
