-- ===== src/Prelude/Int.antt =====
-- The C types int and long: integers over the native numbers, and the conversion to int.
use Prim.Native.Nat.{ℕ, ◌-◌, ◌%◌, ◌^◌, ◌<◌}
use mathlib.Core.Path.{◌≡◌}
use mathlib.Core.Bool.{Bool, true, false}
use native.Mathlib.Omega.{arith}
use nhan_linux_process.Prelude.Tests.{ltb, leb, ◌==◌, if◌then◌else◌}

-- `negsuc n` is -(n + 1).
pub data ℤ : Type 0 where
  pos : ℕ → ℤ
  negsuc : ℕ → ℤ

abbrev pub minus_one : ℤ
minus_one = negsuc 0

-- The int with the bit pattern `n`, for `n < 2 ^ 32`.
abbrev pub of_bits : ℕ → ℤ
of_bits n = if ltb n (2 ^ 31) then pos n else negsuc (2 ^ 32 - 1 - n)

-- `(int)v` for a long `v` keeps the low 32 bits.
abbrev pub to_int : ℤ → ℤ
to_int (pos n) = of_bits (n % 2 ^ 32)
to_int (negsuc n) = of_bits (2 ^ 32 - 1 - n % 2 ^ 32)

abbrev pub is_neg : ℤ → Bool
is_neg (pos n) = false
is_neg (negsuc n) = true

-- `v <= n` and `n <= v` for a constant `n` of at least 0.
abbrev pub at_most : ℕ → ℤ → Bool
at_most n (pos v) = leb v n
at_most n (negsuc v) = true

abbrev pub at_least : ℕ → ℤ → Bool
at_least n (pos v) = leb n v
at_least n (negsuc v) = false

abbrev pub int_eq : ℤ → ℤ → Bool
int_eq (pos a) (pos b) = a == b
int_eq (pos a) (negsuc b) = false
int_eq (negsuc a) (pos b) = false
int_eq (negsuc a) (negsuc b) = a == b

-- The conversion to int leaves a value of that type as it is.
pub to_int_of_lt : (n : ℕ) → n < 2 ^ 31 → to_int (pos n) ≡ pos n
to_int_of_lt n h = ground arith
