-- ===== src/Base/Int.antt =====
-- Signed integers, and the conversions of C++ between 32-bit `int`, `std::size_t` and `int64_t`.
use Prim.Native.Nat.{ℕ, ◌-◌, ◌%◌, ◌^◌}
use mathlib.Core.Bool.{Bool, true, false}
use pocker_backend.Base.Tests.{ltb, leb, if◌then◌else◌}

-- `negsuc n` is -(n + 1).
pub data ℤ : Type 0 where
  pos : ℕ → ℤ
  negsuc : ℕ → ℤ

-- The signed value of a bit pattern of `w` bits.
abbrev pub signed : ℕ → ℕ → ℤ
signed w n = if ltb n (2 ^ (w - 1)) then pos n else negsuc (2 ^ w - 1 - n)

-- `static_cast<int>` of a `std::size_t`
abbrev pub int_of_size : ℕ → ℤ
int_of_size n = signed 32 (n % 2 ^ 32)

-- `static_cast<int64_t>` of a `std::size_t`
abbrev pub int64_of_size : ℕ → ℤ
int64_of_size n = signed 64 (n % 2 ^ 64)

-- A signed number converted to `std::size_t`, modulo 2^64.
abbrev pub size_of_int : ℤ → ℕ
size_of_int (pos n) = n % 2 ^ 64
size_of_int (negsuc n) = 2 ^ 64 - 1 - n % 2 ^ 64

-- `<=` of two signed numbers
abbrev pub le_int : ℤ → ℤ → Bool
le_int (pos a) (pos b) = leb a b
le_int (pos a) (negsuc b) = false
le_int (negsuc a) (pos b) = true
le_int (negsuc a) (negsuc b) = leb b a
