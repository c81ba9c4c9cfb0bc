-- ===== src/Base/Bytes.antt =====
-- `std::string` as a list of byte values, the native text literals as such lists, and the C string
-- that `c_str()` hands to a C function.
use Prim.Native.Char.{code}
use Prim.Native.String.{String}
use Prim.Native.Nat.{ℕ}
use mathlib.Core.Path.{◌≡◌, refl}
use mathlib.Core.Logic.{◌↔◌, ◌≢◌}
use mathlib.Core.Bool.{Bool, true, false, ◌&&◌}
use mathlib.Core.List.{List, [], ◌∷◌}
use native.Mathlib.Omega.{arith}
use pocker_backend.Base.Tests.{◌==◌, if◌then◌else◌}

abbrev pub Bytes : Type 0
Bytes = List ℕ

-- The bytes of an ASCII literal.
abbrev pub codes : String → Bytes
codes String.[] = []
codes (String.◌∷◌ c s) = code c ∷ codes s

-- `operator==` of two strings.
unfoldable pub beq : Bytes → Bytes → Bool
beq [] [] = true
beq [] (y ∷ ys) = false
beq (x ∷ xs) [] = false
beq (x ∷ xs) (y ∷ ys) = (x == y) && beq xs ys

pub beq_sound : (xs ys : Bytes) → beq xs ys ≡ true → xs ≡ ys
unfolding beq
beq_sound [] [] h = refl
beq_sound [] (y ∷ ys) h = cc
beq_sound (x ∷ xs) [] h = cc
beq_sound (x ∷ xs) (y ∷ ys) h = ground (arith, beq_sound xs ys)

pub beq_refl : (xs : Bytes) → beq xs xs ≡ true
unfolding beq
beq_refl [] = refl
beq_refl (x ∷ xs) = ground (arith, beq_refl xs)

pub beq_iff : (xs ys : Bytes) → (beq xs ys ≡ true) ↔ (xs ≡ ys)
beq_iff xs ys = (beq_sound xs ys, λ e. ground (arith, beq_refl xs))

pub beq_ne : (xs ys : Bytes) → xs ≢ ys → beq xs ys ≡ false
beq_ne xs ys h = ground (arith, beq_sound xs ys)

-- What a C function reads of a string: the bytes before the first NUL.
unfoldable pub c_str : Bytes → Bytes
c_str [] = []
c_str (x ∷ xs) = let rest = c_str xs in if x == 0 then [] else x ∷ rest

-- No byte of the string is NUL.
abbrev pub IsNulFree : Bytes → Type 0
IsNulFree [] = Unit
IsNulFree (x ∷ xs) = (x ≢ 0) × IsNulFree xs

pub c_str_id : (s : Bytes) → IsNulFree s → c_str s ≡ s
unfolding c_str
c_str_id [] h = refl
c_str_id (x ∷ xs) h = ground (arith, c_str_id xs h.1)
