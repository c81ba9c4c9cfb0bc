-- ===== src/Message/Cstdlib.antt =====
-- What message.hpp uses of the C library: `atoi`, `sprintf` with the format "%4d", `memcpy`.
pub mod Decimal
use pocker_backend.Base.{
  ℕ, zero, suc, ◌+◌, ◌-◌, ◌*◌, ◌/◌, ◌%◌, [], ◌∷◌, ◌++◌, Bool, true, false, ◌&&◌, ◌||◌, length, take,
  drop, replicate, ltb, leb, ◌==◌, if◌then◌else◌,
}
use pocker_backend.Base.Bytes.{Bytes}
use pocker_backend.Base.Int.{ℤ, pos, negsuc}
use pocker_backend.Base.Results.{Result, ok, err, undefined}

abbrev pub is_space : ℕ → Bool
is_space c = c == 32 || (leb 9 c && leb c 13)

abbrev pub is_digit : ℕ → Bool
is_digit c = leb b'0' c && leb c b'9'

pub skip_spaces : Bytes → Bytes
skip_spaces [] = []
skip_spaces (c ∷ s) = let rest = skip_spaces s in if is_space c then rest else c ∷ s

-- The digits read so far stand for `n`; the first other byte ends the number.
pub scan : ℕ → Bytes → ℕ
scan n [] = n
scan n (c ∷ s) = let rest = scan (n * 10 + (c - b'0')) s in if is_digit c then rest else n

pub negated : ℕ → ℤ
negated zero = pos 0
negated (suc n) = negsuc n

pub after_sign : Bytes → ℤ
unfolding scan negated
after_sign [] = pos 0
after_sign (c ∷ s) =
    if c == b'-'
    then negated (scan 0 s)
    else if c == b'+'
    then pos (scan 0 s)
    else pos (scan 0 (c ∷ s))

unfoldable pub atoi : Bytes → ℤ
unfolding skip_spaces after_sign
atoi s = after_sign (skip_spaces s)

-- Decimal digits; ten rounds are enough for an `int`.
pub digits : ℕ → ℕ → Bytes
digits zero n = []
digits (suc f) n =
    let rest = digits f (n / 10) in
    if ltb n 10 then (b'0' + n) ∷ [] else rest ++ (b'0' + n % 10) ∷ []

pub print_int : ℤ → Bytes
print_int (pos n) = digits 10 n
print_int (negsuc n) = b'-' ∷ digits 10 (suc n)

pub pad_left : ℕ → Bytes → Bytes
pad_left w s = replicate (w - length s) 32 ++ s

-- `sprintf(header, "%4d", n)` into a buffer for `room` characters and the NUL.
unfoldable pub sprintf : ℕ → ℤ → Result Bytes
unfolding print_int pad_left
sprintf room n =
    let s = pad_left 4 (print_int n) in if ltb room (length s) then err undefined else ok s

-- `memcpy(buffer + offset, src, size)` with `src` of that size.
unfoldable pub memcpy : Bytes → ℕ → Bytes → Result Bytes
memcpy buffer offset src =
    if ltb (length buffer) (offset + length src)
    then err undefined
    else ok (take offset buffer ++ (src ++ drop (offset + length src) buffer))
