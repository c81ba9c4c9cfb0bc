-- ===== src/Message/Cstdlib/Decimal.antt =====
-- `atoi` reads back what `sprintf` prints.
use native.Mathlib.Nat.{pow-suc}
use pocker_backend.Base.{
  ℕ, zero, suc, ◌+◌, ◌-◌, ◌*◌, ◌/◌, ◌%◌, ◌^◌, ◌≤◌, ◌<◌, ◌≡◌, refl, ap, ◌∙◌, inl, inr, [], ◌∷◌, ◌++◌,
  length, replicate, ltb, Bool-cases, arith, length-append, length-replicate, append_assoc,
  append-nil, ltb→lt,
}
use pocker_backend.Base.Bytes.{Bytes, IsNulFree}
use pocker_backend.Base.Int.{pos}
use pocker_backend.Base.Results.{ok}
use pocker_backend.Message.Cstdlib.{
  skip_spaces, scan, after_sign, atoi, digits, print_int, pad_left, sprintf,
}

-- The text begins with a digit.
abbrev Leads : Bytes → Type 0
Leads [] = ⊥
Leads (c ∷ s) = (b'0' ≤ c) × (c ≤ b'9')

digits_step : (f n : ℕ) → 10 ≤ n → digits (suc f) n ≡ digits f (n / 10) ++ ((b'0' + n % 10) ∷ [])
unfolding digits
digits_step f n h = ground arith

digits_one : (f n : ℕ) → n < 10 → digits (suc f) n ≡ (b'0' + n) ∷ []
unfolding digits
digits_one f n h = ground arith

digits_step_append :
    (f n : ℕ) (rest : Bytes)
    → 10 ≤ n
    → digits (suc f) n ++ rest ≡ digits f (n / 10) ++ ((b'0' + n % 10) ∷ rest)
digits_step_append f n rest h = rw (digits_step f n h) (append_assoc (digits f (n / 10)) _ rest)

digits-Leads : (f n : ℕ) (rest : Bytes) → n < 10 ^ suc f → Leads (digits (suc f) n ++ rest)
digits-Leads zero n rest h = rw (digits_one zero n (omega arith)) (omega arith, omega arith)
digits-Leads (suc f) n rest h = elim (Bool-cases (ltb n 10)) [
  | inl small ↦ rw (digits_one (suc f) n (ltb→lt _ _ small)) (ground arith, ground arith)
  | inr large ↦
      rw (digits_step_append (suc f) n rest (ground arith))
        (digits-Leads f (n / 10) _ (omega (arith, pow-suc 10 (suc f))))
]

scan_digit :
    (acc n : ℕ) (rest : Bytes) → n < 10 → scan acc ((b'0' + n) ∷ rest) ≡ scan (acc * 10 + n) rest
unfolding scan
scan_digit acc n rest h = ground arith

scan-digits :
    (f n : ℕ) (rest : Bytes) → n < 10 ^ suc f → scan 0 (digits (suc f) n ++ rest) ≡ scan n rest
scan-digits zero n rest h =
    rw (digits_one zero n (omega arith))
      (scan_digit 0 n rest (omega arith) ∙ ap (λ k. scan k rest) (omega arith))
scan-digits (suc f) n rest h = elim (Bool-cases (ltb n 10)) [
  | inl small ↦
      rw (digits_one (suc f) n (ltb→lt _ _ small))
        (scan_digit 0 n rest (ground arith) ∙ ap (λ k. scan k rest) (omega arith))
  | inr large ↦ rw (digits_step_append (suc f) n rest (ground arith)) (
      scan-digits f (n / 10) _ (omega (arith, pow-suc 10 (suc f)))
      ∙ scan_digit (n / 10) (n % 10) rest (omega arith)
      ∙ ap (λ k. scan k rest) (omega arith))
]

length-digits : (f k n : ℕ) → n < 10 ^ suc k → length (digits f n) ≤ suc k
unfolding digits
length-digits zero k n h = omega arith
length-digits (suc f) zero n h = rw (digits_one f n (omega arith)) (omega arith)
length-digits (suc f) (suc k) n h = elim (Bool-cases (ltb n 10)) [
  | inl small ↦ rw (digits_one f n (ltb→lt _ _ small)) (omega arith)
  | inr large ↦ rw (digits_step f n (ground arith)) (
      omega (
        arith,
        length-append (digits f (n / 10)) ((b'0' + n % 10) ∷ []),
        length-digits f k (n / 10) (omega (arith, pow-suc 10 (suc k))),
      ))
]

IsNulFree-append : (xs ys : Bytes) → IsNulFree xs → IsNulFree ys → IsNulFree (xs ++ ys)
IsNulFree-append [] ys hx hy = hy
IsNulFree-append (x ∷ xs) ys hx hy = (hx.0, IsNulFree-append xs ys hx.1 hy)

digits-IsNulFree : (f n : ℕ) → IsNulFree (digits f n)
unfolding digits
digits-IsNulFree zero n = tt
digits-IsNulFree (suc f) n = elim (Bool-cases (ltb n 10)) [
  | inl small ↦ rw small (omega arith, tt)
  | inr large ↦
      rw large
        (IsNulFree-append (digits f (n / 10)) _ (digits-IsNulFree f (n / 10)) (omega arith, tt))
]

blanks-IsNulFree : (k : ℕ) → IsNulFree (replicate k 32)
blanks-IsNulFree zero = tt
blanks-IsNulFree (suc k) = (omega arith, blanks-IsNulFree k)

skip_spaces-blanks : (k : ℕ) (s : Bytes) → skip_spaces (replicate k 32 ++ s) ≡ skip_spaces s
unfolding skip_spaces
skip_spaces-blanks zero s = refl
skip_spaces-blanks (suc k) s = skip_spaces-blanks k s

after_sign-Leads : (s : Bytes) → Leads s → after_sign (skip_spaces s) ≡ pos (scan 0 s)
unfolding skip_spaces after_sign
after_sign-Leads [] h = absurd h
after_sign-Leads (c ∷ s) h = ground arith

atoi-pad_left : (w n : ℕ) → n < 10 ^ 10 → atoi (pad_left w (digits 10 n)) ≡ pos n
unfolding atoi pad_left
atoi-pad_left w n h =
    rw (skip_spaces-blanks (w - length (digits 10 n)) (digits 10 n))
      (after_sign-Leads _ (lead) ∙ (ap pos value))
  where
    lead : Leads (digits 10 n)
    lead = rw (← append-nil (digits 10 n)) (digits-Leads 9 n [] h)

    value : scan 0 (digits 10 n) ≡ n
    value = rw (← append-nil (digits 10 n)) (scan-digits 9 n [] h)

length-pad_left : (w : ℕ) (s : Bytes) → length s ≤ w → length (pad_left w s) ≡ w
unfolding pad_left
length-pad_left w s h = omega (
  arith,
  length-append (replicate (w - length s) 32) s,
  length-replicate {A = ℕ} (w - length s) 32,
)

pad_left-IsNulFree : (w : ℕ) (s : Bytes) → IsNulFree s → IsNulFree (pad_left w s)
unfolding pad_left
pad_left-IsNulFree w s h = IsNulFree-append _ s (blanks-IsNulFree (w - length s)) h

sprintf_fits : (n : ℕ) → n < 10 ^ 4 → sprintf 4 (pos n) ≡ ok (pad_left 4 (digits 10 n))
unfolding sprintf print_int
sprintf_fits n h = rw (length-pad_left 4 (digits 10 n) (length-digits 10 3 n h))

-- The header printed for a number of at most four digits has four characters, none of them NUL,
-- and `atoi` reads the number back.
pub sprintf-atoi :
    (n : ℕ)
    → n < 10 ^ 4
    → (header : Bytes) × (sprintf 4 (pos n) ≡ ok header)
      × (length header ≡ 4)
      × IsNulFree header
      × (atoi header ≡ pos n)
sprintf-atoi n h = (
  pad_left 4 (digits 10 n),
  sprintf_fits n h,
  length-pad_left 4 (digits 10 n) (length-digits 10 3 n h),
  pad_left-IsNulFree 4 (digits 10 n) (digits-IsNulFree 10 n),
  atoi-pad_left 4 n (omega arith),
)
