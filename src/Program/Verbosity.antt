-- ===== src/Program/Verbosity.antt =====
-- Which values of `--verbose` are accepted.
use pocker_backend.Base.{
  ℕ, ◌≤◌, ◌<◌, ◌^◌, ◌%◌, ◌≡◌, ◌↔◌, ◌⊎◌, inl, inr, if◌then◌else◌, arith, leb, ltb, Bool-cases,
}
use pocker_backend.Base.Bytes.{codes}
use pocker_backend.Base.Int.{ℤ, pos, le_int, int_of_size, signed}
use pocker_backend.Base.Results.{Result, ok, err, Error, runtime_error}
use pocker_backend.Logger.{Spdlog, level_nums}
use pocker_backend.Program.{verbosity}

-- The test of `verb` against `max`, on the bits of the `int`.
verb_small :
    (n : ℕ) (e : Error)
    → n ≤ 6
    → (if le_int (pos 7) (signed 32 n) then err e else ok (signed 32 n)) ≡ ok (signed 32 n)
verb_small n e h = ground arith

verb_negative :
    (n : ℕ) (e : Error)
    → 2 ^ 31 ≤ n
    → (if le_int (pos 7) (signed 32 n) then err e else ok (signed 32 n)) ≡ ok (signed 32 n)
verb_negative n e h = ground arith

verb_refused :
    (n : ℕ) (e : Error)
    → 6 < n
    → n < 2 ^ 31
    → (if le_int (pos 7) (signed 32 n) then err e else ok (signed 32 n)) ≡ err e
verb_refused n e h k = ground arith

module _ (S : Spdlog) where
  refused : {r : Result ℤ} {l : ℤ} {e : Error} → r ≡ ok l → r ≡ err e → ⊥
  refused p q = cc (p, q)

  -- A level above 6 is refused, and the number of levels is in the message.
  verbosity_refuses :
      (v : ℕ)
      → S.off ≡ 6
      → 6 < v % 2 ^ 32
      → v % 2 ^ 32 < 2 ^ 31
      → verbosity S v
        ≡ err (runtime_error (S.format_int (codes "max alloved verbocity level:{}") (level_nums S)))
  unfolding verbosity
  verbosity_refuses v six large positive = rw six (verb_refused (v % 2 ^ 32) _ large positive)

  -- Where spdlog numbers `off` as 6, a level is accepted if it is at most 6, taken as the `int` that it
  -- is cast to: so also if that `int` is negative.
  pub verbosity-accepts :
      (v : ℕ)
      → S.off ≡ 6
      → (verbosity S v ≡ ok (int_of_size v)) ↔ ((v % 2 ^ 32 ≤ 6) ⊎ (2 ^ 31 ≤ v % 2 ^ 32))
  unfolding verbosity
  verbosity-accepts v six =
      let n = v % 2 ^ 32 in
      (
        λ accepted. elim (Bool-cases (leb n 6)) [
          | inl small ↦ inl (ground arith)
          | inr large ↦ elim (Bool-cases (ltb n (2 ^ 31))) [
            | inl positive ↦
                absurd (refused accepted (verbosity_refuses v six (ground arith) (ground arith)))
            | inr negative ↦ inr (ground arith)
          ]
        ],
        λ h. elim h [
          | inl small ↦ rw six (verb_small n _ small)
          | inr negative ↦ rw six (verb_negative n _ negative)
        ],
      )
