-- ===== src/Base/Results.antt =====
-- How a call ends: it returns, it throws, or it does what C++ gives no meaning to.
use mathlib.Core.Path.{◌≡◌, refl}
use mathlib.Core.Logic.{◌⊎◌, inl, inr}
use pocker_backend.Base.Bytes.{Bytes}

pub data Error : Type 0 where
  -- `throw std::runtime_error(mes)`
  runtime_error : Bytes → Error
  -- an exception of a library: `std::out_of_range`, `sqlpp::exception`
  library_error : Error
  -- a failed assertion of RapidJSON
  assertion : Error
  -- a write outside a buffer, a null pointer followed, a signed overflow
  undefined : Error

-- The state of the program as it is left stands beside the result, where there is one.
pub data Result {ℓ} (A : Type ℓ) : Type ℓ where
  err : Error → Result A
  ok : A → Result A

module _ {ℓ κ} {A : Type ℓ} {B : Type κ} where
  -- The rest of a call runs on what the first part returned, and not at all where it threw.
  infixl 5 ◌>>=◌
  abbrev pub ◌>>=◌ : Result A → (A → Result B) → Result B
  r >>= rest = elim r [ err thrown ↦ err thrown | ok returned ↦ rest returned ]

pub Result-cases {ℓ} :
    {A : Type ℓ} (r : Result A) → ((e : Error) × (r ≡ err e)) ⊎ ((a : A) × (r ≡ ok a))
Result-cases (err e) = inl (e, refl)
Result-cases (ok a) = inr (a, refl)
