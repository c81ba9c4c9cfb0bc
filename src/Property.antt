-- ===== src/Property.antt =====
-- components/property.hpp and include/player.h: a member with functions to read and to write it. A
-- reference that is returned is the value.
use pocker_backend.Base.{ℕ, ◌≡◌, ◌↔◌, ap, Bool, true}
use pocker_backend.Base.Bytes.{Bytes, beq, beq_iff}

pub record Property {ℓ} (T : Type ℓ) : Type ℓ where
  pub m_value : T

module _ {ℓ} {T : Type ℓ} where
  -- The constructors: the default one has the value that `T()` has.
  abbrev pub property : T → Property T
  property value = record { m_value = value }

  -- `operator()`
  abbrev pub call : Property T → T
  call p = p.m_value

  abbrev pub get : Property T → T
  get p = p.m_value

  -- `operator T`
  abbrev pub convert : Property T → T
  convert p = p.m_value

  -- The property, and the value that is returned.
  abbrev pub set : T → Property T → Property T × T
  set rhs p = (record { m_value = rhs }, rhs)

  -- `operator=`
  abbrev pub assign_value : T → Property T → Property T × T
  assign_value rhs p = (record { m_value = rhs }, rhs)

  -- `operator==`, with that of `T`
  abbrev pub equals : (T → T → Bool) → Property T → Property T → Bool
  equals eq lhs rhs = eq (call lhs) (call rhs)

-- A `player`.
pub record Player : Type 0 where
  pub name : Property Bytes
  pub token : Property Bytes
  pub bank : ℕ

-- Two properties of strings are `==` exactly when they hold the same string.
equals_iff : (p q : Property Bytes) → (equals beq p q ≡ true) ↔ (p ≡ q)
equals_iff p q = (
  λ e. ap (λ s. property s) ((beq_iff (call p) (call q)).0 e),
  λ e. (beq_iff (call p) (call q)).1 (ap (λ r. call r) e),
)
