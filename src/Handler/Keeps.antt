-- ===== src/Handler/Keeps.antt =====
-- What an action leaves alone, by one rule for each way to build one.
use pocker_backend.Base.{
  ℕ, ◌≡◌, inl, inr, List, Bool, true, false, Option, none, some, if◌then◌else◌, ◌==◌, subst,
  Bool-cases, ==_iff,
}
use pocker_backend.Base.Results.{Result, ok, err, Error}
use pocker_backend.Connection.{Connection}
use pocker_backend.Connection.Delivery.{HasFlow}
use pocker_backend.Users.{UserCont}
use pocker_backend.Users.Laws.{IsKeyed}
use pocker_backend.Handler.State.{Env, Backend, Action, pure, lift, or_throw, ◌>>=◌, update}

-- The users, if there are any, stand under their ids.
abbrev pub Keyed : Option UserCont → Type 0
Keyed none = Unit
Keyed (some users) = IsKeyed users

-- What the handlers may have made of the connections.
pub record Served (E : Env) (ps : List ℕ) (conns : ℕ → Connection) (b : Backend E) : Type 0 where
  pub same :
      (i : ℕ)
      → ((b.connections i).read_msg ≡ (conns i).read_msg)
        × ((b.connections i).reads ≡ (conns i).reads)
  pub flow : (i : ℕ) → HasFlow (b.connections i)
  pub joined : b.participants ≡ ps
  pub keyed : Keyed b.srv

-- An action leaves a property, whether it returns or throws.
pub record Keeps {E : Env} {A : Type 0} (P : Backend E → Type 0) (m : Action E A) : Type 0 where
  pub after : (b : Backend E) → P b → P (m b).1

module _ {E : Env} {A : Type 0} {P : Backend E → Type 0} where
  pub Keeps-pure : (a : A) → Keeps P (pure a)
  Keeps-pure a = record { after = λ b h. h }

  pub Keeps-lift : (r : Result A) → Keeps P (lift r)
  Keeps-lift r = record { after = λ b h. h }

  pub Keeps-or_throw : (o : Option A) (e : Error) → Keeps P (or_throw o e)
  Keeps-or_throw none e = record { after = λ b h. h }
  Keeps-or_throw (some a) e = record { after = λ b h. h }

  pub Keeps-if :
      (t : Bool) (m k : Action E A) → Keeps P m → Keeps P k → Keeps P (if t then m else k)
  Keeps-if true m k km kk = km
  Keeps-if false m k km kk = kk

module _ {E : Env} {A B : Type 0} {P : Backend E → Type 0} where
  -- A block goes on behind a result.
  go_on : (r : Result A) (f : A → Action E B) → ((a : A) → Keeps P (f a)) → Keeps P (lift r >>= f)
  go_on (ok a) f kf = kf a
  go_on (err e) f kf = record { after = λ b h. h }

  pub Keeps-bind :
      (m : Action E A) (f : A → Action E B)
      → Keeps P m
      → ((a : A) → Keeps P (f a))
      → Keeps P (m >>= f)
  Keeps-bind m f km kf = record { after = λ b h. (go_on (m b).0 f kf).after (m b).1 (km.after b h) }

pub ruleset keeps_rules = (Keeps-pure, Keeps-lift, Keeps-or_throw, Keeps-if, Keeps-bind)

-- One connection is another one, and the rest stay.
pub updated :
    (E : Env) (P : ℕ → Connection → Type 0) (f : ℕ → Connection) (i : ℕ) (c : Connection)
    → P i c
    → ((j : ℕ) → P j (f j))
    → (j : ℕ) → P j (update E f i c j)
updated E P f i c new old j = elim (Bool-cases (i == j)) [
  | inl hit ↦ rw hit (subst (λ k. P k c) ((==_iff i j).0 hit) new)
  | inr miss ↦ rw miss (old j)
]
