-- ===== src/Server/Inversion.antt =====
-- What an action was made of, where it returned.
use pocker_backend.Base.{ℕ, ◌≡◌, refl, sym, ap, ◌∙◌, inl, inr}
use pocker_backend.Base.Results.{Result, ok, err, Result-cases}
use pocker_backend.Connection.{Connection}
use pocker_backend.Connection.Callbacks.{ok_inj}
use pocker_backend.Handler.State.{Env, Action, Backend, ◌>>=◌, update}
use pocker_backend.Server.Callbacks.{on_connection, forget}
use pocker_backend.Server.Arriving.{at, followed, on_connection_lem}

module _ {E : Env} where
  -- A block that returned: so did its first action, and then the rest.
  pub returned :
      {A B : Type 0} (m : Action E A) (k : A → Action E B) (b b' : Backend E) (a : B)
      → (m >>= k) b ≡ (ok a, b')
      → (x : A) × (b₁ : Backend E) × (m b ≡ (ok x, b₁)) × (k x b₁ ≡ (ok a, b'))
  returned m k b b' a e = elim (Result-cases (m b).0) [
    | inl (thrown, threw) ↦
        let failed : (m >>= k) b ≡ (err thrown, (m b).1) =
          ap (λ r. elim r [ ok x ↦ k x (m b).1 | err t ↦ (err t, (m b).1) ]) threw in
        absurd (cc (e, failed))
    | inr (x, went) ↦
        let first : m b ≡ (ok x, (m b).1) = ap (λ r. (r, (m b).1)) went in
        (x, (m b).1, first, sym (followed E m k b (m b).1 x first) ∙ e)
  ]

  pub on_connection_inv :
      (i : ℕ) (f : Connection → Result Connection) (b b' : Backend E)
      → on_connection E i f b ≡ (ok tt, b')
      → (c : Connection) × (f (b.connections i) ≡ ok c) × (at E b (update E b.connections i c) ≡ b')
  unfolding on_connection
  on_connection_inv i f b b' e = elim (Result-cases (f (b.connections i))) [
    | inl (thrown, threw) ↦
        let failed : on_connection E i f b ≡ (err thrown, b) = rw threw refl in
        absurd (cc (e, failed))
    | inr (c, went) ↦
        (c, went, ap (λ x. x.1) (sym (on_connection_lem E i f b (b.connections i) c refl went) ∙ e))
  ]

pub forget_inv :
    (E : Env) {A : Type 0} (r : Result (Connection × A)) (c : Connection)
    → forget E r ≡ ok c
    → (a : A) × (r ≡ ok (c, a))
forget_inv E (ok (d, a)) c e = (a, ap (λ k. ok (k, a)) (ok_inj e))
forget_inv E (err t) c e = absurd (cc)
