-- ===== src/Server/Greeting.antt =====
-- An accept keeps the backend sane.
use pocker_backend.Base.{
  ℕ, ◌≡◌, refl, sym, ap, ◌∙◌, subst, inl, inr, [], ◌∷◌, ◌++◌, Bool, true, false,
}
use pocker_backend.Base.Results.{Result, ok, err, Result-cases}
use pocker_backend.Message.{Message, message, assign}
use pocker_backend.Api.Responses.{connect_to_json}
use pocker_backend.Connection.{Read, start, add_handler}
use pocker_backend.Connection.Callbacks.{IsGood}
use pocker_backend.Handler.State.{
  Env, Backend, Action, ◌>>◌, add_connection, deliver_to, lift, pure,
}
use pocker_backend.Handler.Participants.{add_connection-IsDistinct}
use pocker_backend.Handler.Keeps.{Served, updated}
use pocker_backend.Handler.Kept.{deliver_to-Kept}
use pocker_backend.Server.{TcpServer, greeting, start_accept, greet, handle_accept}
use pocker_backend.Server.Inversion.{returned}
use pocker_backend.Server.Sane.{IsSane, Served-IsSane, as_it_is}

module _ {E : Env} where
  join_step :
      (i : ℕ) (b b' : Backend E)
      → IsSane b
      → (b.connections i).reads ≡ []
      → ◌≡◌ {A = Result (Unit {0}) × Backend E} (ok tt, add_connection E i b) (ok tt, b')
      → IsSane b'
  unfolding add_connection start add_handler
  join_step i b b' sane none e =
      let c = b.connections i in
      let started : IsGood (start (add_handler c)) = record {
        full = (sane.good i).full;
        small = (sane.good i).small;
        flow = (sane.good i).flow;
        reading = inr (inl (ap (λ rs. rs ++ Read.header ∷ []) none));
      } in
      subst (λ x. IsSane x.1) e
        (record {
          good =
              updated E (λ j k. IsGood k) b.connections i (start (add_handler c)) started sane.good;
          distinct = (add_connection-IsDistinct E i i b sane.distinct).0;
          keyed = sane.keyed;
        })

  pub greet_step :
      (i : ℕ) (error : Bool) (b b' : Backend E)
      → IsSane b
      → (b.connections i).reads ≡ []
      → greet E i error b ≡ (ok tt, b')
      → IsSane b'
  unfolding greet
  greet_step i true b b' sane none e =
      let (_, b₁, e₁, f₁) =
        returned (lift (assign (message (E.memory)) (connect_to_json (E.rapidjson) greeting)))
          (λ msg. pure tt) b b' tt e in
      subst IsSane (ap (λ x. x.1) e₁ ∙ ap (λ x. x.1) f₁) sane
  greet_step i false b b' sane none e =
      let greets : Message → Action E (Unit {0}) =
        λ msg. deliver_to E i msg >> λ b. (ok tt, add_connection E i b) in
      let (msg, b₁, e₁, f₁) =
        returned (lift (assign (message (E.memory)) (connect_to_json (E.rapidjson) greeting)))
          greets b b' tt e in
      let same : b ≡ b₁ = ap (λ x. x.1) e₁ in
      let (_, b₂, e₂, f₂) =
        returned (deliver_to E i msg) (λ _ b. (ok tt, add_connection E i b)) b₁ b' tt f₁ in
      let sane₁ : IsSane b₁ = subst IsSane same sane in
      let kept =
        (deliver_to-Kept E b₁.participants b₁.connections i msg).after b₁ (as_it_is b₁ sane₁) in
      let served : Served E b₁.participants b₁.connections b₂ =
        subst (λ x. Served E b₁.participants b₁.connections x.1) e₂ kept in
      let none₂ : (b₂.connections i).reads ≡ [] =
        (served.same i).1 ∙ subst (λ k. (k.connections i).reads ≡ []) same none in
      join_step i b₂ b' (Served-IsSane b₁ b₂ sane₁ served) none₂ f₂

  -- An accept that returned: the greeting did, and the next accept was started.
  pub accept_inv :
      (i fresh : ℕ) (error : Bool) (s s' : TcpServer E)
      → handle_accept E i error fresh s ≡ (ok tt, s')
      → (b : Backend E) × (greet E i error s.backend ≡ (ok tt, b))
        × (start_accept E fresh (record s { backend = b }) ≡ s')
  unfolding handle_accept
  accept_inv i fresh error s s' e =
      let (r, b) = greet E i error s.backend in
      elim (Result-cases r) [
        | inl (thrown, threw) ↦
            let failed : handle_accept E i error fresh s ≡ (err thrown, record s { backend = b }) =
              rw (handle_accept, threw) refl in
            absurd (cc (e, failed))
        | inr (_, went) ↦
            let done : handle_accept E i error fresh s
                ≡ (ok tt, start_accept E fresh (record s { backend = b })) =
              rw (handle_accept, went) refl in
            (b, ap (λ r. (r, b)) went, ap (λ x. x.1) (sym done ∙ e))
      ]
