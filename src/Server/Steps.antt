-- ===== src/Server/Steps.antt =====
-- The callbacks keep the backend sane, and leave what another connection reads.
use pocker_backend.Base.{
  ℕ, ◌≡◌, ◌≢◌, refl, sym, ap, ◌∙◌, subst, inl, inr, List, [], ◌∷◌, ◌++◌, Bool, true, false, length,
}
use pocker_backend.Base.Bytes.{Bytes}
use pocker_backend.Base.Results.{ok}
use pocker_backend.Message.{header_length}
use pocker_backend.Connection.{
  Connection, Read, write_done, do_read_header, header_done, body_arrived,
}
use pocker_backend.Connection.Callbacks.{
  IsGood, read_ended, write_ended, read_ended-IsGood, only_read, header_done-IsGood,
  body_arrived-IsGood, ok_inj,
}
use pocker_backend.Connection.WriteCallback.{write_ended-IsGood, write_done-IsGood}
use pocker_backend.Handler.State.{del_connection, Env, Backend, ◌>>◌}
use pocker_backend.Handler.Dispatch.{handle}
use pocker_backend.Handler.Participants.{del_connection-IsDistinct}
use pocker_backend.Handler.Keeps.{Served}
use pocker_backend.Handler.Kept.{handle-Kept}
use pocker_backend.Server.Callbacks.{
  on_connection, header_callback, body_callback, write_callback, end_read, drop_connection,
  read_message, forget,
}
use pocker_backend.Server.Arriving.{rest_of_body}
use pocker_backend.Server.Inversion.{returned, forget_inv}
use pocker_backend.Server.Loop.{end_write, read_fails}
use pocker_backend.Server.Sane.{IsSane, Served-IsSane, as_it_is, Moves, on_step, on_write}

header_started : (c : Connection) → IsGood c → c.reads ≡ [] → IsGood (do_read_header c)
unfolding do_read_header
header_started c good none = record {
  full = good.full;
  small = good.small;
  flow = good.flow;
  reading = inr (inl (ap (λ rs. rs ++ Read.header ∷ []) none));
}

module _ {E : Env} where
  pub read_taken :
      (i next : ℕ) (r : Read) (rest : List Read) (b b' : Backend E)
      → IsSane b
      → i ≢ next
      → (b.connections i).reads ≡ r ∷ rest
      → end_read E i b ≡ (ok tt, b')
      → Moves next b b'
        × ((b'.connections i).reads ≡ [])
        × ((b'.connections i).read_msg ≡ (b.connections i).read_msg)
  unfolding end_read
  read_taken i next r rest b b' sane ne waiting e =
      let c = b.connections i in
      let good = read_ended-IsGood c r rest (sane.good i) waiting in
      let (c₁, w, is, moves) =
        on_step i next (λ c. ok (read_ended c)) b b' sane ne (λ k w. subst IsGood (ok_inj w) good)
          e in
      let same : read_ended c ≡ b'.connections i = ok_inj w ∙ sym is in
      (
        moves,
        ap (λ k. k.reads) (sym same) ∙ only_read c r rest (sane.good i).reading waiting,
        ap (λ k. k.read_msg) (sym same),
      )

  pub header_step :
      (i next : ℕ) (arrived : Bytes) (b b' : Backend E)
      → IsSane b
      → i ≢ next
      → (b.connections i).reads ≡ []
      → length arrived ≡ header_length
      → header_callback E i false arrived b ≡ (ok tt, b')
      → Moves next b b'
  unfolding header_callback
  header_step i next arrived b b' sane ne none len e =
      (on_step i next (λ c. forget E (header_done arrived c)) b b' sane ne
        (λ c w.
          let (flag, done) = forget_inv E (header_done arrived (b.connections i)) c w in
          header_done-IsGood arrived (b.connections i) c flag (sane.good i) none len done)
        e).3

  pub body_step :
      (i next : ℕ) (arrived : Bytes) (b b' : Backend E)
      → IsSane b
      → i ≢ next
      → (b.connections i).reads ≡ []
      → length arrived ≡ (b.connections i).read_msg.body_length
      → body_callback E i false arrived b ≡ (ok tt, b')
      → Moves next b b'
  unfolding body_callback read_message
  body_step i next arrived b b' sane ne none len e =
      let c = b.connections i in
      let (_, b₁, e₁, f₁) =
        returned (on_connection E i (body_arrived arrived)) (λ _. rest_of_body E i) b b' tt e in
      let (c₁, w₁, is₁, (sane₁, reads₁)) =
        on_step i next (body_arrived arrived) b b₁ sane ne
          (λ k w. (body_arrived-IsGood arrived c k (sane.good i) none len w).0) e₁ in
      let idle₁ : (b₁.connections i).reads ≡ [] =
        ap (λ k. k.reads) is₁ ∙ (body_arrived-IsGood arrived c c₁ (sane.good i) none len w₁).1 in
      let msg = (b₁.connections i).read_msg in
      let (_, b₂, e₂, f₂) =
        returned (handle E msg i) (λ _. on_connection E i (λ c. ok (do_read_header c))) b₁ b' tt
          f₁ in
      let kept =
        (handle-Kept E b₁.participants b₁.connections msg i).after b₁ (as_it_is b₁ sane₁) in
      let served : Served E b₁.participants b₁.connections b₂ =
        subst (λ x. Served E b₁.participants b₁.connections x.1) e₂ kept in
      let sane₂ = Served-IsSane b₁ b₂ sane₁ served in
      let idle₂ : (b₂.connections i).reads ≡ [] = (served.same i).1 ∙ idle₁ in
      let (_, _, _, (sane₃, reads₃)) =
        on_step i next (λ c. ok (do_read_header c)) b₂ b' sane₂ ne
          (λ k w. subst IsGood (ok_inj w) (header_started (b₂.connections i) (sane₂.good i) idle₂))
          f₂ in
      (sane₃, reads₃ ∙ (served.same next).1 ∙ reads₁)

  pub drop_step :
      (i next : ℕ) (b b' : Backend E)
      → IsSane b
      → drop_connection E i b ≡ (ok tt, b')
      → Moves next b b'
  unfolding drop_connection del_connection
  drop_step i next b b' sane e =
      let dropped : IsSane (del_connection E i b) = record {
        good = sane.good;
        distinct = (del_connection-IsDistinct E i i b sane.distinct).0;
        keyed = sane.keyed;
      } in
      subst (λ x. Moves next b x.1) e (dropped, refl)

  pub fail_step :
      (i next : ℕ) (r : Read) (b b' : Backend E)
      → IsSane b
      → read_fails E r i b ≡ (ok tt, b')
      → Moves next b b'
  unfolding read_fails header_callback body_callback
  fail_step i next Read.header b b' sane e = drop_step i next b b' sane e
  fail_step i next (Read.body n) b b' sane e = drop_step i next b b' sane e

  pub write_step :
      (i next : ℕ) (error : Bool) (w : Bytes) (rest : List Bytes) (b b' : Backend E)
      → IsSane b
      → (b.connections i).writes ≡ w ∷ rest
      → (end_write E i >> write_callback E i error) b ≡ (ok tt, b')
      → Moves next b b'
  unfolding end_write write_callback
  write_step i next true w rest b b' sane writing e =
      let c = b.connections i in
      let (_, b₁, e₁, f₁) = returned (end_write E i) (λ _. write_callback E i true) b b' tt e in
      let (_, _, _, (sane₁, reads₁)) =
        on_write i next (λ c. ok (write_ended c)) b b₁ sane
          (λ k w₁.
            subst (λ k. IsGood k × (k.reads ≡ c.reads)) (ok_inj w₁)
              (write_ended-IsGood c w rest (sane.good i) writing, refl))
          e₁ in
      let (sane₂, reads₂) = drop_step i next b₁ b' sane₁ f₁ in (sane₂, reads₂ ∙ reads₁)
  write_step i next false w rest b b' sane writing e =
      let c = b.connections i in
      let (_, b₁, e₁, f₁) = returned (end_write E i) (λ _. write_callback E i false) b b' tt e in
      let (_, w₁, is₁, (sane₁, reads₁)) =
        on_write i next (λ c. ok (write_ended c)) b b₁ sane
          (λ k w₁.
            subst (λ k. IsGood k × (k.reads ≡ c.reads)) (ok_inj w₁)
              (write_ended-IsGood c w rest (sane.good i) writing, refl))
          e₁ in
      let ended : b₁.connections i ≡ write_ended c = is₁ ∙ sym (ok_inj w₁) in
      let (_, _, _, (sane₂, reads₂)) =
        on_write i next write_done b₁ b' sane₁
          (λ k done.
            let (good, reads) =
              write_done-IsGood c k w rest (sane.good i) writing
                (ap write_done (sym ended) ∙ done) in
            (good, reads ∙ sym (ap (λ k. k.reads) ended)))
          f₁ in
      (sane₂, reads₂ ∙ reads₁)
