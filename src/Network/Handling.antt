-- ===== src/Network/Handling.antt =====
-- The callback of a body at the server, where the body is that of a request.
use pocker_backend.Base.{ℕ, ◌+◌, ◌^◌, ◌<◌, ◌≤◌, ◌≡◌, refl, sym, ◌∙◌, true, false, length, subst}
use pocker_backend.Base.Results.{ok}
use pocker_backend.Rapidjson.{IsFaithful}
use pocker_backend.Connection.{Connection, Read, do_read_header, body_arrived}
use pocker_backend.Connection.Callbacks.{read_ended}
use pocker_backend.Users.{UserCont}
use pocker_backend.Database.{Query}
use pocker_backend.Database.Laws.{IsRelational}
use pocker_backend.Database.Accounts.{Accounts, IsSound, view}
use pocker_backend.Handler.State.{◌>>◌, update}
use pocker_backend.Handler.Fits.{Fits}
use pocker_backend.Handler.Landing.{specified, users_after, lands}
use pocker_backend.Handler.Spec.{Request, Answer, text_of}
use pocker_backend.Handler.Messages.{request_text}
use pocker_backend.Server.Callbacks.{on_connection, end_read, body_callback}
use pocker_backend.Server.Arriving.{
  at, followed, update_self, update_other, read_ends, body_read, rest_of_body, ReadIn, Elsewhere,
}
use pocker_backend.Server.Answering.{Answered, rest_answers}
use pocker_backend.Network.Phase.{announced, conn_of, Extra, IsSendable}
use pocker_backend.Network.Holds.{Setup, programs, backend_of}

module _ (S : Setup) where
  abbrev pub outcome : UserCont → (ℕ → Connection) → S.env.database.Db → Request → Accounts × Answer
  outcome users conns db q =
      specified (S.env) (S.config) (S.sqlpp_config) users (S.participants) conns db q

  -- What the callback of the body of a request leaves, at a connection that has announced it.
  pub record Serves (users : UserCont) (conns : ℕ → Connection) (db : S.env.database.Db) (i : ℕ)
      (q : Request) (x : Extra (programs S)) : Type 0 where
    pub db' : S.env.database.Db
    pub conns' : ℕ → Connection
    pub ran :
        (end_read (S.env) i >> body_callback (S.env) i false (request_text (S.env.rapidjson) q))
          (backend_of S users conns db)
        ≡ (
          ok tt,
          backend_of S
              (users_after (S.env) (S.config) (S.sqlpp_config) users (S.participants) conns db q i)
              conns'
              db',
        )
    pub sound : IsSound (S.env.database) db'
    pub shows : view (S.env.database) db' ≡ (outcome users conns db q).0
    pub grows : S.env.database.max_user_id db' ≤ S.env.database.max_user_id db + 1
    pub fits : Fits (S.env.rapidjson) (outcome users conns db q).1
    pub has :
        Answered
          (text_of (S.env.rapidjson) (outcome users conns db q).1)
          (conn_of (programs S) (announced q) x)
          (conns' i)
    pub elsewhere : Elsewhere (S.env) i conns conns'

module _ (S : Setup) (json : IsFaithful (S.env.rapidjson)) (laws : IsRelational (S.env.database))
    (took : (q : Query) (d : S.env.database.Db) → S.env.database.accepts q d ≡ true)
    (memory_full : length (S.env.memory) ≡ 2048) where
  -- The callback of the body of a request performs it and answers.
  pub callback-Serves :
      (users : UserCont) (conns : ℕ → Connection) (db : S.env.database.Db) (i : ℕ) (q : Request)
      (x : Extra (programs S))
      → IsSound (S.env.database) db
      → S.env.database.max_user_id db + 1 < 2 ^ 63
      → IsSendable (programs S) q
      → conns i ≡ conn_of (programs S) (announced q) x
      → length x.server_msg.buffer ≡ 2048
      → x.server_msg.body_length ≡ length (request_text (S.env.rapidjson) q)
      → Serves S users conns db i q x
  unfolding body_callback
  callback-Serves users conns db i q x sound small sendable conn full size =
      let E = S.env in
      let text = request_text (E.rapidjson) q in
      let b = backend_of S users conns db in
      let c₁ : Connection = read_ended (conn_of (programs S) (announced q) x) in
      let f₁ : ℕ → Connection = update E conns i c₁ in
      let (buffer, arrived, is, full₂) =
        body_read E i (at E b f₁) text c₁ (update_self E conns i c₁) full size sendable.fits in
      let c₂ : Connection = record c₁ { read_msg = record c₁.read_msg { buffer = buffer } } in
      let f₂ : ℕ → Connection = update E f₁ i c₂ in
      let got : ReadIn E text (conn_of (programs S) (announced q) x) (f₂ i) =
        subst (ReadIn E text (conn_of (programs S) (announced q) x)) (sym (update_self E f₁ i c₂))
          (record { is = is; full = full₂; idle = refl; same = (refl, refl) }) in
      let (d, c', ran, sound', shows, grows, has) =
        rest_answers E (S.config) (S.sqlpp_config) users (S.participants) db json laws sound
          memory_full small f₂ q i (λ k. took k db) sendable.small
          (conn_of (programs S) (announced q) x) got in
      let f₃ : ℕ → Connection = update E f₂ i c' in
      let last = do_read_header c' in
      let (_, _, _, landed) =
        lands E (S.config) (S.sqlpp_config) users (S.participants) conns db json laws sound
          (λ k. took k db) small q i in
      record {
        db' = d;
        conns' = update E f₃ i last;
        ran =
            followed E (end_read E i) (λ _. body_callback E i false text) b (at E b f₁) tt
              (read_ends E i b _ (Read.body (length text)) conn refl)
            ∙ followed E (on_connection E i (body_arrived text)) (λ _. rest_of_body E i) (at E b f₁)
                (at E b f₂) tt arrived
            ∙ ran;
        sound = sound';
        shows = shows;
        grows = grows;
        fits = subst (Fits (E.rapidjson)) landed.answers landed.fits;
        has =
            subst (Answered _ (conn_of (programs S) (announced q) x))
              (sym (update_self E f₃ i last)) has;
        elsewhere = λ j ne.
            update_other E f₃ i j last ne
            ∙ update_other E f₂ i j c' ne
            ∙ update_other E f₁ i j c₂ ne
            ∙ update_other E conns i j c₁ ne;
      }
