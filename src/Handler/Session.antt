-- ===== src/Handler/Session.antt =====
-- A sequence of messages, handled one after the other.
use pocker_backend.Base.{
  ℕ, ◌+◌, ◌^◌, ◌<◌, ◌≡◌, refl, ◌∙◌, List, [], ◌∷◌, length, true, arith, subst,
}
use pocker_backend.Base.Bytes.{Bytes}
use pocker_backend.Base.Results.{ok}
use pocker_backend.Rapidjson.{Rapidjson, IsFaithful}
use pocker_backend.Message.{Message, body}
use pocker_backend.Connection.{Connection}
use pocker_backend.Users.{UserCont}
use pocker_backend.Database.{DbConnectConfig, SqlppConfig, Query}
use pocker_backend.Database.Laws.{IsRelational}
use pocker_backend.Database.Accounts.{Accounts, IsFresh, IsSound, view, next-IsFresh}
use pocker_backend.Handler.State.{Env, Backend, Action, pure, ◌>>◌}
use pocker_backend.Handler.Dispatch.{handle}
use pocker_backend.Handler.Spec.{Request, spec}
use pocker_backend.Handler.Reply.{running}
use pocker_backend.Handler.Branches.{hashed}
use pocker_backend.Handler.Refines.{perform_refines}
use pocker_backend.Handler.Messages.{request_text, IsSmall, handle-request_text}

-- The messages that arrive, each with its connection; a throw ends the server.
unfoldable pub serve : (E : Env) → List (Message × ℕ) → Action E (Unit {0})
serve E [] = pure tt
serve E ((msg, sender) ∷ rest) = handle E msg sender >> serve E rest

-- The messages are those of the requests.
abbrev pub Carry : Rapidjson → List Request → List (Message × ℕ) → Type 0
Carry R [] incoming = incoming ≡ []
Carry R (q ∷ qs) [] = ⊥
Carry R (q ∷ qs) ((msg, sender) ∷ rest) =
    IsSmall q × (body msg ≡ request_text R q) × Carry R qs rest

-- The accounts change as the specification says, each new account under a fresh id.
abbrev pub Follows : (Bytes → Bytes) → Accounts → List Request → Accounts → Type 0
Follows hash accounts [] final = final ≡ accounts
Follows hash accounts (q ∷ qs) final =
    (id : ℕ) × IsFresh id accounts × Follows hash (spec hash id q accounts).0 qs final

module _ (E : Env) (c : DbConnectConfig) (s : SqlppConfig) (ps : List ℕ)
    (full : length (E.memory) ≡ 2048) (json : IsFaithful (E.rapidjson))
    (laws : IsRelational (E.database))
    (took : (q : Query) (d : E.database.Db) → E.database.accepts q d ≡ true) where
  serve_step :
      (msg : Message) (sender : ℕ) (rest : List (Message × ℕ)) (b b' : Backend E)
      → handle E msg sender b ≡ (ok tt, b')
      → serve E ((msg, sender) ∷ rest) b ≡ serve E rest b'
  unfolding serve
  serve_step msg sender rest b b' e = ground (arith, e)

  -- On a connected backend with a sound table that takes every query, and with a largest id that
  -- leaves room for as many ids as there are requests, any sequence of messages which carry requests,
  -- from any connections, is served without an error. The table is sound in the end, and its accounts
  -- follow the specification, request by request, each new account under an id that none had.
  pub serve_refines :
      (qs : List Request) (incoming : List (Message × ℕ)) (users : UserCont)
      (conns : ℕ → Connection) (db : E.database.Db)
      → Carry (E.rapidjson) qs incoming
      → IsSound (E.database) db
      → E.database.max_user_id db + length qs < 2 ^ 63
      → (users' : UserCont) × (conns' : ℕ → Connection) × (db' : E.database.Db) × (serve E incoming
            (running E c s users ps conns db)
          ≡ (ok tt, running E c s users' ps conns' db'))
        × IsSound (E.database) db'
        × Follows (hashed E c) (view (E.database) db) qs (view (E.database) db')
  serve_refines [] incoming users conns db carry sound room =
      (users, conns, db, rw carry (unfold serve in refl), sound, refl)
  serve_refines (q ∷ qs) [] users conns db carry sound room = absurd carry
  serve_refines (q ∷ qs) ((msg, sender) ∷ rest) users conns db (small, is, carry) sound room =
      let (d, c', performed, sound₁, shows, grows, _) =
        perform_refines E c s users ps conns db json laws sound (λ k. took k db) (omega arith) q
          sender full in
      let (users', conns', db', served, sound₂, follows) =
        serve_refines qs rest _ _ d carry sound₁ (omega arith) in
      (
        users',
        conns',
        db',
        serve_step msg sender rest _ _
              (handle-request_text E msg sender _ q json small is ∙ performed)
            ∙ served,
        sound₂,
        (
          E.database.max_user_id db + 1,
          next-IsFresh (E.database) laws db,
          subst (λ a. Follows (hashed E c) a qs (view (E.database) db')) shows follows,
        ),
      )
