-- ===== src/Handler/Refines.antt =====
-- The handlers implement the specification.
use pocker_backend.Base.{ℕ, ◌+◌, ◌^◌, ◌<◌, ◌≤◌, ◌≡◌, ap, ◌∙◌, List, length, subst}
use pocker_backend.Base.Results.{ok}
use pocker_backend.Rapidjson.{IsFaithful}
use pocker_backend.Connection.{Connection}
use pocker_backend.Users.{UserCont}
use pocker_backend.Database.{DbConnectConfig, SqlppConfig}
use pocker_backend.Database.Laws.{IsRelational}
use pocker_backend.Database.Accounts.{IsSound, view}
use pocker_backend.Handler.Landing.{specified, users_after, lands}
use pocker_backend.Handler.State.{Env, update}
use pocker_backend.Handler.Spec.{Request, text_of, perform}
use pocker_backend.Handler.Reply.{running, Gains, reply_lem}
use pocker_backend.Handler.Branches.{Accepts}

module _ (E : Env) (c : DbConnectConfig) (s : SqlppConfig) (users : UserCont) (ps : List ℕ)
    (conns : ℕ → Connection) (db : E.database.Db) (json : IsFaithful (E.rapidjson))
    (laws : IsRelational (E.database)) (sound : IsSound (E.database) db)
    (took : Accepts E c s users ps conns db) (small : E.database.max_user_id db + 1 < 2 ^ 63) where
  -- On a connected backend with a sound table that takes the queries and whose largest id is below
  -- 2^63 - 1, and with 2048 bytes of memory for a message, a request is performed without an error.
  -- The table is sound again and shows the specified accounts, its largest id has grown by one at
  -- most, the users are the specified ones, the specified answer is queued at the connection of the
  -- request in a frame that decodes, and nothing else of the state has changed.
  pub perform_refines :
      (q : Request) (sender : ℕ)
      → length (E.memory) ≡ 2048
      → (d : E.database.Db) × (c' : Connection) × (perform E q sender
            (running E c s users ps conns db)
          ≡ (
            ok tt,
            running E c s
                (users_after E c s users ps conns db q sender)
                ps
                (update E conns sender c')
                d,
          ))
        × IsSound (E.database) d
        × (view (E.database) d ≡ (specified E c s users ps conns db q).0)
        × (E.database.max_user_id d ≤ E.database.max_user_id db + 1)
        × Gains (text_of (E.rapidjson) (specified E c s users ps conns db q).1) (conns sender) c'
  perform_refines q sender full =
      let (answer, us, d, l) = lands E c s users ps conns db json laws sound took small q sender in
      let (c', gains, replied) =
        reply_lem E full (text_of (E.rapidjson) answer) sender (running E c s us ps conns d)
          l.fits in
      (
        d,
        c',
        l.replies
            ∙ replied
            ∙ ap (λ u. (ok tt, running E c s u ps (update E conns sender c') d)) l.logged,
        l.sound,
        l.shows,
        l.grows,
        subst (λ a. Gains (text_of (E.rapidjson) a) (conns sender) c') l.answers gains,
      )
