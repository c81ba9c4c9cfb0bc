-- ===== src/Server/Answering.antt =====
-- A request on its way through the server, from the bytes of its frame to the frame of its answer,
-- over the same connection.
use pocker_backend.Base.{
  if◌then◌else◌, ℕ, ◌+◌, ◌^◌, ◌<◌, ◌≤◌, ◌≡◌, refl, sym, ap, ◌∙◌, List, [], ◌∷◌, ◌++◌, length, subst,
}
use pocker_backend.Base.Bytes.{Bytes}
use pocker_backend.Base.Results.{ok}
use pocker_backend.Rapidjson.{IsFaithful}
use pocker_backend.Message.{Message, max_body_length, wire}
use pocker_backend.Message.Frame.{IsFrame}
use pocker_backend.Connection.{Connection, Read, is_empty, do_read_header}
use pocker_backend.Connection.Delivery.{deliver_keeps}
use pocker_backend.Connection.Reading.{IsFull}
use pocker_backend.Users.{UserCont}
use pocker_backend.Database.{DbConnectConfig, SqlppConfig}
use pocker_backend.Database.Laws.{IsRelational}
use pocker_backend.Database.Accounts.{IsSound, view}
use pocker_backend.Handler.State.{Env, pure, update}
use pocker_backend.Handler.Dispatch.{handle}
use pocker_backend.Handler.Spec.{Request, text_of}
use pocker_backend.Handler.Reply.{running}
use pocker_backend.Handler.Branches.{Accepts}
use pocker_backend.Handler.Landing.{specified, users_after}
use pocker_backend.Handler.Refines.{perform_refines}
use pocker_backend.Handler.Messages.{request_text, IsSmall, handle-request_text}
use pocker_backend.Server.Callbacks.{on_connection, read_message, message_arrives}
use pocker_backend.Server.Arriving.{
  followed, on_connection_lem, update_self, update_other, Elsewhere, ReadIn, rest_of_body, arrives,
}

-- One more message is queued, a frame of the text, and the next header is being read.
pub record Answered (text : Bytes) (c c' : Connection) : Type 0 where
  pub answer : Message
  pub frame : IsFrame text (wire answer)
  pub queued : c'.write_msgs ≡ c.write_msgs ++ answer ∷ []
  pub writing :
      c'.writes ≡ (if is_empty c.write_msgs then c.writes ++ wire answer ∷ [] else c.writes)
  pub full : IsFull c'
  pub waiting : c'.reads ≡ Read.header ∷ []

module _ (E : Env) (c : DbConnectConfig) (s : SqlppConfig) (users : UserCont) (ps : List ℕ)
    (db : E.database.Db) (json : IsFaithful (E.rapidjson)) (laws : IsRelational (E.database))
    (sound : IsSound (E.database) db) (memory_full : length (E.memory) ≡ 2048)
    (small : E.database.max_user_id db + 1 < 2 ^ 63) where
  -- The handler is called on a connection that holds the text of a request, and its header is read.
  pub rest_answers :
      (conns : ℕ → Connection) (q : Request) (sender : ℕ)
      → Accepts E c s users ps conns db
      → IsSmall q
      → (start : Connection) → ReadIn E (request_text (E.rapidjson) q) start (conns sender)
      → (d : E.database.Db) × (c' : Connection) × (rest_of_body E sender
            (running E c s users ps conns db)
          ≡ (
            ok tt,
            running E c s
                (users_after E c s users ps conns db q sender)
                ps
                (update E (update E conns sender c') sender (do_read_header c'))
                d,
          ))
        × IsSound (E.database) d
        × (view (E.database) d ≡ (specified E c s users ps conns db q).0)
        × (E.database.max_user_id d ≤ E.database.max_user_id db + 1)
        × Answered
            (text_of (E.rapidjson) (specified E c s users ps conns db q).1)
            start
            (do_read_header c')
  unfolding read_message do_read_header
  rest_answers conns q sender took short start got =
      let (d, c', performed, sound', shows, grows, (m, delivered, queued, _, frame)) =
        perform_refines E c s users ps conns db json laws sound took small q sender memory_full in
      let (same, reads, writing) =
        deliver_keeps m (conns sender) c' (conns sender).write_msgs delivered in
      let handled =
        handle-request_text E (conns sender).read_msg sender (running E c s users ps conns db) q
          json short got.is in
      (
        d,
        c',
        followed E (handle E (conns sender).read_msg sender)
              (λ _. on_connection E sender (λ c. ok (do_read_header c))) _ _ tt
              (handled ∙ performed)
            ∙ on_connection_lem E sender _ _ c' _ (update_self E conns sender c') refl,
        sound',
        shows,
        grows,
        record {
          answer = m;
          frame = frame;
          queued = queued ∙ ap (λ q. q ++ m ∷ []) got.same.0;
          writing =
              writing
              ∙ ap
                  (λ q.
                    if is_empty q
                    then (conns sender).writes ++ wire m ∷ []
                    else (conns sender).writes)
                  got.same.0
              ∙ ap (λ ws. if is_empty start.write_msgs then ws ++ wire m ∷ [] else ws) got.same.1;
          full = ap (λ r. length r.buffer) same ∙ got.full;
          waiting = ap (λ rs. rs ++ Read.header ∷ []) (reads ∙ got.idle);
        },
      )

  -- On a connected backend with a sound table that takes the queries and whose largest id is below
  -- 2^63 - 1, and with 2048 bytes of memory for a message: the frame of a request, of at most 2044
  -- bytes with fields below 2^32, arrives at a connection with a full-size buffer that waits for a
  -- header. While two reads complete, each only if a callback has started it, the callbacks and the
  -- handler run without an error, and no byte is left. The table is sound again and shows
  -- the specified accounts, the users are the specified ones, one frame of the specified answer is
  -- queued at the connection, where it is being written if nothing was queued before, the next header
  -- is being read, and no other connection has changed.
  pub message_arrives-answers :
      (conns : ℕ → Connection) (q : Request) (sender : ℕ) (stream : Bytes)
      → Accepts E c s users ps conns db
      → IsSmall q
      → length (request_text (E.rapidjson) q) ≤ max_body_length
      → IsFrame (request_text (E.rapidjson) q) stream
      → IsFull (conns sender)
      → (conns sender).reads ≡ Read.header ∷ []
      → (d : E.database.Db) × (conns' : ℕ → Connection) × (message_arrives E sender stream
            (running E c s users ps conns db)
          ≡ (ok [], running E c s (users_after E c s users ps conns db q sender) ps conns' d))
        × IsSound (E.database) d
        × (view (E.database) d ≡ (specified E c s users ps conns db q).0)
        × Answered
            (text_of (E.rapidjson) (specified E c s users ps conns db q).1)
            (conns sender)
            (conns' sender)
        × Elsewhere E sender conns conns'
  message_arrives-answers conns q sender stream took short fits frame full waiting =
      let (f, arrived, got, others) =
        arrives E sender (running E c s users ps conns db) (request_text (E.rapidjson) q) stream
          (conns sender) refl full waiting fits frame in
      let (d, c', answered, sound', shows, _, has) =
        rest_answers f q sender took short (conns sender) got in
      let g : ℕ → Connection = update E f sender c' in
      let last = do_read_header c' in
      (
        d,
        update E g sender last,
        arrived ∙ followed E (rest_of_body E sender) (λ _. pure []) _ _ tt answered,
        sound',
        shows,
        subst (Answered _ (conns sender)) (sym (update_self E g sender last)) has,
        λ j ne. update_other E g sender j last ne ∙ update_other E f sender j c' ne ∙ others j ne,
      )
