-- ===== src/Server/Accepting.antt =====
-- What an accepted connection looks like.
use pocker_backend.Base.{
  Bool, List, ℕ, ◌≤◌, ◌≡◌, ◌≢◌, refl, [], ◌∷◌, ◌++◌, true, false, length, arith,
}
use pocker_backend.Base.Bytes.{Bytes, codes}
use pocker_backend.Base.Results.{ok}
use pocker_backend.Rapidjson.{Rapidjson, Fields, text, number, IsFaithful}
use pocker_backend.Message.{Message, message, body, assign, wire, max_body_length}
use pocker_backend.Message.Frame.{IsFrame, assign-IsFrame}
use pocker_backend.Api.Responses.{connect_to_json}
use pocker_backend.Api.Rendered.{finish_clean}
use pocker_backend.Connection.{
  Connection, Read, connection, deliver, do_write, add_handler, start, do_read_header,
}
use pocker_backend.Handler.State.{
  Env, Backend, deliver_to, add_connection, update, insert_participant,
}
use pocker_backend.Server.{TcpServer, greeting, greet, start_accept, handle_accept}

abbrev greeting_fields : Fields
greeting_fields = (codes "type", text (codes "connect_response")) ∷ (codes "code", number 0) ∷ []

pub greeting_text_fits :
    (R : Rapidjson) → IsFaithful R → length (connect_to_json R greeting) ≤ max_body_length
unfolding connect_to_json
greeting_text_fits R laws =
    rw (finish_clean R laws greeting_fields) (omega (arith, laws.output_size greeting_fields))

-- The connection after it was greeted with the message and given to the handler.
abbrev pub greeted : Bytes → Message → Connection
greeted garbage m = record (connection garbage) {
  handler = true;
  write_msgs = m ∷ [];
  writes = wire m ∷ [];
  reads = Read.header ∷ [];
}

module _ (E : Env) where
  greet_lem :
      (i : ℕ) (m : Message) (queued : Connection) (b : Backend E)
      → assign (message (E.memory)) (connect_to_json (E.rapidjson) greeting) ≡ ok m
      → deliver m (b.connections i) ≡ ok queued
      → greet E i false b
        ≡ (ok tt, add_connection E i (record b { connections = update E b.connections i queued }))
  unfolding greet deliver_to
  greet_lem i m queued b made delivered = ground (arith, made, delivered)

  -- A message is delivered without an error.
  delivers :
      (m : Message) (c : Connection) (ms : List Message)
      → c.write_msgs ≡ ms
      → (c' : Connection) × (deliver m c ≡ ok c')
  unfolding deliver do_write
  delivers m c [] none = (
    record c { write_msgs = c.write_msgs ++ m ∷ []; writes = c.writes ++ wire m ∷ [] },
    ground (arith, none),
  )
  delivers m c (first ∷ rest) some =
      (record c { write_msgs = c.write_msgs ++ m ∷ [] }, ground (arith, some))

  first_delivered :
      (m : Message) (c : Connection)
      → c ≡ connection (E.memory)
      → deliver m c
        ≡ ok (record (connection (E.memory)) { write_msgs = m ∷ []; writes = wire m ∷ [] })
  unfolding deliver do_write
  first_delivered m c new = rw new refl

  handle_accept_lem :
      (i fresh : ℕ) (s : TcpServer E) (b : Backend E)
      → greet E i false s.backend ≡ (ok tt, b)
      → handle_accept E i false fresh s ≡ (ok tt, start_accept E fresh (record s { backend = b }))
  unfolding handle_accept
  handle_accept_lem i fresh s b e = ground (arith, e)

  -- The callback of an accept returns, whether it is given an error or not.
  pub handle_accept_returns :
      (i fresh : ℕ) (error : Bool) (s : TcpServer E)
      → length (E.memory) ≡ 2048
      → IsFaithful (E.rapidjson)
      → (s' : TcpServer E) × (handle_accept E i error fresh s ≡ (ok tt, s'))
  unfolding handle_accept greet
  handle_accept_returns i fresh true s full laws =
      let response = connect_to_json (E.rapidjson) greeting in
      let (m, made, _, is_text, frame) =
        assign-IsFrame (message (E.memory)) response full (greeting_text_fits (E.rapidjson) laws) in
      (start_accept E fresh s, ground (arith, made))
  handle_accept_returns i fresh false s full laws =
      let response = connect_to_json (E.rapidjson) greeting in
      let (m, made, _, is_text, frame) =
        assign-IsFrame (message (E.memory)) response full (greeting_text_fits (E.rapidjson) laws) in
      let (queued, delivered) = delivers m (s.backend.connections i) _ refl in
      (_, handle_accept_lem i fresh s _ (greet_lem i m queued s.backend made delivered))

  -- An accept without an error, of a connection that was just created, into which the allocator's next
  -- address does not fall: the connection response is being written, as a frame that decodes, the
  -- header of a first message is being read, the handler has the connection among its participants,
  -- and the next accept waits.
  pub handle_accept_greets :
      (new_connection fresh : ℕ) (s : TcpServer E)
      → length (E.memory) ≡ 2048
      → IsFaithful (E.rapidjson)
      → s.backend.connections new_connection ≡ connection (E.memory)
      → fresh ≢ new_connection
      → (m : Message) × (s' : TcpServer E) × (handle_accept E new_connection false fresh s
          ≡ (ok tt, s'))
        × (body m ≡ connect_to_json (E.rapidjson) greeting)
        × IsFrame (connect_to_json (E.rapidjson) greeting) (wire m)
        × (s'.backend.connections new_connection ≡ greeted (E.memory) m)
        × (s'.backend.participants ≡ insert_participant E new_connection s.backend.participants)
        × (s'.accepts ≡ s.accepts ++ fresh ∷ [])
  unfolding start_accept add_connection add_handler start do_read_header
  handle_accept_greets i fresh s full laws new other =
      let response = connect_to_json (E.rapidjson) greeting in
      let (m, made, _, is_text, frame) =
        assign-IsFrame (message (E.memory)) response full (greeting_text_fits (E.rapidjson) laws) in
      let queued = record (connection (E.memory)) { write_msgs = m ∷ []; writes = wire m ∷ [] } in
      let delivered = record s.backend { connections = update E s.backend.connections i queued } in
      (
        m,
        start_accept E fresh (record s { backend = add_connection E i delivered }),
        handle_accept_lem i fresh s _
            (greet_lem i m queued s.backend made (first_delivered m _ new)),
        is_text,
        frame,
        ground arith,
        refl,
        refl,
      )

  -- The state after it: the backend has one more participant, and only the connections that were accepted and
  -- created have changed.
  pub accept_lands :
      (i fresh : ℕ) (s : TcpServer E)
      → length (E.memory) ≡ 2048
      → IsFaithful (E.rapidjson)
      → s.backend.connections i ≡ connection (E.memory)
      → fresh ≢ i
      → (m : Message) × (conns : ℕ → Connection) × (handle_accept E i false fresh s ≡ (
        ok tt,
        record {
          backend = record s.backend {
            participants = insert_participant E i s.backend.participants;
            connections = conns;
          };
          accepts = s.accepts ++ fresh ∷ [];
        },
      ))
        × IsFrame (connect_to_json (E.rapidjson) greeting) (wire m)
        × (conns i ≡ greeted (E.memory) m)
        × ((j : ℕ) → i ≢ j → fresh ≢ j → conns j ≡ s.backend.connections j)
  unfolding start_accept add_connection add_handler start do_read_header
  accept_lands i fresh s full laws new other =
      let response = connect_to_json (E.rapidjson) greeting in
      let (m, made, _, is_text, frame) =
        assign-IsFrame (message (E.memory)) response full (greeting_text_fits (E.rapidjson) laws) in
      let queued = record (connection (E.memory)) { write_msgs = m ∷ []; writes = wire m ∷ [] } in
      let delivered = record s.backend { connections = update E s.backend.connections i queued } in
      (
        m,
        _,
        handle_accept_lem i fresh s _
            (greet_lem i m queued s.backend made (first_delivered m _ new)),
        frame,
        ground arith,
        λ j ne apart. ground arith,
      )
