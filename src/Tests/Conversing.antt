-- ===== src/Tests/Conversing.antt =====
-- The client program and the server, over the stand-ins: Bob registers.
use pocker_backend.Base.{
  ℕ, ◌≤◌, ◌≡◌, ◌⊎◌, refl, sym, append-nil, List, [], ◌∷◌, ◌++◌, false, length, replicate, arith,
}
use pocker_backend.Base.Bytes.{Bytes, codes}
use pocker_backend.Base.Results.{ok}
use pocker_backend.Message.{Message, max_body_length, assign, body, wire}
use pocker_backend.Message.Frame.{IsValid, IsFrame, assign-IsFrame}
use pocker_backend.Api.Requests.{register_to_json}
use pocker_backend.Connection.{Connection, Read, connection}
use pocker_backend.Connection.Flow.{wires, IsFlowing, IsStuck}
use pocker_backend.Database.{TabUser}
use pocker_backend.Database.Accounts.{IsSound, view}
use pocker_backend.Handler.Spec.{text_of}
use pocker_backend.Handler.Reply.{running}
use pocker_backend.Handler.Landing.{specified, users_after}
use pocker_backend.Handler.Messages.{request_text}
use pocker_backend.Client.{Client, client}
use pocker_backend.Client.Schedule.{
  Event, writes, closes, runs, completes, fails, handed, Line, run,
}
use pocker_backend.Client.Sending.{sends_in_order}
use pocker_backend.Client.Receiving.{feed, Given, feed-Frames}
use pocker_backend.Server.Callbacks.{message_arrives}
use pocker_backend.Server.Arriving.{Elsewhere}
use pocker_backend.Server.Answering.{Answered, message_arrives-answers}
use pocker_backend.Exchange.{idle_client}
use pocker_backend.Terminal.{hash}
use pocker_backend.Terminal.Lines.{Typed, types_register}
use pocker_backend.Conversation.{tools, Conversed, conversation}
use pocker_backend.Tests.ToyJson.{toy_json, toy_json-IsFaithful}
use pocker_backend.Tests.ToyTable.{toy_table, toy_table-IsRelational}
use pocker_backend.Tests.Backend.{
  toy_env, config, sqlpp_config, table, users, bob, table-IsSound, memory_full,
}
use pocker_backend.Tests.Toys.{toy_queue, toy_queue-IsFifo, toy_split, toy_split-IsSplitting}

abbrev pub memory : Bytes
memory = replicate 2048 0

pub memory_room : length memory ≡ 2048
memory_room = refl

-- Every connection waits for a header.
abbrev pub waiting : ℕ → Connection
waiting i = record (connection memory) { reads = Read.header ∷ [] }

pub bob_fits : length (request_text toy_json bob) ≤ max_body_length
unfolding register_to_json
bob_fits = omega arith

abbrev pub typed_line : Bytes
typed_line = codes "/r;bob;b@b;pw"

abbrev pub fresh : Message
fresh = record { buffer = memory; body_length = 0 }

abbrev hi : Message
hi = record { buffer = codes "   2hi"; body_length = 2 }

pub types_bob : Typed (tools toy_env toy_queue toy_split memory) typed_line bob
unfolding hash
types_bob =
    types_register (codes "/r") (codes "bob") (codes "b@b") (codes "pw") b';' b';' b';' refl
      (refl, (refl, tt)) (refl, (refl, (refl, tt))) (refl, (refl, (refl, tt))) (refl, (refl, tt))
      (refl, (refl, (refl, tt)))

conversation_example :
    Conversed toy_env config sqlpp_config users
      (7 ∷ [])
      table
      toy_queue
      toy_split
      memory
      typed_line
      bob
      7
      waiting
      (record {
        conn = idle_client toy_queue fresh [] (Read.header ∷ []);
        waits = false;
        printed = [];
      })
conversation_example =
    conversation toy_env config sqlpp_config users (7 ∷ []) table toy_queue toy_split memory
      toy_json-IsFaithful toy_table-IsRelational table-IsSound memory_full (omega arith)
      toy_queue-IsFifo toy_split-IsSplitting memory_room typed_line bob 7 waiting fresh [] []
      types_bob (omega arith, omega arith, omega arith) bob_fits (λ q. refl)
      (record { full = refl; reads = refl; unsent = (refl, refl) }) refl
      toy_queue-IsFifo.items-new_queue

-- The message made of Bob's request.
made :
    (m : Message) × (assign fresh (request_text toy_json bob) ≡ ok m)
    × IsValid m
    × (body m ≡ request_text toy_json bob)
    × IsFrame (request_text toy_json bob) (wire m)
made = assign-IsFrame fresh (request_text toy_json bob) memory_room bob_fits

message_arrives-answers_example :
    (d : List TabUser) × (conns' : ℕ → Connection) × (message_arrives toy_env 7
        (wire made.0)
        (running toy_env config sqlpp_config users (7 ∷ []) waiting table)
      ≡ (
        ok [],
        running toy_env config sqlpp_config
            (users_after toy_env config sqlpp_config users (7 ∷ []) waiting table bob 7)
            (7 ∷ [])
            conns'
            d,
      ))
    × IsSound toy_table d
    × (view toy_table d
        ≡ (specified toy_env config sqlpp_config users (7 ∷ []) waiting table bob).0)
    × Answered
        (text_of toy_json
          (specified toy_env config sqlpp_config users (7 ∷ []) waiting table bob).1)
        (waiting 7)
        (conns' 7)
    × Elsewhere toy_env 7 waiting conns'
message_arrives-answers_example =
    message_arrives-answers toy_env config sqlpp_config users (7 ∷ []) table toy_json-IsFaithful
      toy_table-IsRelational table-IsSound memory_full (omega arith) waiting bob 7 (wire made.0)
      (λ q. refl) (omega arith, omega arith, omega arith) bob_fits made.4 refl refl

abbrev schedule : List Event
schedule = writes hi ∷ writes hi ∷ runs ∷ closes ∷ completes ∷ runs ∷ fails ∷ runs ∷ []

sends_in_order_example :
    (l : Line toy_queue) × (run toy_queue schedule
        (record { conn = client toy_queue memory; sent = [] })
      ≡ ok l)
    × (l.sent ++ wires (l.conn.write_msgs ++ handed l.conn.posted) ≡ wires (hi ∷ hi ∷ []))
    × (IsFlowing l.conn.write_msgs l.conn.writes ⊎ IsStuck l.conn.write_msgs l.conn.writes)
sends_in_order_example = sends_in_order toy_queue memory schedule

feed-Frames_example :
    (c' : Client toy_queue) × (feed toy_queue 2
        (idle_client toy_queue fresh [] (Read.header ∷ []))
        (wire made.0)
      ≡ ok c')
    × Given toy_queue toy_queue-IsFifo
        (request_text toy_json bob ∷ [])
        (idle_client toy_queue fresh [] (Read.header ∷ []))
        c'
feed-Frames_example =
    feed-Frames toy_queue toy_queue-IsFifo (request_text toy_json bob ∷ [])
      (idle_client toy_queue fresh [] (Read.header ∷ [])) (wire made.0) memory_room refl refl
      (wire made.0, [], sym (append-nil (wire made.0)), bob_fits, made.4, refl)
