-- ===== src/Tests/Looping.antt =====
-- The event loop over the stand-ins: the server starts, and a first connection is accepted.
use pocker_backend.Base.{◌≡◌, ◌⊎◌, ap, refl, [], ◌∷◌, false, arith}
use pocker_backend.Base.Bytes.{Bytes, codes}
use pocker_backend.Base.Results.{ok}
use pocker_backend.Rapidjson.{render}
use pocker_backend.Message.{Message, body, wire}
use pocker_backend.Message.Frame.{IsFrame}
use pocker_backend.Api.Responses.{connect_to_json}
use pocker_backend.Connection.{Connection, connection}
use pocker_backend.Handler.State.{update, insert_participant}
use pocker_backend.Handler.Reply.{running}
use pocker_backend.Server.{TcpServer, greeting, blank, handle_accept}
use pocker_backend.Server.Accepting.{greeted, handle_accept_greets}
use pocker_backend.Server.Starting.{config_fields, sqlpp_of, start_up, start_up_lem}
use pocker_backend.Server.Loop.{starts, then_steps, accepts}
use pocker_backend.Server.Invariant.{Invariant, Reaches-Invariant}
use pocker_backend.Server.Progress.{Pending, header_there, StepsOn, HandlerThrows, Reaches-StepsOn}
use pocker_backend.Tests.ToyJson.{toy_json, toy_json-IsFaithful}
use pocker_backend.Tests.Toys.{all_ports}
use pocker_backend.Tests.Backend.{toy_env, config, memory_full}

abbrev content : Bytes
content = render toy_json (config_fields config)

abbrev new : Connection
new = connection (toy_env.memory)

abbrev pub started : TcpServer toy_env
started = record {
  backend =
      running toy_env config (sqlpp_of config) [] []
        (update toy_env (blank toy_env).backend.connections 5 new) [];
  accepts = 5 ∷ [];
}

starts_up : start_up toy_env all_ports content 8080 5 ≡ ok started
starts_up = start_up_lem toy_env all_ports config 8080 5 [] toy_json-IsFaithful refl refl

-- The state before the first accept runs its callback.
abbrev pub accepting : TcpServer toy_env
accepting = record started { accepts = [] }

accepted :
    (m : Message) × (s' : TcpServer toy_env) × (handle_accept toy_env 5 false 6 accepting
      ≡ (ok tt, s'))
    × (body m ≡ connect_to_json toy_json greeting)
    × IsFrame (connect_to_json toy_json greeting) (wire m)
    × (s'.backend.connections 5 ≡ greeted (toy_env.memory) m)
    × (s'.backend.participants ≡ insert_participant toy_env 5 [])
    × (s'.accepts ≡ 6 ∷ [])
accepted =
    handle_accept_greets toy_env 5 6 accepting memory_full toy_json-IsFaithful refl
      (λ e. omega arith)

Reaches-Invariant_example : Invariant accepted.1
Reaches-Invariant_example =
    Reaches-Invariant all_ports content 8080 5 started accepted.1 memory_full starts_up
      (then_steps starts (accepts 5 6 false [] refl accepted.2))

-- A header arrives at the connection that was accepted.
abbrev arriving : Pending accepted.1
arriving = header_there 5 [] (codes "   2") (ap (λ c. c.reads) accepted.5) refl

Reaches-StepsOn_example : StepsOn accepted.1 arriving ⊎ HandlerThrows accepted.1 arriving
Reaches-StepsOn_example =
    Reaches-StepsOn all_ports content 8080 5 started accepted.1 arriving memory_full
      toy_json-IsFaithful starts_up (then_steps starts (accepts 5 6 false [] refl accepted.2))
