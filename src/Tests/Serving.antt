-- ===== src/Tests/Serving.antt =====
-- Starting, accepting and the participants, over the stand-ins.
use pocker_backend.Base.{ℕ, ◌≡◌, refl, [], ◌∷◌, false, none, arith}
use pocker_backend.Base.Results.{ok}
use pocker_backend.Rapidjson.{render}
use pocker_backend.Message.{Message, body, wire}
use pocker_backend.Message.Frame.{IsFrame}
use pocker_backend.Api.Responses.{connect_to_json}
use pocker_backend.Connection.{Connection, connection}
use pocker_backend.Handler.State.{Backend, insert_participant}
use pocker_backend.Handler.Reply.{running}
use pocker_backend.Server.{TcpServer, greeting, handle_accept}
use pocker_backend.Server.Accepting.{greeted, handle_accept_greets}
use pocker_backend.Server.Starting.{config_fields, sqlpp_of, start_up, start_up-running}
use pocker_backend.Tests.ToyJson.{toy_json, toy_json-IsFaithful}
use pocker_backend.Tests.Toys.{all_ports}
use pocker_backend.Tests.Backend.{toy_env, config, memory_full}

abbrev idle : Backend toy_env
idle = record {
  participants = 3 ∷ 8 ∷ [];
  db_wrkr = none;
  srv = none;
  connections = λ i. connection (toy_env.memory);
}

abbrev waiting : TcpServer toy_env
waiting = record { backend = idle; accepts = [] }

handle_accept_greets_example :
    (m : Message) × (s' : TcpServer toy_env) × (handle_accept toy_env 5 false 6 waiting
      ≡ (ok tt, s'))
    × (body m ≡ connect_to_json toy_json greeting)
    × IsFrame (connect_to_json toy_json greeting) (wire m)
    × (s'.backend.connections 5 ≡ greeted (toy_env.memory) m)
    × (s'.backend.participants ≡ insert_participant toy_env 5 (3 ∷ 8 ∷ []))
    × (s'.accepts ≡ 6 ∷ [])
handle_accept_greets_example =
    handle_accept_greets toy_env 5 6 waiting memory_full toy_json-IsFaithful refl (λ e. omega arith)

start_up-running_example :
    (conns : ℕ → Connection) × (start_up toy_env all_ports
        (render toy_json (config_fields config))
        8080
        5
      ≡ ok (record {
        backend = running toy_env config (sqlpp_of config) [] [] conns [];
        accepts = 5 ∷ [];
      }))
start_up-running_example =
    start_up-running toy_env all_ports config 8080 5 [] toy_json-IsFaithful refl
