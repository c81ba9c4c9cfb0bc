-- ===== src/Tests/Joining.antt =====
-- A client program starts and is accepted, over the stand-ins.
use pocker_backend.Base.{◌≡◌, refl, [], some, false, true, arith}
use pocker_backend.Base.Bytes.{codes}
use pocker_backend.Base.Results.{ok}
use pocker_backend.Message.{Message}
use pocker_backend.Api.Responses.{connect_to_json}
use pocker_backend.Client.{client, connect_done}
use pocker_backend.Program.{check_verbose, verbosity}
use pocker_backend.Server.{TcpServer, greeting, handle_accept, blank}
use pocker_backend.Terminal.{Tools, Options, Console, Launch, main}
use pocker_backend.Conversation.{tools}
use pocker_backend.Network.Phase.{answered, Extra, console_of, conn_of, IsFit}
use pocker_backend.Network.Joining.{joins}
use pocker_backend.Tests.ToyJson.{toy_json, toy_json-IsFaithful}
use pocker_backend.Tests.Backend.{toy_env, memory_full}
use pocker_backend.Tests.Toys.{toy_queue, toy_queue-IsFifo, toy_split, toy_spdlog}
use pocker_backend.Tests.Conversing.{memory, memory_room}

abbrev program : Tools
program = tools toy_env toy_queue toy_split memory

abbrev pub options : Options
options = record {
  help = false;
  ip = some (codes "127.0.0.1");
  port = some (codes "4000");
  verbose = some 1;
}

abbrev pub console : Console program
console = record { conn = client toy_queue memory; waits = true; printed = [] }

pub launched :
    main program toy_spdlog options ≡ Launch.connects (codes "127.0.0.1") (codes "4000") console
unfolding main check_verbose verbosity
launched = refl

joins_example :
    (m : Message) × (x : Extra program) × (s' : TcpServer toy_env) × (handle_accept toy_env 5 false
        6
        (blank toy_env)
      ≡ (ok tt, s'))
    × (s'.backend.connections 5
        ≡ conn_of program (answered (connect_to_json toy_json greeting) m) x)
    × (record console { conn = connect_done toy_queue false (client toy_queue memory) }
        ≡ console_of program (answered (connect_to_json toy_json greeting) m) x)
    × IsFit program toy_queue-IsFifo (answered (connect_to_json toy_json greeting) m) x
    × (x.printed ≡ [])
joins_example =
    joins toy_env program toy_queue-IsFifo toy_spdlog options (codes "127.0.0.1") (codes "4000")
      console 5 6 (blank toy_env) memory_full memory_room toy_json-IsFaithful launched refl
      (λ e. omega arith)
