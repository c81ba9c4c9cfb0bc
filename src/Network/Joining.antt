-- ===== src/Network/Joining.antt =====
-- A client program that was started and accepted is in the network with a greeting to print.
use pocker_backend.Base.{ℕ, ◌≡◌, ◌≢◌, refl, ap, [], true, false, length, arith}
use pocker_backend.Base.Bytes.{Bytes}
use pocker_backend.Base.Results.{ok}
use pocker_backend.Rapidjson.{IsFaithful}
use pocker_backend.Message.{Message, message}
use pocker_backend.Api.Responses.{connect_to_json}
use pocker_backend.Connection.{connection}
use pocker_backend.Handler.State.{Env}
use pocker_backend.Logger.{Spdlog}
use pocker_backend.Client.{IsFifo, client, connect_done}
use pocker_backend.Server.{TcpServer, greeting, handle_accept}
use pocker_backend.Server.Accepting.{greeting_text_fits, handle_accept_greets}
use pocker_backend.Terminal.{Tools, Options, Console, Launch, main}
use pocker_backend.Network.Phase.{answered, Extra, console_of, conn_of, IsFit}

-- The console that `main` has made when it connects.
pub main_connects :
    (T : Tools) (L : Spdlog) (vm : Options) (ip port : Bytes) (t : Console T)
    → main T L vm ≡ Launch.connects ip port t
    → t ≡ record { conn = client (T.queue) (T.memory); waits = true; printed = [] }
unfolding main
main_connects T L vm ip port t e = ground arith

-- The program has called `main` with its options, and its connect has succeeded; the server has accepted a connection
-- that was just created, into which the allocator's next address does not fall, without an error. With
-- 2048 bytes of memory for each message, and faithful documents: the client and the connection are
-- those of a client to which an answer is being written, which is the greeting; the buffers are full-size,
-- the queue is empty, and nothing was printed.
pub joins :
    (E : Env) (T : Tools) (fifo : IsFifo (T.queue)) (L : Spdlog) (vm : Options) (ip port : Bytes)
    (t : Console T) (i fresh : ℕ) (s : TcpServer E)
    → length (E.memory) ≡ 2048
    → length (T.memory) ≡ 2048
    → IsFaithful (E.rapidjson)
    → main T L vm ≡ Launch.connects ip port t
    → s.backend.connections i ≡ connection (E.memory)
    → fresh ≢ i
    → (m : Message) × (x : Extra T) × (s' : TcpServer E) × (handle_accept E i false fresh s
        ≡ (ok tt, s'))
      × (s'.backend.connections i
          ≡ conn_of T (answered (connect_to_json (E.rapidjson) greeting) m) x)
      × (record t { conn = connect_done (T.queue) false t.conn }
          ≡ console_of T (answered (connect_to_json (E.rapidjson) greeting) m) x)
      × IsFit T fifo (answered (connect_to_json (E.rapidjson) greeting) m) x
      × (x.printed ≡ [])
unfolding client connect_done
joins E T fifo L vm ip port t i fresh s full room json launched new other =
    let (m, s', accepted, _, frame, greeted_conn, _, _) =
      handle_accept_greets E i fresh s full json new other in
    let x : Extra T = record {
      input = [];
      printed = [];
      client_msg = message (T.memory);
      queue = T.queue.new_queue;
      connects = false;
      handler = true;
      server_msg = message (E.memory);
    } in
    (
      m,
      x,
      s',
      accepted,
      greeted_conn,
      ap {A = Console T} (λ t. record t { conn = connect_done (T.queue) false t.conn })
          (main_connects T L vm ip port t launched),
      record {
        client_full = room;
        server_full = full;
        holds = fifo.items-new_queue;
        own = (greeting_text_fits (E.rapidjson) json, frame);
      },
      refl,
    )
