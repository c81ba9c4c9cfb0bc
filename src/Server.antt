-- ===== src/Server.antt =====
-- src/net/tcp_server.cpp, include/net/tcp_server.h and the end of main.cpp: accepting connections, and
-- how the parts are put together at the start. A connection is an address; the allocator's next
-- address is an argument.
pub mod Callbacks
pub mod Arriving
pub mod Answering
pub mod Accepting
pub mod Starting
pub mod Inversion
pub mod Loop
pub mod Sane
pub mod Steps
pub mod Greeting
pub mod Invariant
pub mod Progress
use pocker_backend.Base.{ℕ, List, [], ◌∷◌, ◌++◌, Bool, true, false, some, none, if◌then◌else◌}
use pocker_backend.Base.Bytes.{Bytes}
use pocker_backend.Base.Results.{Result, ok, err}
use pocker_backend.Message.{of_string, message, assign}
use pocker_backend.Api.Values.{set_val}
use pocker_backend.Api.Responses.{ConnectResponse, connect_response, connect_to_json}
use pocker_backend.Connection.{Connection, connection}
use pocker_backend.Handler.State.{
  Env, Backend, Action, pure, lift, ◌>>=◌, ◌>>◌, update, deliver_to, add_connection,
}

pub record TcpServer (E : Env) : Type 0 where
  -- the handler, with the connections that the program holds
  pub backend : Backend E
  -- the connections that an outstanding `async_accept` waits with
  pub accepts : List ℕ

-- `resp.code = 0`
abbrev pub greeting : ConnectResponse
greeting = record { code = set_val connect_response.code 0 }

module _ (E : Env) where
  -- `tcp_server::start_accept`, with the address of the new connection
  unfoldable pub start_accept : ℕ → TcpServer E → TcpServer E
  start_accept fresh s = record {
    backend = record s.backend {
      connections = update E s.backend.connections fresh (connection (E.memory));
    };
    accepts = s.accepts ++ fresh ∷ [];
  }

  -- `handle_accept` before it calls `start_accept`
  unfoldable pub greet : ℕ → Bool → Action E (Unit {0})
  greet new_connection error = do
    msg ← lift (of_string (E.memory) (connect_to_json (E.rapidjson) greeting))
    if error
        then pure tt
        else deliver_to E new_connection msg >> λ b. (ok tt, add_connection E new_connection b)

  -- `tcp_server::handle_accept`
  unfoldable pub handle_accept : ℕ → Bool → ℕ → TcpServer E → Result (Unit {0}) × TcpServer E
  handle_accept new_connection error fresh s =
      let (r, b) = greet new_connection error s.backend in
      elim r [
        | err e ↦ (err e, record s { backend = b })
        | ok _ ↦ (ok tt, start_accept fresh (record s { backend = b }))
      ]

  -- The state before `main` builds anything.
  abbrev pub blank : TcpServer E
  blank = record {
    backend = record {
      participants = [];
      db_wrkr = none;
      srv = none;
      connections = λ i. connection (E.memory);
    };
    accepts = [];
  }
