-- ===== src/Tests/Networking.antt =====
-- Every client types the same line, over the stand-ins: Bob wants to register at all of them.
use pocker_backend.Base.{
  Bool, ◌+◌, ◌++◌, true, ◌==◌, ℕ, ◌≡◌, refl, [], ◌∷◌, List, false, none, arith, if◌then◌else◌,
}
use pocker_backend.Base.Bytes.{codes, c_str}
use pocker_backend.Base.Results.{ok, err}
use pocker_backend.Message.{Message}
use pocker_backend.Connection.{Connection, connection}
use pocker_backend.Database.Accounts.{view}
use pocker_backend.Handler.Branches.{hashed}
use pocker_backend.Handler.Reply.{running}
use pocker_backend.Handler.Spec.{Request}
use pocker_backend.Network.{
  Kind, reads_line, client_posts, client_wrote, server_reads, server_wrote, client_reads, run,
}
use pocker_backend.Network.Phase.{Log, idle, console_of, Extra, asked_by, texts_to}
use pocker_backend.Network.Holds.{Setup, programs, Net}
use pocker_backend.Network.Linear.{Ready, start_of, Linearized}
use pocker_backend.Network.Schedules.{run_linearizes}
use pocker_backend.Network.Rounds.{kinds, at_client}
use pocker_backend.Network.Draining.{rounds, answers_all}
use pocker_backend.Network.Races.{there, registrations, registers_once}
use pocker_backend.Network.History.{ByHistory, answers-ByHistory}
use pocker_backend.Network.Crashing.{to_server, refusal, crashes}
use pocker_backend.Tests.ToyJson.{toy_json, toy_json-IsFaithful}
use pocker_backend.Tests.ToyTable.{toy_table, toy_table-IsRelational}
use pocker_backend.Tests.Backend.{
  toy_env, config, sqlpp_config, table, users, bob, table-IsSound, memory_full,
}
use pocker_backend.Tests.Toys.{toy_queue, toy_queue-IsFifo, toy_split, toy_split-IsSplitting}
use pocker_backend.Tests.Conversing.{
  memory, memory_room, waiting, bob_fits, typed_line, fresh, types_bob,
}

abbrev pub setup : Setup
setup = record {
  env = toy_env;
  config = config;
  sqlpp_config = sqlpp_config;
  participants = 3 ∷ 7 ∷ [];
  queue = toy_queue;
  split = toy_split;
  garbage = memory;
}

abbrev at_rest : Extra (programs setup)
at_rest = record {
  input = typed_line ∷ [];
  printed = [];
  client_msg = fresh;
  queue = [];
  connects = false;
  handler = false;
  server_msg = fresh;
}

-- Clients 3 and 7 have joined; every other connection is as it was created.
abbrev pub members : ℕ → Bool
members i = if i == 3 then true else i == 7

abbrev pub conns : ℕ → Connection
conns i = if members i then waiting i else connection (toy_env.memory)

abbrev pub requests : ℕ → List Request
requests i = bob ∷ []

abbrev pub network : Net setup
network = record {
  input = λ i. typed_line ∷ [];
  consoles = λ i. console_of (programs setup) idle at_rest;
  up = λ i. [];
  down = λ i. [];
  backend = running toy_env config sqlpp_config users (3 ∷ 7 ∷ []) conns table;
}

pub network-Ready :
    Ready setup toy_queue-IsFifo members (λ i. idle) requests network users conns table
network-Ready = record {
  runs = refl;
  sound = table-IsSound;
  unasked = λ i is_in. refl;
  there = λ i is_in. (
    at_rest,
    rw is_in refl,
    record {
      client_full = memory_room;
      server_full = memory_room;
      holds = toy_queue-IsFifo.items-new_queue;
      own = tt;
    },
    (types_bob, record { small = (omega arith, omega arith, omega arith); fits = bob_fits }, refl),
  );
}

pub toy_blocks :
    (q : List Message) → toy_queue-IsFifo.items q ≡ [] → toy_queue.wait_dequeue q ≡ none
unfolding toy_queue-IsFifo
toy_blocks [] e = refl
toy_blocks (m ∷ q) e = absurd (cc)

-- Clients 3 and 7 run against each other.
abbrev schedule : List (Kind × ℕ)
schedule =
    (reads_line, 3)
    ∷ (reads_line, 7)
    ∷ (client_posts, 7)
    ∷ (client_posts, 3)
    ∷ (client_wrote, 3)
    ∷ (client_wrote, 7)
    ∷ (server_reads, 7)
    ∷ (server_reads, 3)
    ∷ (server_reads, 3)
    ∷ (server_reads, 7)
    ∷ (server_wrote, 3)
    ∷ (client_reads, 3)
    ∷ []

-- First client 3 alone as far as its answer, and then clients 3 and 7 against each other.
run_linearizes_example :
    (n' : Net setup) × (last : Net setup) × (run toy_env
        (programs setup)
        (at_client 3 kinds)
        network
      ≡ ok n')
    × (run toy_env (programs setup) schedule n' ≡ ok last)
    × (log : Log) × (new : Log) × Linearized setup
        (start_of setup members (λ i. idle) requests network users table)
        log
        n'
    × Linearized setup
        (start_of setup members (λ i. idle) requests network users table)
        (new ++ log)
        last
run_linearizes_example =
    run_linearizes setup toy_queue-IsFifo toy_json-IsFaithful toy_table-IsRelational (λ q d. refl)
      memory_full toy_split-IsSplitting memory_room toy_blocks members (λ i. idle) requests network
      users conns table (at_client 3 kinds) schedule network-Ready
      (refl, (refl, (refl, (refl, (refl, (refl, (refl, (refl, (refl, tt)))))))))
      (
        refl,
        (refl, (refl, (refl, (refl, (refl, (refl, (refl, (refl, (refl, (refl, (refl, tt))))))))))),
      )
      (omega arith)

answers_all_example :
    (last : Net setup) × (run toy_env (programs setup) (at_client 7 (rounds 2)) network ≡ ok last)
    × (last.input 7 ≡ [])
    × ((last.consoles 7).waits ≡ false)
    × (order : Log) × Linearized setup
        (start_of setup members (λ i. idle) requests network users table)
        order
        last
    × (requests 7 ≡ asked_by 7 order)
    × ((last.consoles 7).printed ≡ texts_to toy_json 7 order)
unfolding run
answers_all_example =
    answers_all setup toy_queue-IsFifo toy_json-IsFaithful toy_table-IsRelational (λ q d. refl)
      memory_full toy_split-IsSplitting memory_room toy_blocks members (λ i. idle) requests network
      network users conns table [] 7 network-Ready tt refl (omega arith) refl

-- A line that is neither a command nor a document.
abbrev mistyped : Extra (programs setup)
mistyped = record at_rest { input = codes "oops" ∷ [] }

abbrev shared : Net setup
shared = record network { input = λ i. if i == 7 then codes "oops" ∷ [] else typed_line ∷ [] }

refused : toy_env.rapidjson.has_parse_error (toy_env.rapidjson.parse (c_str (codes "oops"))) ≡ true
unfolding c_str
refused = refl

crashes_example :
    run toy_env (programs setup) (to_server 7) shared ≡ err (refusal toy_env (codes "oops"))
crashes_example =
    crashes setup toy_queue-IsFifo shared 7 toy_json-IsFaithful memory_room mistyped (codes "oops")
      [] refl
      (record {
        client_full = memory_room;
        server_full = memory_room;
        holds = toy_queue-IsFifo.items-new_queue;
        own = tt;
      })
      refl refl (omega arith) refused

registers_once_example :
    (n' : Net setup) × (run toy_env (programs setup) schedule network ≡ ok n')
    × (log : Log) × (l : Linearized setup
        (start_of setup members (λ i. idle) requests network users table)
        log
        n')
    × (there (view toy_table table (codes "b@b")) + registrations (codes "b@b") log
        ≡ there (view toy_table l.db (codes "b@b")))
registers_once_example =
    registers_once setup toy_queue-IsFifo toy_json-IsFaithful toy_table-IsRelational (λ q d. refl)
      memory_full toy_split-IsSplitting memory_room toy_blocks members (λ i. idle) requests network
      users conns table schedule (codes "b@b") network-Ready
      (
        refl,
        (refl, (refl, (refl, (refl, (refl, (refl, (refl, (refl, (refl, (refl, (refl, tt))))))))))),
      )
      (omega arith)

answers-ByHistory_example :
    (n' : Net setup) × (run toy_env (programs setup) schedule network ≡ ok n')
    × (log : Log) × Linearized setup
        (start_of setup members (λ i. idle) requests network users table)
        log
        n'
    × ByHistory (hashed toy_env config) (view toy_table table) log
answers-ByHistory_example =
    answers-ByHistory setup toy_queue-IsFifo toy_json-IsFaithful toy_table-IsRelational
      (λ q d. refl) memory_full toy_split-IsSplitting memory_room toy_blocks members (λ i. idle)
      requests network users conns table schedule network-Ready
      (
        refl,
        (refl, (refl, (refl, (refl, (refl, (refl, (refl, (refl, (refl, (refl, (refl, tt))))))))))),
      )
      (omega arith)
