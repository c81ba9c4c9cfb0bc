-- ===== src/Tests/Leaving.antt =====
-- A client that has got its answer leaves, over the stand-ins.
use pocker_backend.Base.{ℕ, ◌≡◌, ◌≢◌, refl, [], false, arith, if◌then◌else◌, drop}
use pocker_backend.Base.Results.{ok}
use pocker_backend.Connection.{Connection, header}
use pocker_backend.Handler.State.{◌>>◌}
use pocker_backend.Server.Callbacks.{end_read}
use pocker_backend.Server.Loop.{read_fails}
use pocker_backend.Network.{client_posts, act, run}
use pocker_backend.Network.Phase.{Log, idle}
use pocker_backend.Network.Holds.{programs, Net, backend_of, place}
use pocker_backend.Network.Linear.{start_of, Linearized}
use pocker_backend.Network.Rounds.{kinds, at_client, round_answers}
use pocker_backend.Network.Leaving.{quits, closed, without, leaves}
use pocker_backend.Tests.ToyJson.{toy_json-IsFaithful}
use pocker_backend.Tests.ToyTable.{toy_table-IsRelational}
use pocker_backend.Tests.Backend.{toy_env, table, users, memory_full}
use pocker_backend.Tests.Toys.{toy_queue-IsFifo, toy_split-IsSplitting}
use pocker_backend.Tests.Conversing.{memory_room}
use pocker_backend.Tests.Networking.{
  setup, network, network-Ready, members, conns, requests, toy_blocks,
}

-- Client 7 gets the answer to its request.
answered :
    (last : Net setup) × (run toy_env (programs setup) (at_client 7 kinds) network ≡ ok last)
    × ((last.consoles 7).waits ≡ false)
    × (last.input 7
        ≡ (if (network.consoles 7).waits then network.input 7 else drop 1 (network.input 7)))
    × (log : Log) × Linearized setup
        (start_of setup members (λ i. idle) requests network users table)
        log
        last
unfolding run
answered =
    round_answers setup toy_queue-IsFifo toy_json-IsFaithful toy_table-IsRelational (λ q d. refl)
      memory_full toy_split-IsSplitting memory_room toy_blocks members (λ i. idle) requests network
      network users conns table [] 7 network-Ready tt refl (omega arith) refl

leaves_example :
    (log : Log) × (l : Linearized setup
      (start_of setup members (λ i. idle) requests network users table)
      log
      answered.0)
    × (answered.0.up 7 ≡ [])
    × (answered.0.down 7 ≡ [])
    × (c : Net setup) × (act toy_env (programs setup) client_posts 7 (quits setup 7 answered.0)
        ≡ ok c)
    × (c.consoles 7 ≡ closed setup (answered.0.consoles 7))
    × (conns' : ℕ → Connection) × ((end_read toy_env 7 >> read_fails toy_env header 7) c.backend
        ≡ (ok tt, backend_of (without setup 7) l.users conns' l.db))
    × (conns' 7 ≡ record (l.conns 7) { reads = [] })
    × ((j : ℕ)
        → 7 ≢ j
        → place setup (record c { backend = backend_of (without setup 7) l.users conns' l.db }) j
          ≡ place setup answered.0 j)
leaves_example =
    leaves setup toy_queue-IsFifo toy_json-IsFaithful toy_table-IsRelational (λ q d. refl)
      memory_full toy_split-IsSplitting memory_room toy_blocks members (λ i. idle) requests network
      answered.0 users conns table (at_client 7 kinds) 7 network-Ready
      (refl, (refl, (refl, (refl, (refl, (refl, (refl, (refl, (refl, tt))))))))) refl (omega arith)
      answered.1 answered.2
