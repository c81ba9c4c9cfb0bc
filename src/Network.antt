-- ===== src/Network.antt =====
-- Any number of client programs and the server, over their sockets: client/main.cpp, the client, the
-- connections and the handler, in any interleaving. The client program of a number is connected to the
-- connection at that address.
pub mod Phase
pub mod Stage
pub mod Holds
pub mod ClientSide
pub mod MainSide
pub mod ClientReading
pub mod ServerReads
pub mod ServerSide
pub mod Handling
pub mod Serving
pub mod Linear
pub mod Schedules
pub mod Rounds
pub mod Joining
pub mod Growing
pub mod Crashing
pub mod Draining
pub mod Races
pub mod History
pub mod Leaving
use pocker_backend.Base.{
  ℕ, List, [], ◌∷◌, ◌++◌, false, none, some, if◌then◌else◌, length, take, drop, ltb, ◌==◌,
}
use pocker_backend.Base.Bytes.{Bytes}
use pocker_backend.Base.Results.{Result, ok, err, ◌>>=◌}
use pocker_backend.Message.{header_length}
use pocker_backend.Connection.{Connection, Read}
use pocker_backend.Handler.State.{Env, Backend, Action, ◌>>◌}
use pocker_backend.Server.Callbacks.{end_read, header_callback, body_callback, write_callback}
use pocker_backend.Server.Loop.{end_write}
use pocker_backend.Client.{Client, header_done, body_done}
use pocker_backend.Client.Schedule.{Event, runs, completes, step}
use pocker_backend.Terminal.{Tools, Console, line_read, answer_read}

-- A family with another value at one index.
abbrev pub set {ℓ} : {A : Type ℓ} → (ℕ → A) → ℕ → A → ℕ → A
set f i a j = if i == j then a else f j

-- The bytes that a read waits for.
abbrev pub size_of : Read → ℕ
size_of Read.header = header_length
size_of (Read.body n) = n

-- What can happen at a client or its connection: the loop of `main` reads a line, a posted lambda
-- runs, a write of the client completes, a read of the server, a write of the server, a read of the
-- client, and `read_wait` returns. What cannot happen at the moment leaves the network as it is.
pub data Kind : Type 0 where
  reads_line client_posts client_wrote server_reads server_wrote client_reads prints : Kind

module _ (E : Env) (T : Tools) where
  pub record Network : Type 0 where
    -- the lines that `std::getline` has not read, the programs, the bytes on their way to the server
    -- and back, each by the number of the client
    pub input : ℕ → List Bytes
    pub consoles : ℕ → Console T
    pub up : ℕ → Bytes
    pub down : ℕ → Bytes
    pub backend : Backend E

  abbrev pub callback : Read → ℕ → Bytes → Action E (Unit {0})
  callback Read.header i arrived = header_callback E i false arrived
  callback (Read.body n) i arrived = body_callback E i false arrived

  abbrev pub client_callback : Read → Bytes → Client (T.queue) → Result (Client (T.queue))
  client_callback Read.header arrived c = header_done (T.queue) arrived c
  client_callback (Read.body n) arrived c = body_done (T.queue) arrived c

  -- An action of the server; a throw ends it.
  abbrev pub run_action : {A : Type 0} → Result A × Backend E → Result (Backend E)
  run_action (ok a, b) = ok b
  run_action (err e, b) = err e

  unfoldable pub take_line : List Bytes → ℕ → Network → Result Network
  take_line [] i n = ok n
  take_line (line ∷ rest) i n =
      if (n.consoles i).waits
      then ok n
      else (line_read T line (n.consoles i) >>= λ t.
          ok (record n { input = set n.input i rest; consoles = set n.consoles i t }))

  unfoldable pub client_step : Event → ℕ → Network → Result Network
  client_step e i n =
      step (T.queue) e (record { conn = (n.consoles i).conn; sent = n.up i }) >>= λ l.
      ok (record n {
        consoles = set n.consoles i (record (n.consoles i) { conn = l.conn });
        up = set n.up i l.sent;
      })

  unfoldable pub server_read : List Read → ℕ → Network → Result Network
  server_read [] i n = ok n
  server_read (r ∷ _) i n =
      if ltb (length (n.up i)) (size_of r)
      then ok n
      else (run_action ((end_read E i >> callback r i (take (size_of r) (n.up i))) n.backend)
          >>= λ b. ok (record n { backend = b; up = set n.up i (drop (size_of r) (n.up i)) }))

  unfoldable pub server_write : List Bytes → ℕ → Network → Result Network
  server_write [] i n = ok n
  server_write (w ∷ _) i n =
      run_action ((end_write E i >> write_callback E i false) n.backend) >>= λ b.
      ok (record n { backend = b; down = set n.down i (n.down i ++ w) })

  unfoldable pub client_read : List Read → ℕ → Network → Result Network
  client_read [] i n = ok n
  client_read (r ∷ rest) i n =
      let t = n.consoles i in
      if ltb (length (n.down i)) (size_of r)
      then ok n
      else (client_callback r (take (size_of r) (n.down i)) (record t.conn { reads = rest })
          >>= λ c. ok (record n {
            consoles = set n.consoles i (record t { conn = c });
            down = set n.down i (drop (size_of r) (n.down i));
          }))

  unfoldable pub print : ℕ → Network → Result Network
  print i n =
      if (n.consoles i).waits
      then elim (answer_read T (n.consoles i)) [
        | none ↦ ok n
        | some t ↦ ok (record n { consoles = set n.consoles i t })
      ]
      else ok n

  unfoldable pub act : Kind → ℕ → Network → Result Network
  unfolding take_line client_step server_read server_write client_read print
  act reads_line i n = take_line (n.input i) i n
  act client_posts i n = client_step runs i n
  act client_wrote i n = client_step completes i n
  act server_reads i n = server_read (n.backend.connections i).reads i n
  act server_wrote i n = server_write (n.backend.connections i).writes i n
  act client_reads i n = client_read (n.consoles i).conn.reads i n
  act prints i n = print i n

  -- A schedule: what happens, and at which client.
  unfoldable pub run : List (Kind × ℕ) → Network → Result Network
  run [] n = ok n
  run ((k, i) ∷ ks) n = do n' ← act k i n; run ks n'
