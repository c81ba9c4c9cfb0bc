-- ===== src/Network/Growing.antt =====
-- How a network that is ready comes about: clients join one after the other, while the server accepts them.
use pocker_backend.Base.{ℕ, ◌≡◌, List, [], false}
use pocker_backend.Base.Bytes.{Bytes}
use pocker_backend.Message.{Message}
use pocker_backend.Connection.{Connection}
use pocker_backend.Handler.State.{insert_participant}
use pocker_backend.Handler.Spec.{Request}
use pocker_backend.Server.{TcpServer}
use pocker_backend.Client.{IsFifo, connect_done}
use pocker_backend.Terminal.{Console}
use pocker_backend.Network.{set}
use pocker_backend.Network.Phase.{Phase, Extra, Place, TypedAll, placed, IsFit}
use pocker_backend.Network.Holds.{Setup, programs, Net}

-- The server has one more participant.
abbrev pub with : Setup → ℕ → Setup
with S i = record S { participants = insert_participant (S.env) i (S.participants) }

-- The network has one more client, which was started with these lines to read, and the server went on.
abbrev pub grown :
    (S : Setup) → Net S → ℕ → List Bytes → Console (programs S) → TcpServer (S.env) → Net S
grown S n i lines t s = record {
  input = set n.input i lines;
  consoles = set n.consoles i (record t { conn = connect_done (S.queue) false t.conn });
  up = set n.up i [];
  down = set n.down i [];
  backend = s.backend;
}

-- A client at a phase with these requests to ask.
abbrev Stands : (S : Setup) → IsFifo (S.queue) → Phase → List Request → Place (programs S) → Type 0
Stands S fifo p asks pl =
    (x : Extra (programs S)) × (pl ≡ placed (programs S) p x)
    × IsFit (programs S) fifo p x
    × TypedAll (programs S) x.input asks
