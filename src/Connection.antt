-- ===== src/Connection.antt =====
-- src/net/tcp_connection.cpp and include/net/tcp_connection.h: one connection. Boost.Asio is no part
-- of the repository: an operation that is started is put on a list of the connection, and its
-- completion is an event that takes it off again and runs the callback.
pub mod Flow
pub mod Writing
pub mod Reading
pub mod Transfer
pub mod Delivery
pub mod Callbacks
pub mod WriteCallback
use pocker_backend.Base.{ℕ, List, [], ◌∷◌, ◌++◌, Bool, true, false, if◌then◌else◌}
use pocker_backend.Base.Bytes.{Bytes}
use pocker_backend.Base.Results.{Result, ok, err, undefined, ◌>>=◌}
use pocker_backend.Message.{Message, message, header_length, decode_header, wire}
use pocker_backend.Message.Cstdlib.{memcpy}

-- An `async_read` into the header of `read_msg_`, or of so many bytes into its body.
pub data Read : Type 0 where
  header : Read
  body : ℕ → Read

pub record Connection : Type 0 where
  -- is `handler_` set
  pub handler : Bool
  pub read_msg : Message
  -- the deque `write_msgs_`, front first
  pub write_msgs : List Message
  -- reads and writes that were started and have not completed
  pub reads : List Read
  pub writes : List Bytes

-- `create`, with what the memory held
abbrev pub connection : Bytes → Connection
connection garbage = record {
  handler = false;
  read_msg = message garbage;
  write_msgs = [];
  reads = [];
  writes = [];
}

unfoldable pub add_handler : Connection → Connection
add_handler c = record c { handler = true }

unfoldable pub do_read_header : Connection → Connection
do_read_header c = record c { reads = c.reads ++ header ∷ [] }

pub do_read_body : Connection → Connection
do_read_body c = record c { reads = c.reads ++ body c.read_msg.body_length ∷ [] }

unfoldable pub start : Connection → Connection
unfolding do_read_header
start c = do_read_header c

-- `front()` of an empty deque is undefined.
unfoldable pub do_write : Connection → Result Connection
do_write c = elim c.write_msgs [
  | [] ↦ err undefined
  | m ∷ _ ↦ ok (record c { writes = c.writes ++ wire m ∷ [] })
]

abbrev pub is_empty {ℓ} : {A : Type ℓ} → List A → Bool
is_empty [] = true
is_empty (x ∷ xs) = false

unfoldable pub deliver : Message → Connection → Result Connection
unfolding do_write
deliver m c =
    let pushed = record c { write_msgs = c.write_msgs ++ m ∷ [] } in
    if is_empty c.write_msgs then do_write pushed else ok pushed

-- The callback of `do_write_` without an error.
unfoldable pub write_done : Connection → Result Connection
unfolding do_write
write_done c = elim c.write_msgs [
  | [] ↦ err undefined
  | m ∷ rest ↦
      let popped = record c { write_msgs = rest } in
      if is_empty rest then ok popped else do_write popped
]

-- The callback of `do_read_header_` without an error, after these bytes arrived in the header. The
-- flag says whether the header was accepted; if not, nothing more is read.
after_header : Connection → Message × Bool → Connection × Bool
unfolding do_read_body
after_header c (decoded, true) = (do_read_body (record c { read_msg = decoded }), true)
after_header c (decoded, false) = (record c { read_msg = decoded }, false)

unfoldable pub header_done : Bytes → Connection → Result (Connection × Bool)
unfolding after_header
header_done arrived c = do
  buffer ← memcpy c.read_msg.buffer 0 arrived
  ok (after_header c (decode_header (record (c.read_msg) { buffer = buffer })))

-- What the callback of `do_read_body_` hands to the handler: `read_msg_` with the bytes that arrived.
unfoldable pub body_arrived : Bytes → Connection → Result Connection
body_arrived arrived c = do
  buffer ← memcpy c.read_msg.buffer header_length arrived
  ok (record c { read_msg = record (c.read_msg) { buffer = buffer } })
