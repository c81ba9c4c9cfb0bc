-- ===== src/Client.antt =====
-- components/client/client.cpp and client.h: the connection of a client program. The thread of the
-- program calls `write`, `close` and the `read` functions; the thread of the `io_context` runs what
-- they posted, and the callbacks. A started operation is on a list of the client, as in Connection.
pub mod Schedule
pub mod Sending
pub mod Receiving
use pocker_backend.Base.{
  ℕ, ◌≡◌, List, [], ◌∷◌, ◌++◌, Bool, true, false, Option, none, some, if◌then◌else◌,
}
use pocker_backend.Base.Bytes.{Bytes}
use pocker_backend.Base.Results.{Result, ok, err, undefined, ◌>>=◌}
use pocker_backend.Message.{Message, message, header_length, decode_header, wire}
use pocker_backend.Message.Cstdlib.{memcpy}
use pocker_backend.Connection.{Read, header, body, is_empty}

-- `moodycamel::BlockingReaderWriterQueue<message>`, which is not part of the repository. `none` is a
-- call that has not returned, or one that found nothing.
pub record ReaderWriterQueue : Type 1 where
  pub Queue : Type 0
  pub new_queue : Queue
  pub enqueue : Message → Queue → Queue
  pub try_dequeue : Queue → Option (Message × Queue)
  pub wait_dequeue : Queue → Option (Message × Queue)
  -- the milliseconds to wait
  pub wait_dequeue_timed : ℕ → Queue → Option (Message × Queue)
  pub size_approx : Queue → ℕ

-- What the client relies on: first in, first out.
pub record IsFifo (W : ReaderWriterQueue) : Type 0 where
  pub items : W.Queue → List Message
  pub items-new_queue : items W.new_queue ≡ []
  pub items-enqueue : (m : Message) (q : W.Queue) → items (W.enqueue m q) ≡ items q ++ m ∷ []
  pub wait_dequeue_front :
      (m : Message) (rest : List Message) (q : W.Queue)
      → items q ≡ m ∷ rest
      → (q' : W.Queue) × (W.wait_dequeue q ≡ some (m, q')) × (items q' ≡ rest)

-- What a lambda that was posted to the `io_context` does.
pub data Task : Type 0 where
  push : Message → Task
  close_socket : Task

module _ (W : ReaderWriterQueue) where
  pub record Client : Type 0 where
    pub read_msg : Message
    pub write_msgs : List Message
    pub read_messages : W.Queue
    -- was `socket_` closed
    pub is_closed : Bool
    -- posted, in order, and not yet run
    pub posted : List Task
    -- started, and not completed
    pub connects : Bool
    pub reads : List Read
    pub writes : List Bytes

  -- `do_connect_` starts the connect.
  pub do_connect : Client → Client
  do_connect c = record c { connects = true }

  -- the constructor, with what the memory held
  unfoldable pub client : Bytes → Client
  unfolding do_connect
  client garbage = do_connect (record {
    read_msg = message garbage;
    write_msgs = [];
    read_messages = W.new_queue;
    is_closed = false;
    posted = [];
    connects = false;
    reads = [];
    writes = [];
  })

  unfoldable pub write : Message → Client → Client
  write msg c = record c { posted = c.posted ++ push msg ∷ [] }

  unfoldable pub close : Client → Client
  close c = record c { posted = c.posted ++ close_socket ∷ [] }

  -- `socket_.close()`
  unfoldable pub close_now : Client → Client
  close_now c = record c { is_closed = true }

  unfoldable pub do_read_header : Client → Client
  do_read_header c = record c { reads = c.reads ++ header ∷ [] }

  unfoldable pub do_read_body : Client → Client
  do_read_body c = record c { reads = c.reads ++ body c.read_msg.body_length ∷ [] }

  unfoldable pub do_write : Client → Result Client
  do_write c = elim c.write_msgs [
    | [] ↦ err undefined
    | m ∷ _ ↦ ok (record c { writes = c.writes ++ wire m ∷ [] })
  ]

  -- A posted lambda.
  unfoldable pub run_task : Task → Client → Result Client
  unfolding do_write close_now
  run_task (push msg) c =
      let pushed = record c { write_msgs = c.write_msgs ++ msg ∷ [] } in
      if is_empty c.write_msgs then do_write pushed else ok pushed
  run_task close_socket c = ok (close_now c)

  -- The callback of `do_connect_`; an error starts nothing.
  unfoldable pub connect_done : Bool → Client → Client
  unfolding do_read_header
  connect_done error c =
      let done = record c { connects = false } in if error then done else do_read_header done

  -- The callback of `do_write_`.
  unfoldable pub write_done : Bool → Client → Result Client
  unfolding do_write close_now
  write_done true c = ok (close_now c)
  write_done false c = elim c.write_msgs [
    | [] ↦ err undefined
    | m ∷ rest ↦
        let popped = record c { write_msgs = rest } in
        if is_empty rest then ok popped else do_write popped
  ]

  -- `ec` is the first test of the callback of `do_read_header_`, and decoding the second.
  unfoldable pub after_header : Client → Message × Bool → Client
  unfolding do_read_body close_now
  after_header c (decoded, true) = do_read_body (record c { read_msg = decoded })
  after_header c (decoded, false) = close_now (record c { read_msg = decoded })

  -- The callback of `do_read_header_` without an error, after these bytes arrived.
  unfoldable pub header_done : Bytes → Client → Result Client
  unfolding after_header
  header_done arrived c = do
    buffer ← memcpy c.read_msg.buffer 0 arrived
    ok (after_header c (decode_header (record c.read_msg { buffer = buffer })))

  -- The callback of `do_read_body_` without an error, after these bytes arrived.
  unfoldable pub body_done : Bytes → Client → Result Client
  unfolding do_read_header
  body_done arrived c = do
    buffer ← memcpy c.read_msg.buffer header_length arrived
    let msg = record c.read_msg { buffer = buffer }
    ok (do_read_header (record c { read_msg = msg; read_messages = W.enqueue msg c.read_messages }))

  -- The callback of a read that failed.
  unfoldable pub read_failed : Client → Client
  unfolding close_now
  read_failed c = close_now c

  -- What a call on the queue leaves.
  after_read : Client → Option (Message × W.Queue) → Option (Message × Client)
  after_read c none = none
  after_read c (some (m, q)) = some (m, record c { read_messages = q })

  unfoldable pub read_wait : Client → Option (Message × Client)
  unfolding after_read
  read_wait c = after_read c (W.wait_dequeue c.read_messages)

  unfoldable pub read_wait_for : ℕ → Client → Option (Message × Client)
  unfolding after_read
  read_wait_for ms c = after_read c (W.wait_dequeue_timed ms c.read_messages)

  unfoldable pub read_if_avail : Client → Option (Message × Client)
  unfolding after_read
  read_if_avail c = after_read c (W.try_dequeue c.read_messages)

  unfoldable pub read_avail : Client → ℕ
  read_avail c = W.size_approx c.read_messages
