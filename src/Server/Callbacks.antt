-- ===== src/Server/Callbacks.antt =====
-- src/net/tcp_connection.cpp: the callbacks of a connection with the handler that they call. The error
-- is the `ec` that the callback is given.
use pocker_backend.Base.{
  ℕ, List, [], ◌∷◌, Bool, true, false, take, drop, length, ltb, if◌then◌else◌,
}
use pocker_backend.Base.Bytes.{Bytes}
use pocker_backend.Base.Results.{Result, ok, err}
use pocker_backend.Message.{Message, header_length}
use pocker_backend.Connection.{
  Connection, Read, header, body, do_read_header, header_done, body_arrived, write_done,
}
use pocker_backend.Handler.State.{Env, Action, pure, lift, ◌>>=◌, ◌>>◌, update, del_connection}
use pocker_backend.Handler.Dispatch.{handle}

module _ (E : Env) where
  -- A member function of the connection at an address.
  unfoldable pub on_connection : ℕ → (Connection → Result Connection) → Action E (Unit {0})
  on_connection i f b =
      (lift (f (b.connections i)) >>= λ c b.
      (ok tt, record b { connections = update E b.connections i c }))
        b

  -- `handler_->del_connection(shared_from_this())`
  unfoldable pub drop_connection : ℕ → Action E (Unit {0})
  drop_connection i b = (ok tt, del_connection E i b)

  -- `read_msg_`, as the handler is given it
  unfoldable pub read_message : ℕ → Action E Message
  read_message i b = (ok (b.connections i).read_msg, b)

  abbrev pub forget : {A : Type 0} → Result (Connection × A) → Result Connection
  forget (ok (c, _)) = ok c
  forget (err e) = err e

  -- The callback of `do_read_header_`.
  unfoldable pub header_callback : ℕ → Bool → Bytes → Action E (Unit {0})
  unfolding drop_connection
  header_callback i true arrived = drop_connection i
  header_callback i false arrived = on_connection i (λ c. forget (header_done arrived c))

  -- The callback of `do_read_body_`.
  unfoldable pub body_callback : ℕ → Bool → Bytes → Action E (Unit {0})
  unfolding drop_connection
  body_callback i true arrived = drop_connection i
  body_callback i false arrived = do
    on_connection i (body_arrived arrived)
    msg ← read_message i
    handle E msg i
    on_connection i (λ c. ok (do_read_header c))

  -- The callback of `do_write_`.
  unfoldable pub write_callback : ℕ → Bool → Action E (Unit {0})
  unfolding drop_connection
  write_callback i true = drop_connection i
  write_callback i false = on_connection i write_done

  -- The outstanding read of a connection has completed.
  unfoldable pub end_read : ℕ → Action E (Unit {0})
  end_read i = on_connection i (λ c. ok (record c { reads = drop 1 c.reads }))

  -- Bytes arrive at a connection: the first of its outstanding reads, if there is one, takes what it
  -- waits for, and its callback runs; with fewer bytes, or no read, nothing happens. What is left of the
  -- bytes is returned.
  unfoldable pub complete_read : List Read → ℕ → Bytes → Action E Bytes
  complete_read [] i stream = pure stream
  complete_read (header ∷ _) i stream =
      if ltb (length stream) header_length
      then pure stream
      else end_read i
        >> header_callback i false (take header_length stream)
        >> pure (drop header_length stream)
  complete_read (body n ∷ _) i stream =
      if ltb (length stream) n
      then pure stream
      else end_read i >> body_callback i false (take n stream) >> pure (drop n stream)

  unfoldable pub read_arrived : ℕ → Bytes → Action E Bytes
  unfolding complete_read
  read_arrived i stream b = complete_read (b.connections i).reads i stream b

  -- The bytes of one message arrive at a connection, at which two reads complete, if they were started.
  -- What is left of the bytes is returned.
  unfoldable pub message_arrives : ℕ → Bytes → Action E Bytes
  unfolding read_arrived
  message_arrives i stream = do rest ← read_arrived i stream; read_arrived i rest
