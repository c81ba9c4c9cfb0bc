-- ===== src/Server/Loop.antt =====
-- The event loop: one callback of some connection after the other, in any order. A callback that throws
-- ends the program, so that it is followed by no step.
use pocker_backend.Base.{ℕ, ◌≡◌, List, [], ◌∷◌, Bool, true, false, length}
use pocker_backend.Base.Bytes.{Bytes}
use pocker_backend.Base.Results.{ok}
use pocker_backend.Message.{header_length}
use pocker_backend.Connection.{Read}
use pocker_backend.Connection.Callbacks.{write_ended}
use pocker_backend.Handler.State.{Env, Backend, Action, ◌>>◌}
use pocker_backend.Server.{TcpServer, handle_accept}
use pocker_backend.Server.Callbacks.{
  on_connection, header_callback, body_callback, write_callback, end_read,
}

module _ (E : Env) where
  -- The outstanding write of a connection has completed.
  unfoldable pub end_write : ℕ → Action E (Unit {0})
  end_write i = on_connection E i (λ c. ok (write_ended c))

  -- The callback of a read that failed.
  unfoldable pub read_fails : Read → ℕ → Action E (Unit {0})
  read_fails Read.header i = header_callback E i true []
  read_fails (Read.body n) i = body_callback E i true []

  pub data Step : TcpServer E → TcpServer E → Type 0 where
    -- an accept, with the address of the connection that waits next
    accepts :
        {s s' : TcpServer E} (i fresh : ℕ) (error : Bool) (rest : List ℕ)
        → s.accepts ≡ i ∷ rest
        → handle_accept E i error fresh (record s { accepts = rest }) ≡ (ok tt, s')
        → Step s s'
    -- four bytes are there for a header
    reads_header :
        {s : TcpServer E} {b : Backend E} (i : ℕ) (rest : List Read) (arrived : Bytes)
        → (s.backend.connections i).reads ≡ Read.header ∷ rest
        → length arrived ≡ header_length
        → (end_read E i >> header_callback E i false arrived) s.backend ≡ (ok tt, b)
        → Step s (record s { backend = b })
    -- the announced bytes are there for a body
    reads_body :
        {s : TcpServer E} {b : Backend E} (i n : ℕ) (rest : List Read) (arrived : Bytes)
        → (s.backend.connections i).reads ≡ Read.body n ∷ rest
        → length arrived ≡ n
        → (end_read E i >> body_callback E i false arrived) s.backend ≡ (ok tt, b)
        → Step s (record s { backend = b })
    fails_read :
        {s : TcpServer E} {b : Backend E} (i : ℕ) (r : Read) (rest : List Read)
        → (s.backend.connections i).reads ≡ r ∷ rest
        → (end_read E i >> read_fails r i) s.backend ≡ (ok tt, b)
        → Step s (record s { backend = b })
    ends_write :
        {s : TcpServer E} {b : Backend E} (i : ℕ) (error : Bool) (w : Bytes) (rest : List Bytes)
        → (s.backend.connections i).writes ≡ w ∷ rest
        → (end_write i >> write_callback E i error) s.backend ≡ (ok tt, b)
        → Step s (record s { backend = b })

  -- What the loop can come to.
  pub data Reaches (start : TcpServer E) : TcpServer E → Type 0 where
    starts : Reaches start start
    then_steps : {s s' : TcpServer E} → Reaches start s → Step s s' → Reaches start s'
