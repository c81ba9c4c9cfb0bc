-- ===== src/Connection/Writing.antt =====
-- The write side: messages go out whole, one at a time, in the order of delivery.
use pocker_backend.Base.{
  subst, ◌⊎◌, ◌≡◌, refl, List, [], ◌∷◌, ◌++◌, Bool, true, false, append_assoc, append-nil,
}
use pocker_backend.Base.Bytes.{Bytes}
use pocker_backend.Base.Results.{Result, ok, ◌>>=◌}
use pocker_backend.Message.{Message, wire}
use pocker_backend.Connection.{Connection, connection, deliver, write_done}
use pocker_backend.Connection.Flow.{
  wires, IsFlowing, IsStuck, IsLive, Flows, Flows-push_first, Flows-push, Flows-pop_last, Flows-pop,
  Flows-stop, either_shape,
}

-- What happens on the write side: a delivery, the completion of the outstanding write, its failure.
pub data Event : Type 0 where
  delivers : Message → Event
  completes : Event
  fails : Event

-- A connection with the bytes that its completed writes have put on the wire.
pub record Line : Type 0 where
  pub conn : Connection
  pub written : Bytes

-- The outstanding write completes: it is taken off, its bytes are on the wire, the callback runs.
unfoldable pub complete : List Bytes → Line → Result Line
complete [] l = ok l
complete (w ∷ rest) l = do
  c ← write_done (record l.conn { writes = rest })
  ok (record { conn = c; written = l.written ++ w })

-- It fails: the callback pops nothing and starts nothing (`del_connection` is the handler's).
abbrev pub fail : List Bytes → Line → Line
fail [] l = l
fail (w ∷ rest) l = record l { conn = record (l.conn) { writes = rest } }

-- An event on the write side; a completion with no write outstanding does not occur.
unfoldable pub step : Event → Line → Result Line
unfolding complete
step (delivers m) l = do c ← deliver m l.conn; ok (record l { conn = c })
step completes l = complete l.conn.writes l
step fails l = ok (fail l.conn.writes l)

unfoldable pub run : List Event → Line → Result Line
run [] l = ok l
run (e ∷ es) l = do l' ← step e l; run es l'

-- The messages that were delivered, in order.
abbrev pub delivered : List Event → List Message
delivered [] = []
delivered (delivers m ∷ es) = m ∷ delivered es
delivered (completes ∷ es) = delivered es
delivered (fails ∷ es) = delivered es

abbrev pub NeverFails : List Event → Type 0
NeverFails [] = Unit
NeverFails (fails ∷ es) = ⊥
NeverFails (_ ∷ es) = NeverFails es

-- What is on the wire with what is queued is `ms`, in order.
abbrev pub InOrder : Bool → Line → List Message → Type 0
InOrder alive l ms = Flows alive l.conn.write_msgs l.conn.writes l.written ms

-- A line with these queues.
abbrev line : Connection → List Message → List Bytes → Bytes → Line
line c queue writes written = record {
  conn = record c { write_msgs = queue; writes = writes };
  written = written;
}

-- `step` succeeds with a line in order.
abbrev Steps : Event → Bool → Line → List Message → Type 0
Steps e alive l ms = (l' : Line) × (step e l ≡ ok l') × InOrder alive l' ms

deliver-InOrder :
    (m : Message) (alive : Bool) (c : Connection) (queue : List Message) (ws : List Bytes)
    (written : Bytes) (ms : List Message)
    → InOrder alive (line c queue ws written) ms
    → Steps (delivers m) alive (line c queue ws written) (ms ++ m ∷ [])
unfolding step deliver
deliver-InOrder m true c [] ws written ms h =
    (line c (m ∷ []) (ws ++ wire m ∷ []) written, refl, Flows-push_first m h)
deliver-InOrder m false c [] ws written ms h = absurd h.shape
deliver-InOrder m true c (x ∷ queue) ws written ms h =
    (line c ((x ∷ queue) ++ m ∷ []) ws written, refl, Flows-push m true x queue h)
deliver-InOrder m false c (x ∷ queue) ws written ms h =
    (line c ((x ∷ queue) ++ m ∷ []) ws written, refl, Flows-push m false x queue h)

complete-InOrder :
    (alive : Bool) (c : Connection) (queue : List Message) (ws : List Bytes) (written : Bytes)
    (ms : List Message)
    → InOrder alive (line c queue ws written) ms
    → Steps completes alive (line c queue ws written) ms
unfolding step write_done
complete-InOrder true c [] ws written ms h = (line c [] ws written, rw h.shape, h)
complete-InOrder false c [] ws written ms h = absurd h.shape
complete-InOrder true c (m ∷ []) ws written ms h =
    (line c [] [] (written ++ wire m), rw h.shape, Flows-pop_last m h)
complete-InOrder true c (m ∷ x ∷ queue) ws written ms h =
    (line c (x ∷ queue) (wire x ∷ []) (written ++ wire m), rw h.shape, Flows-pop m x queue h)
complete-InOrder false c (m ∷ queue) ws written ms h =
    (line c (m ∷ queue) ws written, rw h.shape, h)

fail-InOrder :
    (alive : Bool) (c : Connection) (queue : List Message) (ws : List Bytes) (written : Bytes)
    (ms : List Message)
    → InOrder alive (line c queue ws written) ms
    → (alive' : Bool) × Steps fails alive' (line c queue ws written) ms
unfolding step
fail-InOrder true c [] ws written ms h = (true, (line c [] ws written, rw h.shape, h))
fail-InOrder false c [] ws written ms h = absurd h.shape
fail-InOrder true c (m ∷ queue) ws written ms h =
    (false, (line c (m ∷ queue) [] written, rw h.shape, Flows-stop m queue h))
fail-InOrder false c (m ∷ queue) ws written ms h =
    (false, (line c (m ∷ queue) ws written, rw h.shape, h))

-- A whole schedule of events succeeds, and leaves the line in order.
abbrev Runs : List Event → Bool → Line → List Message → Type 0
Runs es alive l ms = (l' : Line) × (run es l ≡ ok l') × InOrder alive l' ms

run_on :
    (e : Event) (es : List Event) (alive : Bool) (l l' : Line) (ms : List Message)
    → step e l ≡ ok l'
    → Runs es alive l' ms
    → Runs (e ∷ es) alive l ms
unfolding run
run_on e es alive l l' ms stepped (last, ran, ok_last) = (last, rw stepped ran, ok_last)

-- The result of a schedule, with its shape: a line that is alive stays so unless a write fails.
abbrev Outcome : List Event → Bool → Line → List Message → Type 0
Outcome es alive l ms = (alive' : Bool) × (NeverFails es → alive' ≡ alive) × Runs es alive' l ms

run-InOrder :
    (es : List Event) (alive : Bool) (l : Line) (ms : List Message)
    → InOrder alive l ms
    → Outcome es alive l (ms ++ delivered es)
unfolding run
run-InOrder [] alive l ms h = (alive, λ _. refl, (l, refl, rw append-nil h))
run-InOrder (delivers m ∷ es) alive l ms h =
    let (l', stepped, ordered) =
      deliver-InOrder m alive l.conn l.conn.write_msgs l.conn.writes l.written ms h in
    let (alive', same, ran) = run-InOrder es alive l' (ms ++ m ∷ []) ordered in
    (
      alive',
      same,
      run_on (delivers m) es alive' l l' _ stepped
          (rw (← append_assoc ms (m ∷ []) (delivered es)) ran),
    )
run-InOrder (completes ∷ es) alive l ms h =
    let (l', stepped, ordered) =
      complete-InOrder alive l.conn l.conn.write_msgs l.conn.writes l.written ms h in
    let (alive', same, ran) = run-InOrder es alive l' ms ordered in
    (alive', same, run_on completes es alive' l l' _ stepped ran)
run-InOrder (fails ∷ es) alive l ms h =
    let (alive₁, (l', stepped, ordered)) =
      fail-InOrder alive l.conn l.conn.write_msgs l.conn.writes l.written ms h in
    let (alive', same, ran) = run-InOrder es alive₁ l' ms ordered in
    (alive', λ never. absurd never, run_on fails es alive' l l' _ stepped ran)

abbrev fresh : Bytes → Line
fresh garbage = record { conn = connection garbage; written = [] }

-- Whatever the order of deliveries, completions and failures on a new connection, nothing undefined
-- is met, the bytes on the wire are those of a first part of the delivered messages, in the order of
-- delivery, and the rest is queued; either the front of the queue is being written, and only that,
-- or messages are queued and no write is outstanding.
pub run_in_order :
    (garbage : Bytes) (es : List Event)
    → (l : Line) × (run es (record { conn = connection garbage; written = [] }) ≡ ok l)
      × (l.written ++ wires l.conn.write_msgs ≡ wires (delivered es))
      × (IsFlowing l.conn.write_msgs l.conn.writes ⊎ IsStuck l.conn.write_msgs l.conn.writes)
run_in_order garbage es =
    let (alive, same, (l, ran, ordered)) =
      run-InOrder es true (fresh garbage) [] (record { shape = refl; order = refl }) in
    (l, ran, ordered.order, either_shape alive l.conn.write_msgs l.conn.writes ordered.shape)

-- As long as no write fails, the front of the queue is always being written, and only that.
pub run-IsFlowing :
    (garbage : Bytes) (es : List Event)
    → NeverFails es
    → (l : Line) × (run es (record { conn = connection garbage; written = [] }) ≡ ok l)
      × IsFlowing l.conn.write_msgs l.conn.writes
run-IsFlowing garbage es never =
    let (alive, same, (l, ran, ordered)) =
      run-InOrder es true (fresh garbage) [] (record { shape = refl; order = refl }) in
    (l, ran, subst (λ b. IsLive b l.conn.write_msgs l.conn.writes) (same never) ordered.shape)

-- Once a write has failed, the connection writes no more: later messages only join the queue.
pub run_after_failure :
    (es : List Event) (c : Connection) (m : Message) (queue : List Message) (written : Bytes)
    → (l : Line) × (run es (line c (m ∷ queue) [] written) ≡ ok l)
      × (l.written ≡ written)
      × (l.conn.write_msgs ≡ m ∷ queue ++ delivered es)
      × (l.conn.writes ≡ [])
unfolding run step deliver
run_after_failure [] c m queue written =
    (line c (m ∷ queue) [] written, refl, refl, rw append-nil, refl)
run_after_failure (delivers x ∷ es) c m queue written =
    rw (← append_assoc queue (x ∷ []) (delivered es))
      (run_after_failure es c m (queue ++ x ∷ []) written)
run_after_failure (completes ∷ es) c m queue written = run_after_failure es c m queue written
run_after_failure (fails ∷ es) c m queue written = run_after_failure es c m queue written
