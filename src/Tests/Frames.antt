-- ===== src/Tests/Frames.antt =====
-- Frames and connections at concrete bytes.
use pocker_backend.Base.{
  ℕ, ◌≤◌, ◌≡◌, ◌⊎◌, refl, List, [], ◌∷◌, ◌++◌, length, length-replicate, replicate, Bool,
  if◌then◌else◌, arith,
}
use pocker_backend.Base.Bytes.{Bytes, codes}
use pocker_backend.Base.Results.{ok, err, undefined}
use pocker_backend.Message.{Message, message, max_body_length, body, assign, wire}
use pocker_backend.Message.Frame.{IsValid, IsFrame, assign-IsFrame, assign_overruns}
use pocker_backend.Connection.{
  Connection, Read, connection, start, do_write, deliver, write_done, header_done,
}
use pocker_backend.Connection.Flow.{wires, IsFlowing, IsStuck}
use pocker_backend.Connection.Writing.{
  Event, delivers, completes, fails, Line, complete, step, run, run_in_order, run-IsFlowing,
  run_after_failure,
}
use pocker_backend.Connection.Reading.{IsFull, read_stream, header_done_safe}
use pocker_backend.Connection.Transfer.{texts_arrive}

abbrev memory : Bytes
memory = replicate 2048 0

memory_full : length memory ≡ 2048
memory_full = let zero_byte : ℕ = 0 in length-replicate 2048 zero_byte

abbrev fresh : Message
fresh = message memory

assign-IsFrame_example :
    (m' : Message) × (assign fresh (codes "{}") ≡ ok m')
    × IsValid m'
    × (body m' ≡ codes "{}")
    × IsFrame (codes "{}") (wire m')
assign-IsFrame_example = assign-IsFrame fresh (codes "{}") memory_full (omega arith)

abbrev long : Bytes
long = replicate 2045 65

long_enough : length long ≡ 2045
long_enough = let letter : ℕ = 65 in length-replicate 2045 letter

assign_overruns_example : assign fresh long ≡ err undefined
assign_overruns_example = assign_overruns fresh long memory_full (omega (arith, long_enough))

abbrev hi : Message
hi = record { buffer = codes "   2hi"; body_length = 2 }

abbrev schedule : List Event
schedule = delivers hi ∷ delivers hi ∷ completes ∷ delivers hi ∷ completes ∷ completes ∷ []

run_in_order_example :
    (l : Line) × (run
        (delivers hi ∷ fails ∷ delivers hi ∷ [])
        (record { conn = connection memory; written = [] })
      ≡ ok l)
    × (l.written ++ wires l.conn.write_msgs ≡ wires (hi ∷ hi ∷ []))
    × (IsFlowing l.conn.write_msgs l.conn.writes ⊎ IsStuck l.conn.write_msgs l.conn.writes)
run_in_order_example = run_in_order memory (delivers hi ∷ fails ∷ delivers hi ∷ [])

run-IsFlowing_example :
    (l : Line) × (run schedule (record { conn = connection memory; written = [] }) ≡ ok l)
    × IsFlowing l.conn.write_msgs l.conn.writes
run-IsFlowing_example = run-IsFlowing memory schedule tt

run_after_failure_example :
    (l : Line) × (run (delivers hi ∷ completes ∷ []) (record {
      conn = record (connection memory) { write_msgs = hi ∷ []; writes = [] };
      written = [];
    })
      ≡ ok l)
    × (l.written ≡ [])
    × (l.conn.write_msgs ≡ hi ∷ hi ∷ [])
    × (l.conn.writes ≡ [])
run_after_failure_example =
    run_after_failure (delivers hi ∷ completes ∷ []) (connection memory) hi [] []

header_done_safe_example :
    (c' : Connection) × (accepted : Bool) × (header_done (codes "   2") (connection memory)
      ≡ ok (c', accepted))
    × IsFull c'
    × (c'.read_msg.body_length ≤ max_body_length)
    × (c'.reads ≡ (if accepted then Read.body c'.read_msg.body_length ∷ [] else []))
header_done_safe_example = header_done_safe (codes "   2") (connection memory) memory_full refl

-- A message made from a text.
made :
    (m' : Message) × (assign fresh (codes "hi") ≡ ok m')
    × IsValid m'
    × (body m' ≡ codes "hi")
    × IsFrame (codes "hi") (wire m')
made = assign-IsFrame fresh (codes "hi") memory_full (omega arith)

abbrev sent : List Event
sent = delivers made.0 ∷ delivers made.0 ∷ completes ∷ completes ∷ []

abbrev after : Line
after = record { conn = connection memory; written = wire made.0 ++ wire made.0 }

schedule_runs : run sent (record { conn = connection memory; written = [] }) ≡ ok after
unfolding run step complete deliver do_write write_done
schedule_runs = refl

texts_arrive_example :
    read_stream 4 (start (connection memory)) after.written ≡ ok (codes "hi" ∷ codes "hi" ∷ [])
unfolding start
texts_arrive_example =
    texts_arrive memory memory (codes "hi" ∷ codes "hi" ∷ []) sent after (start (connection memory))
      memory_full (omega arith, made.1, (omega arith, made.1, refl)) schedule_runs refl
      (record { full = memory_full; reads = refl })
