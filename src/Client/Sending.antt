-- ===== src/Client/Sending.antt =====
-- The write side: what the program passes to `write` goes out whole, one message at a time, in order.
use pocker_backend.Base.{
  ◌⊎◌, ◌≡◌, refl, sym, ap, ◌∙◌, List, [], ◌∷◌, ◌++◌, Bool, true, false, append_assoc, append-nil,
}
use pocker_backend.Base.Bytes.{Bytes}
use pocker_backend.Base.Results.{ok}
use pocker_backend.Message.{Message, wire}
use pocker_backend.Connection.Flow.{
  wires, wires-append, IsFlowing, IsStuck, Flows, Flows-push_first, Flows-push, Flows-pop_last,
  Flows-pop, Flows-stop, either_shape,
}
use pocker_backend.Client.{
  ReaderWriterQueue, Client, Task, push, close_socket, client, write, close, run_task, write_done,
}
use pocker_backend.Client.Schedule.{
  Event, writes, closes, runs, completes, fails, passed, handed, handed-append, passed-cons, Line,
  step, run,
}

module _ (W : ReaderWriterQueue) where
  -- What was sent, queued and posted is `ms`, in order.
  record InOrder (l : Line W) (ms : List Message) : Type 0 where
    alive : Bool
    taken : List Message
    flow : Flows alive l.conn.write_msgs l.conn.writes l.sent taken
    all : taken ++ handed l.conn.posted ≡ ms

  abbrev Steps : Event → Line W → List Message → Type 0
  Steps e l ms = (l' : Line W) × (step W e l ≡ ok l') × InOrder l' ms

  writes-InOrder :
      (m : Message) (l : Line W) (ms : List Message)
      → InOrder l ms
      → Steps (writes m) l (ms ++ m ∷ [])
  unfolding step write
  writes-InOrder m l ms h = (
    record l { conn = write W m l.conn },
    refl,
    record {
      alive = h.alive;
      taken = h.taken;
      flow = h.flow;
      all =
          ap (λ x. h.taken ++ x) (handed-append l.conn.posted (push m ∷ []))
          ∙ sym (append_assoc h.taken (handed l.conn.posted) (m ∷ []))
          ∙ ap (λ x. x ++ m ∷ []) h.all;
    },
  )

  closes-InOrder : (l : Line W) (ms : List Message) → InOrder l ms → Steps closes l ms
  unfolding step close
  closes-InOrder l ms h = (
    record l { conn = close W l.conn },
    refl,
    record {
      alive = h.alive;
      taken = h.taken;
      flow = h.flow;
      all =
          ap (λ x. h.taken ++ x)
            (handed-append l.conn.posted (close_socket ∷ []) ∙ append-nil (handed l.conn.posted))
          ∙ h.all;
    },
  )

  -- A line with these queues.
  abbrev line : Client W → List Task → List Message → List Bytes → Bytes → Line W
  line c ts queue ws sent = record {
    conn = record c { posted = ts; write_msgs = queue; writes = ws };
    sent = sent;
  }

  in_order :
      (l : Line W) (ms : List Message)
      → InOrder l ms
      → l.sent ++ wires (l.conn.write_msgs ++ handed l.conn.posted) ≡ wires ms
  in_order l ms h =
      ap (λ x. l.sent ++ x) (wires-append l.conn.write_msgs (handed l.conn.posted))
      ∙ sym (append_assoc l.sent (wires l.conn.write_msgs) (wires (handed l.conn.posted)))
      ∙ ap (λ x. x ++ wires (handed l.conn.posted)) h.flow.order
      ∙ sym (wires-append h.taken (handed l.conn.posted))
      ∙ ap wires h.all

  module _ (c : Client W) (ws : List Bytes) (sent : Bytes) (ms : List Message) where
    -- The line after its write failed: nothing is written, and the socket is closed.
    abbrev stopped : List Task → List Message → Line W
    stopped ts queue = record {
      conn = record c { posted = ts; write_msgs = queue; writes = []; is_closed = true };
      sent = sent;
    }

    push-InOrder :
        (alive : Bool) (taken : List Message) (m : Message) (ts : List Task) (queue : List Message)
        → Flows alive queue ws sent taken
        → taken ++ handed (push m ∷ ts) ≡ ms
        → Steps runs (line c (push m ∷ ts) queue ws sent) ms
    unfolding step run_task
    push-InOrder true taken m ts [] flow all = (
      line c ts (m ∷ []) (ws ++ wire m ∷ []) sent,
      refl,
      record {
        alive = true;
        taken = taken ++ m ∷ [];
        flow = Flows-push_first m flow;
        all = append_assoc taken (m ∷ []) (handed ts) ∙ all;
      },
    )
    push-InOrder false taken m ts [] flow all = absurd flow.shape
    push-InOrder alive taken m ts (x ∷ queue) flow all = (
      line c ts ((x ∷ queue) ++ m ∷ []) ws sent,
      refl,
      record {
        alive = alive;
        taken = taken ++ m ∷ [];
        flow = Flows-push m alive x queue flow;
        all = append_assoc taken (m ∷ []) (handed ts) ∙ all;
      },
    )

    runs-InOrder :
        (alive : Bool) (taken : List Message) (ts : List Task) (queue : List Message)
        → Flows alive queue ws sent taken
        → taken ++ handed ts ≡ ms
        → Steps runs (line c ts queue ws sent) ms
    unfolding step run_task
    runs-InOrder alive taken [] queue flow all = (
      line c [] queue ws sent,
      refl,
      record { alive = alive; taken = taken; flow = flow; all = all },
    )
    runs-InOrder alive taken (close_socket ∷ ts) queue flow all = (
      record {
        conn = record c { posted = ts; write_msgs = queue; writes = ws; is_closed = true };
        sent = sent;
      },
      refl,
      record { alive = alive; taken = taken; flow = flow; all = all },
    )
    runs-InOrder alive taken (push m ∷ ts) queue flow all =
        push-InOrder alive taken m ts queue flow all

    ends-InOrder :
        (alive : Bool) (taken : List Message) (ts : List Task) (queue : List Message)
        → Flows alive queue ws sent taken
        → taken ++ handed ts ≡ ms
        → Steps completes (line c ts queue ws sent) ms × Steps fails (line c ts queue ws sent) ms
    unfolding step write_done
    ends-InOrder true taken ts [] flow all =
        let l : Line W = line c ts [] ws sent in
        let same : InOrder l ms = record { alive = true; taken = taken; flow = flow; all = all } in
        ((l, rw flow.shape, same), (l, rw flow.shape, same))
    ends-InOrder false taken ts [] flow all = absurd flow.shape
    ends-InOrder false taken ts (m ∷ queue) flow all =
        let l : Line W = line c ts (m ∷ queue) ws sent in
        let same : InOrder l ms = record { alive = false; taken = taken; flow = flow; all = all } in
        ((l, rw flow.shape, same), (l, rw flow.shape, same))
    ends-InOrder true taken ts (m ∷ []) flow all = (
      (
        line c ts [] [] (sent ++ wire m),
        rw flow.shape,
        record { alive = true; taken = taken; flow = Flows-pop_last m flow; all = all },
      ),
      (
        stopped ts (m ∷ []),
        rw flow.shape,
        record { alive = false; taken = taken; flow = Flows-stop m [] flow; all = all },
      ),
    )
    ends-InOrder true taken ts (m ∷ x ∷ queue) flow all = (
      (
        line c ts (x ∷ queue) (wire x ∷ []) (sent ++ wire m),
        rw flow.shape,
        record { alive = true; taken = taken; flow = Flows-pop m x queue flow; all = all },
      ),
      (
        stopped ts (m ∷ x ∷ queue),
        rw flow.shape,
        record { alive = false; taken = taken; flow = Flows-stop m (x ∷ queue) flow; all = all },
      ),
    )

  step-InOrder :
      (e : Event) (l : Line W) (ms : List Message)
      → InOrder l ms
      → Steps e l (ms ++ passed (e ∷ []))
  step-InOrder (writes m) l ms h = writes-InOrder m l ms h
  step-InOrder closes l ms h = rw append-nil (closes-InOrder l ms h)
  step-InOrder runs l ms h = rw append-nil (
      runs-InOrder l.conn l.conn.writes l.sent ms h.alive h.taken l.conn.posted l.conn.write_msgs
        h.flow h.all)
  step-InOrder completes l ms h = rw append-nil (
      (ends-InOrder l.conn l.conn.writes l.sent ms h.alive h.taken l.conn.posted l.conn.write_msgs
        h.flow h.all).0)
  step-InOrder fails l ms h = rw append-nil (
      (ends-InOrder l.conn l.conn.writes l.sent ms h.alive h.taken l.conn.posted l.conn.write_msgs
        h.flow h.all).1)

  run-InOrder :
      (es : List Event) (l : Line W) (ms : List Message)
      → InOrder l ms
      → (l' : Line W) × (run W es l ≡ ok l') × InOrder l' (ms ++ passed es)
  unfolding run
  run-InOrder [] l ms h = (l, refl, rw append-nil h)
  run-InOrder (e ∷ es) l ms h =
      let (l₁, stepped, h₁) = step-InOrder e l ms h in
      let (l₂, ran, h₂) = run-InOrder es l₁ (ms ++ passed (e ∷ [])) h₁ in
      (
        l₂,
        rw stepped ran,
        rw (passed-cons e es, ← append_assoc ms (passed (e ∷ [])) (passed es)) h₂,
      )

  -- On a new client, whatever the order in which the program writes and closes, the posted lambdas run, and writes
  -- complete or fail, nothing undefined is met; the bytes on the wire, then the queued messages, then
  -- those of the lambdas that have not run are the messages passed to `write`, in order; and either
  -- the front of the queue is being written, and only that, or no write is outstanding.
  pub sends_in_order :
      (garbage : Bytes) (es : List Event)
      → (l : Line W) × (run W es (record { conn = client W garbage; sent = [] }) ≡ ok l)
        × (l.sent ++ wires (l.conn.write_msgs ++ handed l.conn.posted) ≡ wires (passed es))
        × (IsFlowing l.conn.write_msgs l.conn.writes ⊎ IsStuck l.conn.write_msgs l.conn.writes)
  unfolding client
  sends_in_order garbage es =
      let fresh : Line W = record { conn = client W garbage; sent = [] } in
      let start : InOrder fresh [] = record {
        alive = true;
        taken = [];
        flow = record { shape = refl; order = refl };
        all = refl;
      } in
      let (l, ran, h) = run-InOrder es fresh [] start in
      (
        l,
        ran,
        in_order l (passed es) h,
        either_shape h.alive l.conn.write_msgs l.conn.writes h.flow.shape,
      )
