-- ===== src/Network/MainSide.antt =====
-- The thread of `main` at a client: it reads a line, or it prints an answer.
use pocker_backend.Base.{
  ℕ, ◌≡◌, refl, ap, ◌∙◌, List, [], ◌∷◌, ◌++◌, ==_refl, true, false, none, some, length, append-nil,
  Bool-cases, inl, inr,
}
use pocker_backend.Base.Bytes.{Bytes}
use pocker_backend.Base.Results.{ok}
use pocker_backend.Handler.Spec.{Request}
use pocker_backend.Message.{Message, body}
use pocker_backend.Client.{IsFifo, write, read_wait}
use pocker_backend.Terminal.{Console, answer_read}
use pocker_backend.Terminal.Words.{IsSplitting}
use pocker_backend.Terminal.Lines.{line_read-Typed}
use pocker_backend.Network.{act, take_line, print, set, reads_line, prints}
use pocker_backend.Network.Stage.{stage, advance, left, ==_apart}
use pocker_backend.Network.Phase.{
  Log, Phase, idle, posted, writing, sent, announced, answered, replied, told, queued, waits_of,
  items_of, console_of, Extra, Place, TypedAll, asked_by,
}
use pocker_backend.Network.Holds.{Setup, programs, Start, Net, Holds, Acts, moves, seat_at, stays}

module _ {S : Setup} {fifo : IsFifo (S.queue)} {start : Start} {log : Log}
    (splits : IsSplitting (S.split)) (room : length (S.garbage) ≡ 2048) (used : ℕ)
    (phases : ℕ → Phase) (n : Net S) (h : Holds S fifo start used phases log n) (i : ℕ)
    (is_in : start.joined i ≡ true) where
  busy_takes :
      (lines : List Bytes)
      → (n.consoles i).waits ≡ true
      → take_line (S.env) (programs S) lines i n ≡ ok n
  unfolding take_line
  busy_takes [] busy = refl
  busy_takes (line ∷ lines) busy = rw busy refl

  line_waits :
      (p : Phase)
      → phases i ≡ p
      → waits_of p ≡ true
      → stage p ≡ advance reads_line (stage p) (n.input i)
      → n.input i ≡ left reads_line (stage p) (n.input i)
      → Acts S fifo start used phases log reads_line i p n
  unfolding act
  line_waits p is busy at_rest same =
      let seat = seat_at S fifo start used phases n h i is_in p is in
      stays S fifo start used phases n h i is_in n reads_line p
        (busy_takes (n.input i) (ap (λ pl. pl.console.waits) seat.is ∙ busy)) is at_rest same refl
        (λ j. refl)

  -- `main` waits for a line, and there is one: its request is posted.
  typed-Acts :
      (lines : List Bytes) (todo : List Request)
      → phases i ≡ idle
      → n.input i ≡ lines
      → TypedAll (programs S) lines todo
      → start.requests i ≡ asked_by i log ++ todo
      → (p' : Phase) × Acts S fifo start used phases log reads_line i p' n
  unfolding act take_line write
  typed-Acts [] todo is input typed asks = (
    idle,
    stays S fifo start used phases n h i is_in n reads_line idle (rw input refl) is (rw input refl)
        (rw input refl) refl (λ j. refl),
  )
  typed-Acts (line ∷ lines) [] is input typed asks = absurd typed
  typed-Acts (line ∷ lines) (q ∷ todo) is input (typed, sendable, rest) asks =
      let seat = seat_at S fifo start used phases n h i is_in idle is in
      let x : Extra (programs S) = record seat.extra { input = lines } in
      let (m, sends, made, _, frame) =
        line_read-Typed (programs S) room splits line q (console_of (programs S) idle x) typed
          sendable.fits in
      let after = console_of (programs S) (posted q m) x in
      let n' : Net S = record n {
        input = set n.input i lines;
        consoles = set n.consoles i after;
      } in
      (
        posted q m,
        moves S fifo start used phases n n' h h.conns reads_line i (posted q m)
            (rw (input, ap (λ pl. pl.console) seat.is, sends) refl) (rw (is, input) refl)
            (rw (is, input, ==_refl i) refl) h.runs
            (record {
              extra = x;
              is = rw (==_refl i) (
                  ap {A = Place (programs S)} (λ pl. record pl { input = lines; console = after })
                    seat.is);
              fit = record {
                client_full = seat.fit.client_full;
                server_full = seat.fit.server_full;
                holds = seat.fit.holds;
                own = (sendable, frame);
              };
              todo = todo;
              typed = rest;
              asks = asks;
              shown = seat.shown;
            })
            (λ j ne. rw (==_apart i j ne) refl),
      )

  pub reads_line-Acts :
      (p : Phase)
      → phases i ≡ p
      → (p' : Phase) × Acts S fifo start used phases log reads_line i p' n
  reads_line-Acts idle is =
      let seat = seat_at S fifo start used phases n h i is_in idle is in
      typed-Acts seat.extra.input seat.todo is (ap (λ pl. pl.input) seat.is) seat.typed seat.asks
  reads_line-Acts (posted q m) is = (_, line_waits (posted q m) is refl refl refl)
  reads_line-Acts (writing q m) is = (_, line_waits (writing q m) is refl refl refl)
  reads_line-Acts (sent q m) is = (_, line_waits (sent q m) is refl refl refl)
  reads_line-Acts (announced q) is = (_, line_waits (announced q) is refl refl refl)
  reads_line-Acts (answered t m) is = (_, line_waits (answered t m) is refl refl refl)
  reads_line-Acts (replied t m) is = (_, line_waits (replied t m) is refl refl refl)
  reads_line-Acts (told t) is = (_, line_waits (told t) is refl refl refl)
  reads_line-Acts (queued t m) is = (_, line_waits (queued t m) is refl refl refl)

  print-some :
      (t after : Console (programs S))
      → n.consoles i ≡ t
      → t.waits ≡ true
      → answer_read (programs S) t ≡ some after
      → print (S.env) (programs S) i n ≡ ok (record n { consoles = set n.consoles i after })
  unfolding print
  print-some t after e busy read = rw (e, read, busy) refl

  answer_found :
      (t : Console (programs S)) (m : Message) (q : S.queue.Queue)
      → S.queue.wait_dequeue t.conn.read_messages ≡ some (m, q)
      → answer_read (programs S) t
        ≡ some (record {
          conn = record t.conn { read_messages = q };
          waits = false;
          printed = t.printed ++ body m ∷ [];
        })
  unfolding answer_read read_wait
  answer_found t m q e = rw (answer_read, e) refl

  module _ (blocks : (q : S.queue.Queue) → fifo.items q ≡ [] → S.queue.wait_dequeue q ≡ none) where
    -- There is no message to print.
    print_waits :
        (p : Phase)
        → phases i ≡ p
        → items_of p ≡ []
        → stage p ≡ advance prints (stage p) (n.input i)
        → Acts S fifo start used phases log prints i p n
    unfolding act print answer_read read_wait
    print_waits p is no_item at_rest =
        let seat = seat_at S fifo start used phases n h i is_in p is in
        let stuck = blocks seat.extra.queue (seat.fit.holds ∙ no_item) in
        let nothing : print (S.env) (programs S) i n ≡ ok n =
          elim (Bool-cases ((n.consoles i).waits)) [
            | inl e ↦ rw (e, ap (λ pl. pl.console) seat.is, stuck) refl
            | inr e ↦ rw e refl
          ] in
        stays S fifo start used phases n h i is_in n prints p nothing is at_rest refl refl
          (λ j. refl)

    -- `read_wait` returns where the answer is in the queue, and `main` prints it.
    pub prints-Acts :
        (p : Phase) → phases i ≡ p → (p' : Phase) × Acts S fifo start used phases log prints i p' n
    unfolding act
    prints-Acts (queued t m) is =
        let seat = seat_at S fifo start used phases n h i is_in (queued t m) is in
        let (q, waited, taken) = fifo.wait_dequeue_front m [] seat.extra.queue seat.fit.holds in
        let x : Extra (programs S) = record seat.extra {
          queue = q;
          printed = seat.extra.printed ++ body m ∷ [];
        } in
        let after = console_of (programs S) idle x in
        let n' : Net S = record n { consoles = set n.consoles i after } in
        (
          idle,
          moves S fifo start used phases n n' h h.conns prints i idle
              (print-some (console_of (programs S) (queued t m) seat.extra) after
                (ap (λ pl. pl.console) seat.is) refl
                (answer_found (console_of (programs S) (queued t m) seat.extra) m q waited))
              (rw is refl) refl h.runs
              (record {
                extra = x;
                is =
                    rw (==_refl i)
                      (ap {A = Place (programs S)} (λ pl. record pl { console = after }) seat.is);
                fit = record {
                  client_full = seat.fit.client_full;
                  server_full = seat.fit.server_full;
                  holds = taken;
                  own = tt;
                };
                todo = seat.todo;
                typed = seat.typed;
                asks = seat.asks;
                shown =
                    append-nil _ ∙ ap (λ b. seat.extra.printed ++ b ∷ []) seat.fit.own ∙ seat.shown;
              })
              (λ j ne. rw (==_apart i j ne) refl),
        )
    prints-Acts idle is = (_, print_waits idle is refl refl)
    prints-Acts (posted q m) is = (_, print_waits (posted q m) is refl refl)
    prints-Acts (writing q m) is = (_, print_waits (writing q m) is refl refl)
    prints-Acts (sent q m) is = (_, print_waits (sent q m) is refl refl)
    prints-Acts (announced q) is = (_, print_waits (announced q) is refl refl)
    prints-Acts (answered t m) is = (_, print_waits (answered t m) is refl refl)
    prints-Acts (replied t m) is = (_, print_waits (replied t m) is refl refl)
    prints-Acts (told t) is = (_, print_waits (told t) is refl refl)
