-- ===== src/Network/ClientReading.antt =====
-- The callbacks of the reads of a client: the header and the body of an answer.
use pocker_backend.Base.{
  true, ℕ, ◌≡◌, refl, sym, ap, ◌∙◌, List, [], ◌∷◌, ◌++◌, ==_refl, length, append-nil, arith, le→ltb,
  length-append, take-append, drop-append,
}
use pocker_backend.Base.Bytes.{Bytes}
use pocker_backend.Base.Results.{ok}
use pocker_backend.Connection.{Read}
use pocker_backend.Client.{IsFifo, Client}
use pocker_backend.Client.Receiving.{header_step, body_step}
use pocker_backend.Terminal.{Console}
use pocker_backend.Network.{act, client_read, client_callback, size_of, set, client_reads}
use pocker_backend.Network.Stage.{stage, advance, ==_apart}
use pocker_backend.Network.Phase.{
  Log, Phase, idle, posted, writing, sent, announced, answered, replied, told, queued, reads_of,
  down_of, console_of, placed, flight_of, pending_of, Extra, IsFit,
}
use pocker_backend.Network.Holds.{Setup, programs, Start, Net, Holds, Acts, seat_at, stays, passes}

module _ {S : Setup} {fifo : IsFifo (S.queue)} {start : Start} {log : Log} (used : ℕ)
    (phases : ℕ → Phase) (n : Net S) (h : Holds S fifo start used phases log n) (i : ℕ)
    (is_in : start.joined i ≡ true) where
  -- A read of the client completes.
  client_read_lem :
      (t : Console (programs S)) (r : Read) (rest : List Read) (arrived left : Bytes)
      (conn : Client (S.queue))
      → n.consoles i ≡ t
      → n.down i ≡ arrived ++ left
      → length arrived ≡ size_of r
      → client_callback (S.env) (programs S) r arrived (record t.conn { reads = rest }) ≡ ok conn
      → client_read (S.env) (programs S) (r ∷ rest) i n
        ≡ ok (record n {
          consoles = set n.consoles i (record t { conn = conn });
          down = set n.down i left;
        })
  unfolding client_read
  client_read_lem t r rest arrived left conn e glued size done =
      rw
        (
          glued,
          le→ltb (length (arrived ++ left)) (size_of r) (omega (arith, length-append arrived left)),
          take-append (size_of r) arrived left (sym size),
          drop-append (size_of r) arrived left (sym size),
          e,
          done,
        )
        refl

  read_waits :
      (p : Phase)
      → phases i ≡ p
      → reads_of p ≡ Read.header ∷ []
      → down_of p ≡ []
      → stage p ≡ advance client_reads (stage p) (n.input i)
      → Acts S fifo start used phases log client_reads i p n
  unfolding act client_read
  read_waits p is reads no_bytes at_rest =
      let seat = seat_at S fifo start used phases n h i is_in p is in
      stays S fifo start used phases n h i is_in n client_reads p
        (rw
          (ap (λ pl. pl.console.conn.reads) seat.is ∙ reads, ap (λ pl. pl.down) seat.is ∙ no_bytes)
          refl)
        is at_rest refl refl (λ j. refl)

  -- The bytes that a read waits for are there, and its callback takes the client to its next phase.
  reads_on :
      (p p' : Phase) (x' : Extra (programs S)) (is : phases i ≡ p)
      → let x = (seat_at S fifo start used phases n h i is_in p is).extra in
        let next = record n {
          consoles = set n.consoles i (console_of (programs S) p' x');
          down = set n.down i (down_of p');
        } in
        (act (S.env) (programs S) client_reads i n ≡ ok next)
        → (placed (programs S) p' x' ≡ record (placed (programs S) p x) {
          console = console_of (programs S) p' x';
          down = down_of p';
        })
        → (stage p' ≡ advance client_reads (stage p) (n.input i))
        → (x'.input ≡ x.input) × (x'.printed ≡ x.printed)
        → (flight_of p' ≡ flight_of p) × (pending_of p' ≡ pending_of p)
        → IsFit (programs S) fifo p' x'
        → Acts S fifo start used phases log client_reads i p' n
  reads_on p p' x' is went kept advances (input, printed) (flight, pending) fit =
      passes S fifo start used phases n h i is_in _ client_reads h.conns p p'
        (λ pl. record pl { console = console_of (programs S) p' x'; down = down_of p' }) x' is went
        advances refl h.runs (rw (==_refl i) refl) (sym kept) fit (input, printed)
        (refl, flight, pending) (λ j ne. rw (==_apart i j ne) refl)

  -- The header of an answer is read, and then its body, into the queue of the client.
  pub client_reads-Acts :
      (p : Phase)
      → phases i ≡ p
      → (p' : Phase) × Acts S fifo start used phases log client_reads i p' n
  unfolding act
  client_reads-Acts (replied text m) is =
      let seat = seat_at S fifo start used phases n h i is_in (replied text m) is in
      let (fits, (header, glued, len, decodes)) = seat.fit.own in
      let t = console_of (programs S) (replied text m) seat.extra in
      let (buffer, headed, full) =
        header_step (S.queue) fifo t.conn text header seat.fit.client_full len decodes in
      let x : Extra (programs S) = record seat.extra {
        client_msg = record { buffer = buffer; body_length = length text };
      } in
      (
        told text,
        reads_on (replied text m) (told text) x is
            (rw (ap (λ pl. pl.console.conn.reads) seat.is) (
              client_read_lem t Read.header [] header text _ (ap (λ pl. pl.console) seat.is)
                (ap (λ pl. pl.down) seat.is ∙ glued) len headed))
            refl refl (refl, refl) (refl, refl)
            (record {
              client_full = full;
              server_full = seat.fit.server_full;
              holds = seat.fit.holds;
              own = (fits, refl);
            }),
      )
  client_reads-Acts (told text) is =
      let seat = seat_at S fifo start used phases n h i is_in (told text) is in
      let (fits, announced_length) = seat.fit.own in
      let t = console_of (programs S) (told text) seat.extra in
      let (m, arrived, body_is, full) =
        body_step (S.queue) fifo t.conn text seat.fit.client_full announced_length fits in
      let x : Extra (programs S) = record seat.extra {
        client_msg = m;
        queue = S.queue.enqueue m seat.extra.queue;
      } in
      (
        queued text m,
        reads_on (told text) (queued text m) x is
            (rw (ap (λ pl. pl.console.conn.reads) seat.is) (
              client_read_lem t (Read.body (length text)) [] text [] _
                (ap (λ pl. pl.console) seat.is) (ap (λ pl. pl.down) seat.is ∙ sym (append-nil text))
                refl arrived))
            refl refl (refl, refl) (refl, refl)
            (record {
              client_full = full;
              server_full = seat.fit.server_full;
              holds =
                  fifo.items-enqueue m seat.extra.queue ∙ ap (λ ms. ms ++ m ∷ []) seat.fit.holds;
              own = body_is;
            }),
      )
  client_reads-Acts idle is = (_, read_waits idle is refl refl refl)
  client_reads-Acts (posted q m) is = (_, read_waits (posted q m) is refl refl refl)
  client_reads-Acts (writing q m) is = (_, read_waits (writing q m) is refl refl refl)
  client_reads-Acts (sent q m) is = (_, read_waits (sent q m) is refl refl refl)
  client_reads-Acts (announced q) is = (_, read_waits (announced q) is refl refl refl)
  client_reads-Acts (answered t m) is = (_, read_waits (answered t m) is refl refl refl)
  client_reads-Acts (queued t m) is = (_, read_waits (queued t m) is refl refl refl)
