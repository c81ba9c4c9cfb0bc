-- ===== src/Network/ServerSide.antt =====
-- The callbacks of a connection that do not call the handler: a header is read, and a write completes.
use pocker_backend.Base.{true, ℕ, ◌≡◌, refl, ap, ◌∙◌, [], ◌∷◌, ==_refl, length}
use pocker_backend.Base.Results.{ok}
use pocker_backend.Message.{Message, wire}
use pocker_backend.Connection.{Connection, Read, write_done}
use pocker_backend.Connection.Callbacks.{read_ended, write_ended}
use pocker_backend.Handler.State.{update}
use pocker_backend.Handler.Spec.{Request}
use pocker_backend.Handler.Messages.{request_text}
use pocker_backend.Server.Callbacks.{write_callback}
use pocker_backend.Server.Arriving.{at}
use pocker_backend.Server.Loop.{end_write}
use pocker_backend.Client.{IsFifo}
use pocker_backend.Network.{act, server_read, server_write, set, server_reads, server_wrote}
use pocker_backend.Network.Stage.{stage, advance, ==_apart}
use pocker_backend.Network.Phase.{
  Log, Phase, idle, posted, writing, sent, announced, answered, replied, told, queued,
  server_reads_of, up_of, reply_bytes_of, conn_of, Extra,
}
use pocker_backend.Network.Holds.{Setup, programs, Start, Net, Holds, Acts, seat_at, stays, passes}
use pocker_backend.Network.ServerReads.{both_calls, header_ran, server_read_lem}

module _ {S : Setup} {fifo : IsFifo (S.queue)} {start : Start} {log : Log} (used : ℕ)
    (phases : ℕ → Phase) (n : Net S) (h : Holds S fifo start used phases log n) (i : ℕ)
    (is_in : start.joined i ≡ true) where
  pub server_waits :
      (p : Phase)
      → phases i ≡ p
      → server_reads_of (programs S) p ≡ Read.header ∷ []
      → up_of (programs S) p ≡ []
      → stage p ≡ advance server_reads (stage p) (n.input i)
      → Acts S fifo start used phases log server_reads i p n
  unfolding act server_read
  server_waits p is reads no_bytes at_rest =
      let seat = seat_at S fifo start used phases n h i is_in p is in
      stays S fifo start used phases n h i is_in n server_reads p
        (rw (ap (λ pl. pl.conn.reads) seat.is ∙ reads, ap (λ pl. pl.up) seat.is ∙ no_bytes) refl) is
        at_rest refl refl (λ j. refl)

  -- The header of a request is read.
  pub header-Acts :
      (q : Request) (m : Message)
      → phases i ≡ sent q m
      → Acts S fifo start used phases log server_reads i (announced q) n
  unfolding act
  header-Acts q m is =
      let seat = seat_at S fifo start used phases n h i is_in (sent q m) is in
      let text = request_text (S.env.rapidjson) q in
      let (sendable, (header, glued, len, decodes)) = seat.fit.own in
      let c : Connection = conn_of (programs S) (sent q m) seat.extra in
      let conn : n.backend.connections i ≡ c = ap (λ pl. pl.conn) seat.is in
      let (buffer, ran, full) =
        header_ran (S.env) i n.backend c text header conn refl seat.fit.server_full len decodes in
      let x : Extra (programs S) = record seat.extra {
        server_msg = record { buffer = buffer; body_length = length text };
      } in
      let after = conn_of (programs S) (announced q) x in
      let conns = update (S.env) (update (S.env) n.backend.connections i (read_ended c)) i after in
      let n' : Net S = record n { backend = at (S.env) n.backend conns; up = set n.up i text } in
      passes S fifo start used phases n h i is_in n' server_reads conns (sent q m) (announced q)
        (λ pl. record pl { conn = after; up = text }) x is
        (ap (λ c. server_read (S.env) (programs S) c.reads i n) conn
          ∙ server_read_lem S n i Read.header [] header text _ (ap (λ pl. pl.up) seat.is ∙ glued)
              len ran)
        refl refl (ap (λ b. at (S.env) b conns) h.runs) (rw (==_refl i) refl) refl
        (record {
          client_full = seat.fit.client_full;
          server_full = full;
          holds = seat.fit.holds;
          own = (sendable, refl);
        })
        (refl, refl) (refl, refl, refl) (λ j ne. rw (==_apart i j ne) refl)

  server_wrote_waits :
      (p : Phase)
      → phases i ≡ p
      → reply_bytes_of p ≡ []
      → stage p ≡ advance server_wrote (stage p) (n.input i)
      → Acts S fifo start used phases log server_wrote i p n
  unfolding act server_write
  server_wrote_waits p is no_bytes at_rest =
      let seat = seat_at S fifo start used phases n h i is_in p is in
      stays S fifo start used phases n h i is_in n server_wrote p
        (rw (ap (λ pl. pl.conn.writes) seat.is ∙ no_bytes) refl) is at_rest refl refl (λ j. refl)

  -- The write of an answer completes.
  pub server_wrote-Acts :
      (p : Phase)
      → phases i ≡ p
      → (p' : Phase) × Acts S fifo start used phases log server_wrote i p' n
  unfolding act server_write end_write write_callback write_done
  server_wrote-Acts (answered text m) is =
      let seat = seat_at S fifo start used phases n h i is_in (answered text m) is in
      let x = seat.extra in
      let c : Connection = conn_of (programs S) (answered text m) x in
      let conn : n.backend.connections i ≡ c = ap (λ pl. pl.conn) seat.is in
      let after = conn_of (programs S) (replied text m) x in
      let conns = update (S.env) (update (S.env) n.backend.connections i (write_ended c)) i after in
      let n' : Net S = record n {
        backend = at (S.env) n.backend conns;
        down = set n.down i (wire m);
      } in
      let went =
        both_calls (S.env) i (λ c. ok (write_ended c)) write_done n.backend (write_ended c) after
          (ap (λ c. ok (write_ended c)) conn) refl in
      (
        replied text m,
        passes S fifo start used phases n h i is_in n' server_wrote conns (answered text m)
            (replied text m) (λ pl. record pl { conn = after; down = wire m }) x is
            (rw (ap (λ c. c.writes) conn, ap (λ pl. pl.down) seat.is, went) refl) refl refl
            (ap (λ b. at (S.env) b conns) h.runs) (rw (==_refl i) refl) refl
            (record {
              client_full = seat.fit.client_full;
              server_full = seat.fit.server_full;
              holds = seat.fit.holds;
              own = seat.fit.own;
            })
            (refl, refl) (refl, refl, refl) (λ j ne. rw (==_apart i j ne) refl),
      )
  server_wrote-Acts idle is = (_, server_wrote_waits idle is refl refl)
  server_wrote-Acts (posted q m) is = (_, server_wrote_waits (posted q m) is refl refl)
  server_wrote-Acts (writing q m) is = (_, server_wrote_waits (writing q m) is refl refl)
  server_wrote-Acts (sent q m) is = (_, server_wrote_waits (sent q m) is refl refl)
  server_wrote-Acts (announced q) is = (_, server_wrote_waits (announced q) is refl refl)
  server_wrote-Acts (replied t m) is = (_, server_wrote_waits (replied t m) is refl refl)
  server_wrote-Acts (told t) is = (_, server_wrote_waits (told t) is refl refl)
  server_wrote-Acts (queued t m) is = (_, server_wrote_waits (queued t m) is refl refl)
