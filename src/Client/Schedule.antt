-- ===== src/Client/Schedule.antt =====
-- What can happen to the write side of a client, as events, and a run of them in any order.
use pocker_backend.Base.{◌≡◌, refl, ap, List, [], ◌∷◌, ◌++◌, Bool, true, false}
use pocker_backend.Base.Bytes.{Bytes}
use pocker_backend.Base.Results.{Result, ok, ◌>>=◌}
use pocker_backend.Message.{Message}
use pocker_backend.Client.{
  ReaderWriterQueue, Client, Task, push, close_socket, write, close, run_task, write_done,
}

-- The program calls `write` or `close`; the `io_context` runs what was posted first; the outstanding
-- write completes, or fails.
pub data Event : Type 0 where
  writes : Message → Event
  closes runs completes fails : Event

-- The messages passed to `write`, in order.
abbrev pub passed : List Event → List Message
passed [] = []
passed (writes m ∷ es) = m ∷ passed es
passed (_ ∷ es) = passed es

-- The messages of the posted lambdas that have not run.
abbrev pub handed : List Task → List Message
handed [] = []
handed (push m ∷ ts) = m ∷ handed ts
handed (close_socket ∷ ts) = handed ts

pub handed-append : (ts us : List Task) → handed (ts ++ us) ≡ handed ts ++ handed us
handed-append [] us = refl
handed-append (push m ∷ ts) us = ap (λ ms. m ∷ ms) (handed-append ts us)
handed-append (close_socket ∷ ts) us = handed-append ts us

pub passed-cons : (e : Event) (es : List Event) → passed (e ∷ es) ≡ passed (e ∷ []) ++ passed es
passed-cons (writes m) es = refl
passed-cons closes es = refl
passed-cons runs es = refl
passed-cons completes es = refl
passed-cons fails es = refl

module _ (W : ReaderWriterQueue) where
  -- A client, with the bytes that its completed writes have put on the wire.
  pub record Line : Type 0 where
    pub conn : Client W
    pub sent : Bytes

  unfoldable pub run_posted : List Task → Line → Result Line
  run_posted [] l = ok l
  run_posted (t ∷ ts) l = do
    c ← run_task W t (record l.conn { posted = ts })
    ok (record l { conn = c })

  unfoldable pub end_write : Bool → List Bytes → Line → Result Line
  end_write error [] l = ok l
  end_write true (w ∷ rest) l = do
    c ← write_done W true (record l.conn { writes = rest })
    ok (record l { conn = c })
  end_write false (w ∷ rest) l = do
    c ← write_done W false (record l.conn { writes = rest })
    ok (record { conn = c; sent = l.sent ++ w })

  unfoldable pub step : Event → Line → Result Line
  unfolding run_posted end_write
  step (writes m) l = ok (record l { conn = write W m l.conn })
  step closes l = ok (record l { conn = close W l.conn })
  step runs l = run_posted l.conn.posted l
  step completes l = end_write false l.conn.writes l
  step fails l = end_write true l.conn.writes l

  unfoldable pub run : List Event → Line → Result Line
  run [] l = ok l
  run (e ∷ es) l = do l' ← step e l; run es l'
