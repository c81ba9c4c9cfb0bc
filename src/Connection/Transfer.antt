-- ===== src/Connection/Transfer.antt =====
-- From one end to the other: what is delivered to a connection is what the reader of its bytes gets.
use pocker_backend.Base.{
  subst, ◌*◌, ◌≤◌, ◌≡◌, refl, sym, ap, ◌∙◌, List, [], ◌∷◌, ◌++◌, length, append-nil,
}
use pocker_backend.Base.Bytes.{Bytes}
use pocker_backend.Base.Results.{ok}
use pocker_backend.Message.{Message, message, max_body_length, assign, wire}
use pocker_backend.Message.Frame.{assign-IsFrame, IsFrame}
use pocker_backend.Connection.{Connection, Read, connection}
use pocker_backend.Connection.Flow.{wires}
use pocker_backend.Connection.Writing.{Event, Line, run, delivered, run_in_order}
use pocker_backend.Connection.Reading.{Awaits, Frames, read_stream, read_stream-Frames}

-- Each message was made from its text, and each text fits.
abbrev pub AreOf : Bytes → List Bytes → List Message → Type 0
AreOf garbage [] ms = ms ≡ []
AreOf garbage (s ∷ texts) [] = ⊥
AreOf garbage (s ∷ texts) (m ∷ ms) =
    (length s ≤ max_body_length) × (assign (message garbage) s ≡ ok m) × AreOf garbage texts ms

pub message-IsFrame :
    (garbage s : Bytes) (m : Message)
    → length garbage ≡ 2048
    → length s ≤ max_body_length
    → assign (message garbage) s ≡ ok m
    → IsFrame s (wire m)
message-IsFrame garbage s m full fits e =
    let (m', e', _, _, frame) = assign-IsFrame (message garbage) s full fits in
    let same : m' ≡ m = cc in subst (λ n. IsFrame s (wire n)) same frame

wires-Frames :
    (garbage : Bytes) (texts : List Bytes) (ms : List Message)
    → length garbage ≡ 2048
    → AreOf garbage texts ms
    → Frames texts (wires ms)
wires-Frames garbage [] ms full e = ap wires e
wires-Frames garbage (s ∷ texts) [] full h = absurd h
wires-Frames garbage (s ∷ texts) (m ∷ ms) full (fits, e, more) = (
  wire m,
  wires ms,
  refl,
  fits,
  message-IsFrame garbage s m full fits e,
  wires-Frames garbage texts ms full more,
)

-- Texts of at most 2044 bytes are made into messages and delivered to a new connection, in any
-- interleaving with the completions of its writes. When no message is queued any more, and the
-- bytes that were written arrive at a connection with a full-size buffer that waits for a header: while two
-- reads complete for each text, each only if a callback has started it, the handler is given exactly
-- those texts, in that order.
pub texts_arrive :
    (garbage start : Bytes) (texts : List Bytes) (es : List Event) (l : Line) (reader : Connection)
    → length garbage ≡ 2048
    → AreOf garbage texts (delivered es)
    → run es (record { conn = connection start; written = [] }) ≡ ok l
    → l.conn.write_msgs ≡ []
    → Awaits Read.header reader
    → read_stream (2 * length texts) reader l.written ≡ ok texts
texts_arrive garbage start texts es l reader full made ran drained ready =
    let (l', ran', order, _) = run_in_order start es in
    let same : l' ≡ l = cc in
    let all_out : l.written ≡ wires (delivered es) =
      sym (append-nil l.written)
      ∙ ap (λ q. l.written ++ wires q) (sym drained)
      ∙ subst (λ k. k.written ++ wires k.conn.write_msgs ≡ wires (delivered es)) same order in
    rw all_out (
      read_stream-Frames texts reader _ ready (wires-Frames garbage texts (delivered es) full made))
