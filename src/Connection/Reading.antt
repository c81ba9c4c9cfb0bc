-- ===== src/Connection/Reading.antt =====
-- The read side: the callbacks of `do_read_header_` and `do_read_body_` take a stream of frames apart.
use pocker_backend.Base.{
  ℕ, zero, suc, ◌+◌, ◌*◌, ◌≤◌, ◌≡◌, refl, sym, ap, ◌∙◌, List, [], ◌∷◌, ◌++◌, Bool, true, false,
  if◌then◌else◌, arith, length, take, drop, ltb, length-append, length-take, take-append,
  drop-append, append_assoc, le→ltb,
}
use pocker_backend.Base.Bytes.{Bytes}
use pocker_backend.Base.Results.{Result, ok, err, ◌>>=◌}
use pocker_backend.Message.Cstdlib.{memcpy}
use pocker_backend.Message.{Message, header_length, max_body_length, body, decode_header}
use pocker_backend.Message.Frame.{
  overwritten, length-overwritten, IsFrame, memcpy_fits, decode_header_bounds,
}
use pocker_backend.Connection.{
  Connection, Read, after_header, header_done, body_arrived, do_read_header,
}

-- The buffer of `read_msg_` has its full size.
abbrev pub IsFull : Connection → Type 0
IsFull c = length c.read_msg.buffer ≡ 2048

-- What is said of a connection after its header was read.
abbrev HeaderRead : Connection → Result (Connection × Bool) → Type 0
HeaderRead c r =
    (c' : Connection) × (accepted : Bool) × (r ≡ ok (c', accepted))
    × IsFull c'
    × (c'.read_msg.body_length ≤ max_body_length)
    × (c'.reads ≡ (if accepted then c.reads ++ Read.body c'.read_msg.body_length ∷ [] else c.reads))

after_header_safe :
    (c : Connection) (decoded : Message × Bool)
    → decoded.0.body_length ≤ max_body_length
    → length decoded.0.buffer ≡ 2048
    → HeaderRead c (ok (after_header c decoded))
unfolding after_header
after_header_safe c (m, true) small full = (_, true, refl, full, small, refl)
after_header_safe c (m, false) small full = (_, false, refl, full, small, refl)

-- Whatever four bytes arrive in a full-size buffer, reading them into the header does not leave the
-- buffer, the length that they announce stays within the body, and a body read of that length is
-- started if the header is accepted, and no read if it is not.
pub header_done_safe :
    (arrived : Bytes) (c : Connection)
    → IsFull c
    → length arrived ≡ header_length
    → (c' : Connection) × (accepted : Bool) × (header_done arrived c ≡ ok (c', accepted))
      × IsFull c'
      × (c'.read_msg.body_length ≤ max_body_length)
      × (c'.reads
          ≡ (if accepted then c.reads ++ Read.body c'.read_msg.body_length ∷ [] else c.reads))
unfolding header_done
header_done_safe arrived c full len =
    let m : Message = record (c.read_msg) { buffer = overwritten c.read_msg.buffer 0 arrived } in
    let (small, same, _) = decode_header_bounds m in
    rw (memcpy_fits c.read_msg.buffer 0 arrived (omega arith)) (
      after_header_safe c (decode_header m) small
        (ap length same ∙ length-overwritten c.read_msg.buffer 0 arrived (omega arith) ∙ full))

-- After an accepted header, the announced number of bytes is read into the body without leaving the
-- full-size buffer, and those bytes are the body that the handler is given.
pub body_arrived_safe :
    (arrived : Bytes) (c : Connection)
    → IsFull c
    → c.read_msg.body_length ≤ max_body_length
    → length arrived ≡ c.read_msg.body_length
    → (c' : Connection) × (body_arrived arrived c ≡ ok c')
      × IsFull c'
      × (body c'.read_msg ≡ arrived)
unfolding body_arrived body
body_arrived_safe arrived c full small len =
    let buffer = overwritten c.read_msg.buffer header_length arrived in
    let fits : header_length + length arrived ≤ length c.read_msg.buffer = omega arith in
    (
      record c { read_msg = record (c.read_msg) { buffer = buffer } },
      rw (memcpy_fits c.read_msg.buffer header_length arrived fits),
      length-overwritten c.read_msg.buffer header_length arrived fits ∙ full,
      rw
          (
            drop-append header_length (take header_length c.read_msg.buffer)
                (arrived ++ drop (header_length + length arrived) c.read_msg.buffer)
                (omega (arith, length-take header_length c.read_msg.buffer)),
            ← len,
          )
          (take-append (length arrived) arrived _ refl),
    )

-- A stream of bytes arrives: the first of the outstanding reads, if there is one, takes what it waits for,
-- and its callback runs. `next` goes on with what is left. After a body, the handler has been
-- given it, and the callback reads the next header.
abbrev read_on :
    (Connection → Bytes → Result (List Bytes))
    → List Read
    → Connection
    → Bytes
    → Result (List Bytes)
read_on next [] c stream = ok []
read_on next (Read.header ∷ rest) c stream =
    let went = header_done (take header_length stream) (record c { reads = rest }) >>= λ r.
    next r.0 (drop header_length stream) in
    if ltb (length stream) header_length then ok [] else went
read_on next (Read.body n ∷ rest) c stream =
    let went = body_arrived (take n stream) (record c { reads = rest }) >>= λ c'.
    next (do_read_header c') (drop n stream) >>= λ bodies. ok (body c'.read_msg ∷ bodies) in
    if ltb (length stream) n then ok [] else went

-- The bodies that the handler is given while so many reads complete against a stream. It ends where
-- no read was started, or the stream has too few bytes for the one that was.
pub read_stream : ℕ → Connection → Bytes → Result (List Bytes)
read_stream zero c stream = ok []
read_stream (suc completed) c stream = read_on (read_stream completed) c.reads c stream

-- The stream is a frame for each text, one after the other.
abbrev pub Frames : List Bytes → Bytes → Type 0
Frames [] stream = stream ≡ []
Frames (s ∷ texts) stream =
    (w : Bytes) × (rest : Bytes) × (stream ≡ w ++ rest)
    × (length s ≤ max_body_length)
    × IsFrame s w
    × Frames texts rest

copied_reads :
    (c c' : Connection) (r : Result Bytes)
    → (r >>= λ buffer. ok (record c { read_msg = record c.read_msg { buffer = buffer } })) ≡ ok c'
    → c'.reads ≡ c.reads
copied_reads c c' (err e) h = absurd (cc)
copied_reads c c' (ok buffer) h = ap (λ r. elim r [ err e ↦ c.reads | ok k ↦ k.reads ]) (sym h)

-- What the handler is given has the same reads: the next one is started behind the call.
body_arrived_reads :
    (arrived : Bytes) (c c' : Connection) → body_arrived arrived c ≡ ok c' → c'.reads ≡ c.reads
unfolding body_arrived
body_arrived_reads arrived c c' = copied_reads c c' (memcpy c.read_msg.buffer header_length arrived)

-- A connection with a full-size buffer that waits for this read, and no other.
pub record Awaits (r : Read) (c : Connection) : Type 0 where
  pub full : IsFull c
  pub reads : c.reads ≡ r ∷ []

-- The header of a frame: it is accepted, and the body is what is read next.
read_header :
    (n : ℕ) (c : Connection) (s header more : Bytes)
    → Awaits Read.header c
    → length header ≡ header_length
    → ((r : Message)
        → take header_length r.buffer ≡ header
        → decode_header r ≡ (record r { body_length = length s }, true))
    → (c' : Connection) × Awaits (Read.body (length s)) c'
      × (c'.read_msg.body_length ≡ length s)
      × (read_stream (suc n) c (header ++ more) ≡ read_stream n c' more)
unfolding read_stream header_done after_header
read_header n c s header more ready len decodes =
    let full = ready.full in
    let m : Message = record (c.read_msg) { buffer = overwritten c.read_msg.buffer 0 header } in
    let fits : 0 + length header ≤ length c.read_msg.buffer = omega arith in
    let decoded = decodes m (take-append header_length header _ (sym len)) in
    (
      record c {
        read_msg = record m { body_length = length s };
        reads = Read.body (length s) ∷ [];
      },
      record { full = length-overwritten c.read_msg.buffer 0 header fits ∙ full; reads = refl },
      refl,
      rw
          (
            ready.reads,
            le→ltb (length (header ++ more)) header_length
                (omega (arith, length-append header more)),
            take-append header_length header more (sym len),
            drop-append header_length header more (sym len),
            memcpy_fits c.read_msg.buffer 0 header fits,
            decoded,
          )
          refl,
    )

-- The body of a frame: the text is given to the handler, and the next header is what is read next.
read_body :
    (n : ℕ) (c : Connection) (s more : Bytes)
    → Awaits (Read.body (length s)) c
    → c.read_msg.body_length ≡ length s
    → length s ≤ max_body_length
    → (c' : Connection) × Awaits Read.header c'
      × (read_stream (suc n) c (s ++ more) ≡ (read_stream n c' more >>= λ bodies. ok (s ∷ bodies)))
unfolding read_stream do_read_header body_arrived
read_body n c s more ready size fits =
    let c₀ : Connection = record c { reads = [] } in
    let (c₁, arrived, full, got) =
      body_arrived_safe s c₀ ready.full (omega (arith, size)) (sym size) in
    let same : c₁.reads ≡ [] = body_arrived_reads s c₀ c₁ arrived in
    (
      record c₁ { reads = c₁.reads ++ Read.header ∷ [] },
      record { full = full; reads = ap (λ rs. rs ++ Read.header ∷ []) same },
      rw
          (
            ready.reads,
            le→ltb (length (s ++ more)) (length s) (omega (arith, length-append s more)),
            take-append (length s) s more refl,
            drop-append (length s) s more refl,
          )
          (ap
              (λ r. r >>= λ c'.
                read_stream n (record c' { reads = c'.reads ++ Read.header ∷ [] }) more
                >>= λ bodies. ok (body c'.read_msg ∷ bodies))
              arrived
            ∙ ap
                (λ b.
                  read_stream n (record c₁ { reads = c₁.reads ++ Read.header ∷ [] }) more
                  >>= λ bodies. ok (b ∷ bodies))
                got),
    )

-- A connection that waits for a header reads from a stream of frames the texts of the frames.
pub read_stream-Frames :
    (texts : List Bytes) (c : Connection) (stream : Bytes)
    → Awaits Read.header c
    → Frames texts stream
    → read_stream (2 * length texts) c stream ≡ ok texts
read_stream-Frames [] c stream ready e = unfold read_stream in refl
read_stream-Frames (s ∷ texts) c stream ready
      (w, rest, split, fits, (header, glued, len, decodes), more) =
    let n = 2 * length texts in
    let (c₁, ready₁, size, headed) = read_header (suc n) c s header (s ++ rest) ready len decodes in
    let (c₂, ready₂, bodied) = read_body n c₁ s rest ready₁ size fits in
    let twice : 2 * length (s ∷ texts) ≡ suc (suc n) = omega arith in
    rw (twice, split, glued, append_assoc header s rest)
      (headed
        ∙ bodied
        ∙ ap (λ r. r >>= λ bodies. ok (s ∷ bodies)) (read_stream-Frames texts c₂ rest ready₂ more))
