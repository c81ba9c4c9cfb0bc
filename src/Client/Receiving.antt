-- ===== src/Client/Receiving.antt =====
-- The read side: the callbacks take a stream of frames apart, and put each message into the queue that
-- the program reads from.
use pocker_backend.Base.{
  ℕ, zero, suc, ◌*◌, ◌≤◌, ◌≡◌, refl, sym, ap, ◌∙◌, List, [], ◌∷◌, ◌++◌, true, false, map,
  if◌then◌else◌, arith, length, take, drop, ltb, length-append, take-append, drop-append,
  append_assoc, append-nil, le→ltb,
}
use pocker_backend.Base.Bytes.{Bytes}
use pocker_backend.Base.Results.{Result, ok, ◌>>=◌}
use pocker_backend.Message.{Message, header_length, max_body_length, body, decode_header}
use pocker_backend.Message.Arrival.{header_arrives, text_arrives}
use pocker_backend.Connection.{Read}
use pocker_backend.Connection.Reading.{Frames}
use pocker_backend.Client.{ReaderWriterQueue, IsFifo, Client, header_done, body_done}

module _ (W : ReaderWriterQueue) where
  abbrev pub IsFull : Client W → Type 0
  IsFull c = length c.read_msg.buffer ≡ 2048

  -- The client without its outstanding reads: `async_read` has completed.
  abbrev pub completed : Client W → Client W
  completed c = record c { reads = [] }

  -- A message was queued, and the next header is read.
  abbrev pub received : Message → Client W → Client W
  received m c = record c {
    read_msg = m;
    read_messages = W.enqueue m c.read_messages;
    reads = Read.header ∷ [];
  }

  -- A stream of bytes arrives: the first of the outstanding reads, if there is one, takes what it waits for,
  -- and its callback runs. `next` goes on with what is left.
  abbrev read_on :
      (Client W → Bytes → Result (Client W)) → List Read → Client W → Bytes → Result (Client W)
  read_on next [] c stream = ok c
  read_on next (Read.header ∷ rest) c stream =
      let went = header_done W (take header_length stream) (record c { reads = rest }) >>= λ c'.
      next c' (drop header_length stream) in
      if ltb (length stream) header_length then ok c else went
  read_on next (Read.body n ∷ rest) c stream =
      let went =
        body_done W (take n stream) (record c { reads = rest }) >>= λ c'. next c' (drop n stream) in
      if ltb (length stream) n then ok c else went

  -- So many reads complete against a stream, each only if it was started. It ends where no read
  -- was, or the stream has too few bytes for it, or the socket is closed.
  pub feed : ℕ → Client W → Bytes → Result (Client W)
  feed zero c stream = ok c
  feed (suc count) c stream =
      let went = read_on (feed count) c.reads c stream in if c.is_closed then ok c else went

  module _ (fifo : IsFifo W) where
    -- The client has been given these texts, and is ready for more.
    pub record Given (texts : List Bytes) (c c' : Client W) : Type 0 where
      pub messages : List Message
      pub queued : fifo.items c'.read_messages ≡ fifo.items c.read_messages ++ messages
      pub bodies : map body messages ≡ texts
      pub full : IsFull c'
      pub still_open : c'.is_closed ≡ false
      pub waiting : c'.reads ≡ Read.header ∷ []
      pub unwritten : (c'.write_msgs ≡ c.write_msgs) × (c'.writes ≡ c.writes)

    pub header_step :
        (c : Client W) (s header : Bytes)
        → IsFull c
        → length header ≡ header_length
        → ((m : Message)
            → take header_length m.buffer ≡ header
            → decode_header m ≡ (record m { body_length = length s }, true))
        → (buffer : Bytes) × (header_done W header (completed c)
            ≡ ok (record c {
              read_msg = record { buffer = buffer; body_length = length s };
              reads = Read.body (length s) ∷ [];
            }))
          × (length buffer ≡ 2048)
    unfolding header_done
    header_step c s header full len decodes =
        let (buffer, copied, decoded, full') =
          header_arrives c.read_msg s header full len decodes in
        (buffer, rw (copied, decoded) refl, full')

    pub body_step :
        (c : Client W) (s : Bytes)
        → IsFull c
        → c.read_msg.body_length ≡ length s
        → length s ≤ max_body_length
        → (m : Message) × (body_done W s (completed c) ≡ ok (received m c))
          × (body m ≡ s)
          × (length m.buffer ≡ 2048)
    unfolding body_done
    body_step c s full size small =
        let (buffer, copied, is, full') = text_arrives c.read_msg s full size small in
        (record c.read_msg { buffer = buffer }, rw copied refl, is, full')

    feed_head :
        (n : ℕ) (c c' : Client W) (header more : Bytes)
        → c.is_closed ≡ false
        → c.reads ≡ Read.header ∷ []
        → length header ≡ header_length
        → header_done W header (completed c) ≡ ok c'
        → feed (suc n) c (header ++ more) ≡ feed n c' more
    unfolding feed
    feed_head n c c' header more still_open waiting len went =
        ap (λ b. if b then ok c else read_on (feed n) c.reads c (header ++ more)) still_open
        ∙ rw
            (
              waiting,
              le→ltb (length (header ++ more)) header_length
                  (omega (arith, length-append header more)),
              take-append header_length header more (sym len),
              drop-append header_length header more (sym len),
            )
            (ap (λ r. r >>= λ k. feed n k more) went)

    feed_text :
        (n : ℕ) (c c' : Client W) (s more : Bytes)
        → c.is_closed ≡ false
        → c.reads ≡ Read.body (length s) ∷ []
        → body_done W s (completed c) ≡ ok c'
        → feed (suc n) c (s ++ more) ≡ feed n c' more
    unfolding feed
    feed_text n c c' s more still_open waiting went =
        ap (λ b. if b then ok c else read_on (feed n) c.reads c (s ++ more)) still_open
        ∙ rw
            (
              waiting,
              le→ltb (length (s ++ more)) (length s) (omega (arith, length-append s more)),
              take-append (length s) s more refl,
              drop-append (length s) s more refl,
            )
            (ap (λ r. r >>= λ k. feed n k more) went)

    -- One frame in front of a stream: its message is queued, and the reading goes on behind it.
    feed_step :
        (n : ℕ) (s header rest : Bytes) (c : Client W)
        → IsFull c
        → c.is_closed ≡ false
        → c.reads ≡ Read.header ∷ []
        → length s ≤ max_body_length
        → length header ≡ header_length
        → ((m : Message)
            → take header_length m.buffer ≡ header
            → decode_header m ≡ (record m { body_length = length s }, true))
        → (m : Message) × (feed (suc (suc n)) c (header ++ (s ++ rest))
            ≡ feed n (received m c) rest)
          × (body m ≡ s)
          × (length m.buffer ≡ 2048)
    feed_step n s header rest c full still_open waiting fits len decodes =
        let (buffer, headed, full₁) = header_step c s header full len decodes in
        let c₁ : Client W = record c {
          read_msg = record { buffer = buffer; body_length = length s };
          reads = Read.body (length s) ∷ [];
        } in
        let (m, arrived, is, full₂) = body_step c₁ s full₁ refl fits in
        (
          m,
          feed_head (suc n) c c₁ header (s ++ rest) still_open waiting len headed
              ∙ feed_text n c₁ (received m c) s rest still_open refl arrived,
          is,
          full₂,
        )

    -- A client whose socket is open, whose message has its full size and which waits for a header reads a
    -- stream of frames, of texts of at most 2044 bytes, without an error, while two reads complete for each
    -- frame, each only if a callback has started it: behind what was queued there are messages with
    -- those bodies, in that order; the client waits for the next header, with its socket open and its
    -- message full-size, and its write side is untouched.
    pub feed-Frames :
        (texts : List Bytes) (c : Client W) (stream : Bytes)
        → IsFull c
        → c.is_closed ≡ false
        → c.reads ≡ Read.header ∷ []
        → Frames texts stream
        → (c' : Client W) × (feed (2 * length texts) c stream ≡ ok c') × Given texts c c'
    unfolding feed
    feed-Frames [] c stream full still_open waiting e = (
      c,
      refl,
      record {
        messages = [];
        queued = sym (append-nil _);
        bodies = refl;
        full = full;
        still_open = still_open;
        waiting = waiting;
        unwritten = (refl, refl);
      },
    )
    feed-Frames (s ∷ texts) c stream full still_open waiting
          (w, rest, split, fits, (header, glued, len, decodes), more) =
        let (m, stepped, is, full₁) =
          feed_step (2 * length texts) s header rest c full still_open waiting fits len decodes in
        let (c', fed, given) = feed-Frames texts (received m c) rest full₁ still_open refl more in
        let twice : 2 * length (s ∷ texts) ≡ suc (suc (2 * length texts)) = omega arith in
        (
          c',
          rw (twice, split, glued, append_assoc header s rest) (stepped ∙ fed),
          record {
            messages = m ∷ given.messages;
            queued =
                given.queued
                ∙ ap (λ x. x ++ given.messages) (fifo.items-enqueue m c.read_messages)
                ∙ append_assoc (fifo.items c.read_messages) (m ∷ []) given.messages;
            bodies = cc (is, given.bodies);
            full = given.full;
            still_open = given.still_open;
            waiting = given.waiting;
            unwritten = given.unwritten;
          },
        )
