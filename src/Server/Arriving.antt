-- ===== src/Server/Arriving.antt =====
-- The bytes of one message arrive at a connection of the server: both callbacks run, up to the call
-- of the handler.
use pocker_backend.Base.{
  ℕ, ◌≤◌, ◌≡◌, ◌≢◌, refl, sym, ap, ◌∙◌, [], ◌∷◌, ◌++◌, true, false, take, arith, length,
  take-append, drop-append, take_all, drop_all, le→ltb, length-append, subst,
}
use pocker_backend.Base.Bytes.{Bytes}
use pocker_backend.Base.Results.{Result, ok, err}
use pocker_backend.Message.{Message, header_length, max_body_length, body, decode_header}
use pocker_backend.Message.Frame.{IsFrame}
use pocker_backend.Message.Arrival.{header_arrives, text_arrives}
use pocker_backend.Connection.{Connection, Read, do_read_header, header_done, body_arrived}
use pocker_backend.Connection.Reading.{IsFull}
use pocker_backend.Handler.State.{Env, Action, Backend, pure, ◌>>=◌, ◌>>◌, update}
use pocker_backend.Handler.Dispatch.{handle}
use pocker_backend.Server.Callbacks.{
  on_connection, read_message, header_callback, body_callback, end_read, complete_read,
  read_arrived, message_arrives,
}

module _ (E : Env) where
  -- An action that returned is followed by the rest.
  pub followed :
      {A B : Type 0} (m : Action E A) (k : A → Action E B) (b b' : Backend E) (a : A)
      → m b ≡ (ok a, b')
      → (m >>= k) b ≡ k a b'
  followed m k b b' a e = ap (λ x. elim x.0 [ ok a ↦ k a x.1 | err thrown ↦ (err thrown, x.1) ]) e

  -- The connections, with another one at an address.
  abbrev pub at : Backend E → (ℕ → Connection) → Backend E
  at b conns = record b { connections = conns }

  pub on_connection_lem :
      (i : ℕ) (f : Connection → Result Connection) (b : Backend E) (c c' : Connection)
      → b.connections i ≡ c
      → f c ≡ ok c'
      → on_connection E i f b ≡ (ok tt, at b (update E b.connections i c'))
  unfolding on_connection
  on_connection_lem i f b c c' is e = rw (is, e) refl

  pub update_self : (f : ℕ → Connection) (i : ℕ) (c : Connection) → update E f i c i ≡ c
  update_self f i c = ground arith

  pub update_other :
      (f : ℕ → Connection) (i j : ℕ) (c : Connection) → i ≢ j → update E f i c j ≡ f j
  update_other f i j c h = ground arith

  -- A connection that was given a text, after both callbacks, up to the call of the handler.
  pub record ReadIn (s : Bytes) (c c' : Connection) : Type 0 where
    pub is : body c'.read_msg ≡ s
    pub full : IsFull c'
    pub idle : c'.reads ≡ []
    pub same : (c'.write_msgs ≡ c.write_msgs) × (c'.writes ≡ c.writes)

  -- The same connections but at one address.
  abbrev pub Elsewhere : ℕ → (ℕ → Connection) → (ℕ → Connection) → Type 0
  Elsewhere i conns conns' = (j : ℕ) → i ≢ j → conns' j ≡ conns j

  -- The rest of the callback of the body.
  abbrev pub rest_of_body : ℕ → Action E (Unit {0})
  rest_of_body i =
      read_message E i >>= λ msg. (handle E msg i >> on_connection E i (λ c. ok (do_read_header c)))

  header_read :
      (i : ℕ) (b : Backend E) (s header : Bytes) (c : Connection)
      → b.connections i ≡ c
      → IsFull c
      → length header ≡ header_length
      → ((m : Message)
          → take header_length m.buffer ≡ header
          → decode_header m ≡ (record m { body_length = length s }, true))
      → (buffer : Bytes) × (header_callback E i false header b ≡ (
        ok tt,
        at b (
            update E b.connections i (record c {
              read_msg = record { buffer = buffer; body_length = length s };
              reads = c.reads ++ Read.body (length s) ∷ [];
            })),
      ))
        × (length buffer ≡ 2048)
  unfolding header_callback header_done
  header_read i b s header c is full len decodes =
      let (buffer, copied, decoded, full') = header_arrives c.read_msg s header full len decodes in
      (buffer, on_connection_lem i _ b c _ is (rw (copied, decoded) refl), full')

  pub body_read :
      (i : ℕ) (b : Backend E) (s : Bytes) (c : Connection)
      → b.connections i ≡ c
      → IsFull c
      → c.read_msg.body_length ≡ length s
      → length s ≤ max_body_length
      → (buffer : Bytes) × (on_connection E i (body_arrived s) b ≡ (
        ok tt,
        at b (
            update E b.connections i
              (record c { read_msg = record c.read_msg { buffer = buffer } })),
      ))
        × (body (record c.read_msg { buffer = buffer }) ≡ s)
        × (length buffer ≡ 2048)
  unfolding body_arrived
  body_read i b s c is full size fits =
      let (buffer, copied, text, full') = text_arrives c.read_msg s full size fits in
      (buffer, on_connection_lem i _ b c _ is (rw copied refl), text, full')

  pub read_ends :
      (i : ℕ) (b : Backend E) (c : Connection) (r : Read)
      → b.connections i ≡ c
      → c.reads ≡ r ∷ []
      → end_read E i b ≡ (ok tt, at b (update E b.connections i (record c { reads = [] })))
  unfolding end_read
  read_ends i b c r is e = on_connection_lem i _ b c _ is (rw e refl)

  -- Two actions that go on in the same way.
  alike :
      {A B : Type 0} (m m' : Action E A) (k : Action E B) (b b' : Backend E)
      → m b ≡ m' b'
      → (m >> k) b ≡ (m' >> k) b'
  alike m m' k b b' e = ap (λ x. elim x.0 [ ok a ↦ k x.1 | err thrown ↦ (err thrown, x.1) ]) e

  -- The read of a header completes.
  header_completes :
      (i : ℕ) (b b₁ b₂ : Backend E) (header s : Bytes)
      → (b.connections i).reads ≡ Read.header ∷ []
      → length header ≡ header_length
      → end_read E i b ≡ (ok tt, b₁)
      → header_callback E i false header b₁ ≡ (ok tt, b₂)
      → read_arrived E i (header ++ s) b ≡ (ok s, b₂)
  unfolding read_arrived complete_read
  header_completes i b b₁ b₂ header s waiting len ended headed =
      rw
        (
          waiting,
          le→ltb (length (header ++ s)) header_length (omega (arith, length-append header s)),
          take-append header_length header s (sym len),
          drop-append header_length header s (sym len),
        )
        (followed (end_read E i >> header_callback E i false header) (λ _. pure s) b b₂ tt
          (followed (end_read E i) (λ _. header_callback E i false header) b b₁ tt ended ∙ headed))

  -- The read of a body completes with the last of the bytes.
  body_completes :
      (i : ℕ) (b b₁ b₂ : Backend E) (s : Bytes)
      → (b.connections i).reads ≡ Read.body (length s) ∷ []
      → end_read E i b ≡ (ok tt, b₁)
      → on_connection E i (body_arrived s) b₁ ≡ (ok tt, b₂)
      → read_arrived E i s b ≡ (rest_of_body i >> pure []) b₂
  unfolding read_arrived complete_read body_callback
  body_completes i b b₁ b₂ s waiting ended arrived =
      rw
        (
          waiting,
          le→ltb (length s) (length s) (omega arith),
          take_all (length s) s (omega arith),
          drop_all s,
        )
        (alike (end_read E i >> body_callback E i false s) (rest_of_body i) (pure []) b b₂ (
          followed (end_read E i) (λ _. body_callback E i false s) b b₁ tt ended
          ∙ followed (on_connection E i (body_arrived s)) (λ _. rest_of_body i) b₁ b₂ tt arrived))

  pub arrives :
      (i : ℕ) (b : Backend E) (s stream : Bytes) (c : Connection)
      → b.connections i ≡ c
      → IsFull c
      → c.reads ≡ Read.header ∷ []
      → length s ≤ max_body_length
      → IsFrame s stream
      → (conns : ℕ → Connection) × (message_arrives E i stream b
          ≡ (rest_of_body i >> pure []) (at b conns))
        × ReadIn s c (conns i)
        × Elsewhere i b.connections conns
  unfolding message_arrives
  arrives i b s stream c is full waiting fits (header, glued, len, decodes) =
      let c₁ : Connection = record c { reads = [] } in
      let f₁ : ℕ → Connection = update E b.connections i c₁ in
      let (buffer, headed, full₂) =
        header_read i (at b f₁) s header c₁ (update_self b.connections i c₁) full len decodes in
      let c₂ : Connection = record c {
        read_msg = record { buffer = buffer; body_length = length s };
        reads = Read.body (length s) ∷ [];
      } in
      let f₂ : ℕ → Connection = update E f₁ i c₂ in
      let c₃ : Connection = record c₂ { reads = [] } in
      let f₃ : ℕ → Connection = update E f₂ i c₃ in
      let (buffer', arrived, text, full₄) =
        body_read i (at b f₃) s c₃ (update_self f₂ i c₃) full₂ refl fits in
      let c₄ : Connection = record c₃ {
        read_msg = record { buffer = buffer'; body_length = length s };
      } in
      (
        update E f₃ i c₄,
        rw glued (
            followed (read_arrived E i (header ++ s)) (read_arrived E i) b (at b f₂) s (
              header_completes i b (at b f₁) (at b f₂) header s (ap (λ c. c.reads) is ∙ waiting) len
                (read_ends i b c Read.header is waiting) headed)
            ∙ body_completes i (at b f₂) (at b f₃) (at b (update E f₃ i c₄)) s
                (ap (λ c. c.reads) (update_self f₁ i c₂))
                (read_ends i (at b f₂) c₂ (Read.body (length s)) (update_self f₁ i c₂) refl)
                arrived),
        subst (ReadIn s c) (sym (update_self f₃ i c₄))
            (record { is = text; full = full₄; idle = refl; same = (refl, refl) }),
        λ j ne.
            update_other f₃ i j c₄ ne
            ∙ update_other f₂ i j c₃ ne
            ∙ update_other f₁ i j c₂ ne
            ∙ update_other b.connections i j c₁ ne,
      )
