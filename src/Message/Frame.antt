-- ===== src/Message/Frame.antt =====
-- What a message that was assigned a string puts on the wire, and what a reader makes of it.
use pocker_backend.Base.{
  ℕ, ◌+◌, ◌≤◌, ◌<◌, ◌≡◌, refl, sym, ◌++◌, true, ◌⊎◌, inl, inr, Bool-cases, length, take, drop,
  arith, length-append, length-take, length-drop, append_assoc, take-append, drop-append, le→ltb,
  lt→ltb,
}
use pocker_backend.Base.Bytes.{Bytes, c_str_id, IsNulFree}
use pocker_backend.Base.Int.{int_of_size, pos}
use pocker_backend.Base.Results.{ok, err, undefined}
use pocker_backend.Message.Cstdlib.{atoi, sprintf, memcpy}
use pocker_backend.Message.Cstdlib.Decimal.{sprintf-atoi}
use pocker_backend.Message.{
  Message, header_length, max_body_length, set_body_length, body, decode_header, encode_header,
  assign, wire,
}

-- The buffer has its full size, and the length field stays within the body.
pub record IsValid (m : Message) : Type 0 where
  pub full : length m.buffer ≡ 2048
  pub fits : m.body_length ≤ max_body_length

-- The bytes are a header and the text, and the header decodes to the length of the text.
abbrev pub IsFrame : Bytes → Bytes → Type 0
IsFrame s w =
    (header : Bytes) × (w ≡ header ++ s)
    × (length header ≡ header_length)
    × ((r : Message)
        → take header_length r.buffer ≡ header
        → decode_header r ≡ (record r { body_length = length s }, true))

-- Whatever four bytes stand in the header, decoding leaves the buffer as it is and the length within
-- the body, and it accepts the header or sets the length to 0.
pub decode_header_bounds :
    (m : Message)
    → ((decode_header m).0.body_length ≤ max_body_length)
      × ((decode_header m).0.buffer ≡ m.buffer)
      × (((decode_header m).1 ≡ true) ⊎ ((decode_header m).0.body_length ≡ 0))
unfolding decode_header
decode_header_bounds m = (
  ground arith,
  ground arith,
  elim (Bool-cases ((decode_header m).1)) [
    | inl accepted ↦ inl accepted
    | inr refused ↦ inr (ground arith)
  ],
)

-- The buffer after `src` was copied to `offset`.
abbrev pub overwritten : Bytes → ℕ → Bytes → Bytes
overwritten buffer offset src = take offset buffer ++ (src ++ drop (offset + length src) buffer)

pub length-overwritten :
    (buffer : Bytes) (offset : ℕ) (src : Bytes)
    → offset + length src ≤ length buffer
    → length (overwritten buffer offset src) ≡ length buffer
length-overwritten buffer offset src h = omega (
  arith,
  length-append (take offset buffer) (src ++ drop (offset + length src) buffer),
  length-append src (drop (offset + length src) buffer),
  length-take offset buffer,
  length-drop (offset + length src) buffer,
)

pub memcpy_fits :
    (buffer : Bytes) (offset : ℕ) (src : Bytes)
    → offset + length src ≤ length buffer
    → memcpy buffer offset src ≡ ok (overwritten buffer offset src)
unfolding memcpy
memcpy_fits buffer offset src h = rw (le→ltb _ _ h)

memcpy_overrun :
    (buffer : Bytes) (offset : ℕ) (src : Bytes)
    → length buffer < offset + length src
    → memcpy buffer offset src ≡ err undefined
unfolding memcpy
memcpy_overrun buffer offset src h = rw (lt→ltb _ _ h)

set_body_length-min :
    (m : Message) (n : ℕ) → n ≤ max_body_length → set_body_length m n ≡ record m { body_length = n }
unfolding set_body_length
set_body_length-min m n h = rw (le→ltb _ _ h)

header-decodes :
    (n : ℕ) (header : Bytes) (r : Message)
    → n ≤ max_body_length
    → length header ≡ header_length
    → IsNulFree header
    → atoi header ≡ pos n
    → take header_length r.buffer ≡ header
    → decode_header r ≡ (record r { body_length = n }, true)
unfolding decode_header
header-decodes n header r small len clean value e =
    rw (e, c_str_id header clean, value) (ground arith)

-- The buffer after the header and the text were copied into it.
abbrev filled : Bytes → Bytes → Bytes → Bytes
filled header s buffer =
    header ++ (s ++ drop (header_length + length s) (header ++ drop (length header) buffer))

encode_header_lem :
    (m : Message) (header : Bytes)
    → IsValid m
    → sprintf header_length (int_of_size m.body_length) ≡ ok header
    → length header ≡ header_length
    → encode_header m ≡ ok (record m { buffer = header ++ drop (length header) m.buffer })
unfolding encode_header memcpy
encode_header_lem m header v printed len = rw (printed) (ground (arith, v.full, len))

set_body_length-max :
    (m : Message) (n : ℕ)
    → max_body_length < n
    → set_body_length m n ≡ record m { body_length = max_body_length }
unfolding set_body_length
set_body_length-max m n h = rw (lt→ltb _ _ h)

printed_header :
    (n : ℕ)
    → n ≤ max_body_length
    → (header : Bytes) × (sprintf header_length (int_of_size n) ≡ ok header)
      × (length header ≡ header_length)
      × ((r : Message)
          → take header_length r.buffer ≡ header
          → decode_header r ≡ (record r { body_length = n }, true))
printed_header n h =
    let (header, printed, len, clean, value) = sprintf-atoi n (omega arith) in
    let same : int_of_size n ≡ pos n = ground arith in
    (header, rw same printed, len, λ r. header-decodes n header r h len clean value)

module _ (m : Message) (s : Bytes) (v : length m.buffer ≡ 2048) where
  assign_fits :
      (header : Bytes)
      → length s ≤ max_body_length
      → sprintf header_length (int_of_size (length s)) ≡ ok header
      → length header ≡ header_length
      → assign m s ≡ ok (record { buffer = filled header s m.buffer; body_length = length s })
  unfolding assign
  assign_fits header fits printed len = rw (
    set_body_length-min m (length s) fits,
    encode_header_lem (record m { body_length = length s }) header
        (record { full = v; fits = fits }) printed len,
    memcpy_fits (header ++ drop (length header) m.buffer) header_length s (
        omega (
          arith,
          length-append header (drop (length header) m.buffer),
          length-drop (length header) m.buffer,
        )),
    take-append header_length header (drop (length header) m.buffer) (sym len),
  )

  -- The assignment of a string of more than 2044 bytes to a message with a full-size buffer copies
  -- past the end of the buffer.
  pub assign_overruns : max_body_length < length s → assign m s ≡ err undefined
  unfolding assign
  assign_overruns h =
      let clamped : Message = record m { body_length = max_body_length } in
      let (header, printed, len, _) = printed_header max_body_length (omega arith) in
      rw (
        set_body_length-max m (length s) h,
        encode_header_lem clamped header (record { full = v; fits = omega arith }) printed len,
        memcpy_overrun (header ++ drop (length header) m.buffer) header_length s (
            omega (
              arith,
              length-append header (drop (length header) m.buffer),
              length-drop (length header) m.buffer,
            )),
      )

module _ (header s buffer : Bytes) (len : length header ≡ header_length) where
  length-filled :
      length s ≤ max_body_length → length buffer ≡ 2048 → length (filled header s buffer) ≡ 2048
  length-filled fits full =
      let behind = header ++ drop (length header) buffer in
      omega (
        arith,
        length-append header (s ++ drop (header_length + length s) behind),
        length-append s (drop (header_length + length s) behind),
        length-drop (header_length + length s) behind,
        length-append header (drop (length header) buffer),
        length-drop (length header) buffer,
      )

  take-filled : take (header_length + length s) (filled header s buffer) ≡ header ++ s
  take-filled =
      let rest : Bytes = drop (header_length + length s) (header ++ drop (length header) buffer) in
      rw (← append_assoc header s rest) (
        take-append (header_length + length s) (header ++ s) rest
          (omega (arith, length-append header s)))

-- A string of at most 2044 bytes is stored whole in a full-size buffer: the message stays valid, its
-- body is the string, and what it puts on the wire is four bytes that decode to the length of the
-- string, then the string.
pub assign-IsFrame :
    (m : Message) (s : Bytes)
    → length m.buffer ≡ 2048
    → length s ≤ max_body_length
    → (m' : Message) × (assign m s ≡ ok m') × IsValid m' × (body m' ≡ s) × IsFrame s (wire m')
unfolding body wire
assign-IsFrame m s v fits =
    let (header, printed, len, decodes) = printed_header (length s) fits in
    let rest : Bytes = drop (header_length + length s) (header ++ drop (length header) m.buffer) in
    (
      record { buffer = filled header s m.buffer; body_length = length s },
      assign_fits m s v header fits printed len,
      record { full = length-filled header s m.buffer len fits v; fits = fits },
      rw (drop-append header_length header (s ++ rest) (sym len))
          (take-append (length s) s rest refl),
      (header, take-filled header s m.buffer len, len, decodes),
    )
