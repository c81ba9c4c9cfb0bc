-- ===== src/Message/Arrival.antt =====
-- The bytes of a frame that arrive in a full-size message.
use pocker_backend.Base.{
  ◌+◌, ◌≤◌, ◌≡◌, refl, sym, ◌∙◌, ◌++◌, true, arith, length, take, drop, length-take, take-append,
  drop-append,
}
use pocker_backend.Base.Bytes.{Bytes}
use pocker_backend.Base.Results.{ok}
use pocker_backend.Message.{Message, header_length, max_body_length, body, decode_header}
use pocker_backend.Message.Cstdlib.{memcpy}
use pocker_backend.Message.Frame.{overwritten, length-overwritten, memcpy_fits}

-- A header that decodes to the length of a text is read, and decodes to it.
pub header_arrives :
    (r : Message) (s header : Bytes)
    → length r.buffer ≡ 2048
    → length header ≡ header_length
    → ((m : Message)
        → take header_length m.buffer ≡ header
        → decode_header m ≡ (record m { body_length = length s }, true))
    → (buffer : Bytes) × (memcpy r.buffer 0 header ≡ ok buffer)
      × (decode_header (record r { buffer = buffer })
          ≡ (record { buffer = buffer; body_length = length s }, true))
      × (length buffer ≡ 2048)
header_arrives r s header full len decodes =
    let buffer = overwritten r.buffer 0 header in
    let fits : 0 + length header ≤ length r.buffer = omega arith in
    (
      buffer,
      memcpy_fits r.buffer 0 header fits,
      decodes (record r { buffer = buffer }) (take-append header_length header _ (sym len)),
      length-overwritten r.buffer 0 header fits ∙ full,
    )

-- A text of the announced length is read, and is the body.
pub text_arrives :
    (r : Message) (s : Bytes)
    → length r.buffer ≡ 2048
    → r.body_length ≡ length s
    → length s ≤ max_body_length
    → (buffer : Bytes) × (memcpy r.buffer header_length s ≡ ok buffer)
      × (body (record r { buffer = buffer }) ≡ s)
      × (length buffer ≡ 2048)
unfolding body
text_arrives r s full size small =
    let buffer = overwritten r.buffer header_length s in
    let fits : header_length + length s ≤ length r.buffer = omega arith in
    (
      buffer,
      memcpy_fits r.buffer header_length s fits,
      rw
          (
            size,
            drop-append header_length (take header_length r.buffer)
                (s ++ drop (header_length + length s) r.buffer)
                (omega (arith, length-take header_length r.buffer)),
          )
          (take-append (length s) s _ refl),
      length-overwritten r.buffer header_length s fits ∙ full,
    )
