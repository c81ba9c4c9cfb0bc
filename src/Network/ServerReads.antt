-- ===== src/Network/ServerReads.antt =====
-- A read of a connection completes, whatever the rest of the network is.
use pocker_backend.Base.{
  take, true, take_all, false, ℕ, ◌≡◌, refl, sym, ap, ◌∙◌, List, [], ◌∷◌, ◌++◌, length, arith,
  le→ltb, length-append, take-append, drop-append,
}
use pocker_backend.Base.Bytes.{Bytes}
use pocker_backend.Base.Results.{Result, ok, err, Error}
use pocker_backend.Message.{Message, header_length, decode_header}
use pocker_backend.Message.Arrival.{header_arrives}
use pocker_backend.Connection.{Connection, Read, header_done}
use pocker_backend.Connection.Callbacks.{read_ended}
use pocker_backend.Handler.State.{Env, Backend, ◌>>◌, update}
use pocker_backend.Server.Callbacks.{on_connection, end_read, header_callback, forget}
use pocker_backend.Server.Arriving.{at, followed, on_connection_lem, update_self}
use pocker_backend.Network.{server_read, callback, size_of, set}
use pocker_backend.Network.Holds.{Setup, programs, Net}

-- Two calls on the same connection.
pub both_calls :
    (E : Env) (i : ℕ) (f g : Connection → Result Connection) (b : Backend E) (c₁ c₂ : Connection)
    → f (b.connections i) ≡ ok c₁
    → g c₁ ≡ ok c₂
    → (on_connection E i f >> on_connection E i g) b
      ≡ (ok tt, at E b (update E (update E b.connections i c₁) i c₂))
both_calls E i f g b c₁ c₂ e₁ e₂ =
    followed E (on_connection E i f) (λ _. on_connection E i g) b _ tt
      (on_connection_lem E i f b _ c₁ refl e₁)
    ∙ on_connection_lem E i g (at E b (update E b.connections i c₁)) c₁ c₂
        (update_self E b.connections i c₁) e₂

-- A header that decodes to the length of a text is read.
pub header_ran :
    (E : Env) (i : ℕ) (b : Backend E) (c : Connection) (text header : Bytes)
    → b.connections i ≡ c
    → c.reads ≡ Read.header ∷ []
    → length c.read_msg.buffer ≡ 2048
    → length header ≡ header_length
    → ((m : Message)
        → take header_length m.buffer ≡ header
        → decode_header m ≡ (record m { body_length = length text }, true))
    → (buffer : Bytes) × ((end_read E i >> header_callback E i false header) b ≡ (
      ok tt,
      at E b (
          update E (update E b.connections i (read_ended c)) i (record c {
            read_msg = record { buffer = buffer; body_length = length text };
            reads = Read.body (length text) ∷ [];
          })),
    ))
      × (length buffer ≡ 2048)
unfolding end_read header_callback header_done
header_ran E i b c text header conn reads full len decodes =
    let (buffer, copied, decoded, full') = header_arrives c.read_msg text header full len decodes in
    (
      buffer,
      both_calls E i (λ c. ok (read_ended c)) (λ c. forget E (header_done header c)) b
          (read_ended c) _ (ap (λ c. ok (read_ended c)) conn) (rw (copied, decoded, reads) refl),
      full',
    )

module _ (S : Setup) (n : Net S) (i : ℕ) where
  -- A read of the server completes.
  pub server_read_lem :
      (r : Read) (rest : List Read) (arrived left : Bytes) (b : Backend (S.env))
      → n.up i ≡ arrived ++ left
      → length arrived ≡ size_of r
      → (end_read (S.env) i >> callback (S.env) (programs S) r i arrived) n.backend ≡ (ok tt, b)
      → server_read (S.env) (programs S) (r ∷ rest) i n
        ≡ ok (record n { backend = b; up = set n.up i left })
  unfolding server_read
  server_read_lem r rest arrived left b glued size done =
      rw
        (
          glued,
          le→ltb (length (arrived ++ left)) (size_of r) (omega (arith, length-append arrived left)),
          take-append (size_of r) arrived left (sym size),
          drop-append (size_of r) arrived left (sym size),
          done,
        )
        refl

  pub server_read_throws :
      (r : Read) (rest : List Read) (arrived : Bytes) (e : Error) (b : Backend (S.env))
      → n.up i ≡ arrived
      → length arrived ≡ size_of r
      → (end_read (S.env) i >> callback (S.env) (programs S) r i arrived) n.backend ≡ (err e, b)
      → server_read (S.env) (programs S) (r ∷ rest) i n ≡ err e
  unfolding server_read
  server_read_throws r rest arrived e b there size threw =
      rw
        (
          there,
          le→ltb (length arrived) (size_of r) (omega arith),
          take_all (size_of r) arrived (omega arith),
          threw,
        )
        refl
