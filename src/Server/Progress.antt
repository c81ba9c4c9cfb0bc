-- ===== src/Server/Progress.antt =====
-- The callbacks return: only the handler can throw.
use pocker_backend.Base.{ℕ, ◌≡◌, ◌⊎◌, inl, inr, refl, ap, ◌∙◌, List, ◌∷◌, Bool, true, false, length}
use pocker_backend.Base.Bytes.{Bytes}
use pocker_backend.Base.Results.{Error, ok, err, Result-cases}
use pocker_backend.Message.{Message, header_length, body}
use pocker_backend.Rapidjson.{IsFaithful}
use pocker_backend.Server.Accepting.{handle_accept_returns}
use pocker_backend.Connection.{
  Connection, Read, header_done, body_arrived, write_done, do_read_header,
}
use pocker_backend.Connection.Reading.{header_done_safe, body_arrived_safe}
use pocker_backend.Connection.Callbacks.{IsGood, read_ended, write_ended, announced}
use pocker_backend.Connection.WriteCallback.{write_done-returns}
use pocker_backend.Handler.State.{Env, Backend, Action, ◌>>=◌, ◌>>◌, update}
use pocker_backend.Handler.Dispatch.{handle}
use pocker_backend.Server.{handle_accept, TcpServer}
use pocker_backend.Server.Callbacks.{
  on_connection, header_callback, body_callback, write_callback, end_read, read_message,
  drop_connection, forget,
}
use pocker_backend.Server.Arriving.{at, followed, on_connection_lem, update_self, rest_of_body}
use pocker_backend.Server.Starting.{start_up}
use pocker_backend.Server.Loop.{
  accepts, Step, Reaches, end_write, read_fails, reads_header, reads_body, fails_read, ends_write,
}
use pocker_backend.Server.Invariant.{Reaches-Invariant}

module _ {E : Env} where
  -- An operation that can complete.
  pub data Pending (s : TcpServer E) : Type 0 where
    header_there :
        (i : ℕ) (rest : List Read) (arrived : Bytes)
        → (s.backend.connections i).reads ≡ Read.header ∷ rest
        → length arrived ≡ header_length
        → Pending s
    body_there :
        (i n : ℕ) (rest : List Read) (arrived : Bytes)
        → (s.backend.connections i).reads ≡ Read.body n ∷ rest
        → length arrived ≡ n
        → Pending s
    read_fails_there :
        (i : ℕ) (r : Read) (rest : List Read)
        → (s.backend.connections i).reads ≡ r ∷ rest
        → Pending s
    write_over :
        (i : ℕ) (error : Bool) (w : Bytes) (rest : List Bytes)
        → (s.backend.connections i).writes ≡ w ∷ rest
        → Pending s
    -- with the address of the connection that waits next
    accept_over : (i fresh : ℕ) (error : Bool) (rest : List ℕ) → s.accepts ≡ i ∷ rest → Pending s

  -- An action of the handler returns, and is a step of the loop.
  abbrev Goes : TcpServer E → Action E (Unit {0}) → Type 0
  Goes s m = (b : Backend E) × (m s.backend ≡ (ok tt, b)) × Step E s (record s { backend = b })

  -- What runs when it completes returns, and is a step of the loop.
  abbrev pub StepsOn : (s : TcpServer E) → Pending s → Type 0
  StepsOn s (header_there i rest arrived _ _) =
      Goes s (end_read E i >> header_callback E i false arrived)
  StepsOn s (body_there i n rest arrived _ _) =
      Goes s (end_read E i >> body_callback E i false arrived)
  StepsOn s (read_fails_there i r rest _) = Goes s (end_read E i >> read_fails E r i)
  StepsOn s (write_over i error w rest _) = Goes s (end_write E i >> write_callback E i error)
  StepsOn s (accept_over i fresh error rest _) =
      (s' : TcpServer E) × (handle_accept E i error fresh (record s { accepts = rest })
        ≡ (ok tt, s'))
      × Step E s s'

  -- The run throws what the handler throws on a message whose body are the bytes that arrived, with the
  -- database, the users and the participants as they are.
  abbrev pub HandlerThrows : (s : TcpServer E) → Pending s → Type 0
  HandlerThrows s (body_there i n rest arrived waits len) =
      (msg : Message) × (b b' : Backend E) × (e : Error) × (body msg ≡ arrived)
      × (b.db_wrkr ≡ s.backend.db_wrkr)
      × (b.srv ≡ s.backend.srv)
      × (b.participants ≡ s.backend.participants)
      × (handle E msg i b ≡ (err e, b'))
      × ((end_read E i >> body_callback E i false arrived) s.backend ≡ (err e, b'))
  HandlerThrows s _ = ⊥

  threw_on :
      {A B : Type 0} (m : Action E A) (k : A → Action E B) (b b' : Backend E) (e : Error)
      → m b ≡ (err e, b')
      → (m >>= k) b ≡ (err e, b')
  threw_on m k b b' e threw =
      ap (λ x. elim x.0 [ ok a ↦ k a x.1 | err thrown ↦ (err thrown, x.1) ]) threw

  -- The first action of a callback: the operation is over.
  read_is_over :
      (i : ℕ) (b : Backend E)
      → end_read E i b ≡ (ok tt, at E b (update E b.connections i (read_ended (b.connections i))))
  unfolding end_read
  read_is_over i b = on_connection_lem E i (λ c. ok (read_ended c)) b _ _ refl refl

  write_is_over :
      (i : ℕ) (b : Backend E)
      → end_write E i b ≡ (ok tt, at E b (update E b.connections i (write_ended (b.connections i))))
  unfolding end_write
  write_is_over i b = on_connection_lem E i (λ c. ok (write_ended c)) b _ _ refl refl

  header_returns :
      (s : TcpServer E) (i : ℕ) (rest : List Read) (arrived : Bytes)
      → IsGood (s.backend.connections i)
      → (waits : (s.backend.connections i).reads ≡ Read.header ∷ rest)
      → (len : length arrived ≡ header_length) → StepsOn s (header_there i rest arrived waits len)
  unfolding header_callback
  header_returns s i rest arrived good waits len =
      let b = s.backend in
      let c₁ : Connection = read_ended (b.connections i) in
      let b₁ : Backend E = at E b (update E b.connections i c₁) in
      let (c₂, flag, done, _, _, _) = header_done_safe arrived c₁ good.full len in
      let ran =
        followed E (end_read E i) (λ _. header_callback E i false arrived) b b₁ tt
          (read_is_over i b)
        ∙ on_connection_lem E i (λ c. forget E (header_done arrived c)) b₁ c₁ c₂
            (update_self E b.connections i c₁) (rw done refl) in
      (_, ran, reads_header i rest arrived waits len ran)

  body_returns :
      (s : TcpServer E) (i n : ℕ) (rest : List Read) (arrived : Bytes)
      → IsGood (s.backend.connections i)
      → (waits : (s.backend.connections i).reads ≡ Read.body n ∷ rest) → (len : length arrived ≡ n)
      → StepsOn s (body_there i n rest arrived waits len)
        ⊎ HandlerThrows s (body_there i n rest arrived waits len)
  unfolding body_callback read_message
  body_returns s i n rest arrived good waits len =
      let b = s.backend in
      let c₁ : Connection = read_ended (b.connections i) in
      let f₁ : ℕ → Connection = update E b.connections i c₁ in
      let size = len ∙ announced (b.connections i) n rest good.reading waits in
      let (c₂, done, _, is) = body_arrived_safe arrived c₁ good.full good.small size in
      let b₂ : Backend E = at E b (update E f₁ i c₂) in
      let msg : Message = (b₂.connections i).read_msg in
      let text : body msg ≡ arrived = ap (λ k. body k.read_msg) (update_self E f₁ i c₂) ∙ is in
      let before : (end_read E i >> body_callback E i false arrived) b ≡ rest_of_body E i b₂ =
        followed E (end_read E i) (λ _. body_callback E i false arrived) b (at E b f₁) tt
          (read_is_over i b)
        ∙ followed E (on_connection E i (body_arrived arrived)) (λ _. rest_of_body E i) (at E b f₁)
            b₂ tt
            (on_connection_lem E i (body_arrived arrived) (at E b f₁) c₁ c₂
              (update_self E b.connections i c₁) done) in
      let b₃ : Backend E = (handle E msg i b₂).1 in
      elim (Result-cases (handle E msg i b₂).0) [
        | inl (e, threw) ↦
            let failed : handle E msg i b₂ ≡ (err e, b₃) = ap (λ r. (r, b₃)) threw in
            inr (
              msg,
              b₂,
              b₃,
              e,
              text,
              refl,
              refl,
              refl,
              failed,
              before
                  ∙ threw_on (handle E msg i) (λ _. on_connection E i (λ c. ok (do_read_header c)))
                      b₂ b₃ e failed,
            )
        | inr (u, went) ↦
            let ran =
              before
              ∙ followed E (handle E msg i) (λ _. on_connection E i (λ c. ok (do_read_header c))) b₂
                  b₃ u (ap (λ r. (r, b₃)) went)
              ∙ on_connection_lem E i (λ c. ok (do_read_header c)) b₃ (b₃.connections i)
                  (do_read_header (b₃.connections i)) refl refl in
            inl (_, ran, reads_body i n rest arrived waits len ran)
      ]

  fail_returns :
      (s : TcpServer E) (i : ℕ) (r : Read) (rest : List Read)
      → (waits : (s.backend.connections i).reads ≡ r ∷ rest)
      → StepsOn s (read_fails_there i r rest waits)
  unfolding read_fails header_callback body_callback drop_connection
  fail_returns s i Read.header rest waits =
      let ran =
        followed E (end_read E i) (λ _. read_fails E Read.header i) s.backend _ tt
          (read_is_over i s.backend) in
      (_, ran, fails_read i Read.header rest waits ran)
  fail_returns s i (Read.body n) rest waits =
      let ran =
        followed E (end_read E i) (λ _. read_fails E (Read.body n) i) s.backend _ tt
          (read_is_over i s.backend) in
      (_, ran, fails_read i (Read.body n) rest waits ran)

  write_returns :
      (s : TcpServer E) (i : ℕ) (error : Bool) (w : Bytes) (rest : List Bytes)
      → IsGood (s.backend.connections i)
      → (writing : (s.backend.connections i).writes ≡ w ∷ rest)
      → StepsOn s (write_over i error w rest writing)
  unfolding write_callback drop_connection
  write_returns s i true w rest good writing =
      let ran =
        followed E (end_write E i) (λ _. write_callback E i true) s.backend _ tt
          (write_is_over i s.backend) in
      (_, ran, ends_write i true w rest writing ran)
  write_returns s i false w rest good writing =
      let b = s.backend in
      let c₁ : Connection = write_ended (b.connections i) in
      let b₁ : Backend E = at E b (update E b.connections i c₁) in
      let (c₂, done) = write_done-returns (b.connections i) w rest good writing in
      let ran =
        followed E (end_write E i) (λ _. write_callback E i false) b b₁ tt (write_is_over i b)
        ∙ on_connection_lem E i write_done b₁ c₁ c₂ (update_self E b.connections i c₁) done in
      (_, ran, ends_write i false w rest writing ran)

  returns :
      (s : TcpServer E) (p : Pending s)
      → length (E.memory) ≡ 2048
      → IsFaithful (E.rapidjson)
      → ((i : ℕ) → IsGood (s.backend.connections i))
      → StepsOn s p ⊎ HandlerThrows s p
  returns s (header_there i rest arrived waits len) memory json good =
      inl (header_returns s i rest arrived (good i) waits len)
  returns s (body_there i n rest arrived waits len) memory json good =
      body_returns s i n rest arrived (good i) waits len
  returns s (read_fails_there i r rest waits) memory json good = inl (fail_returns s i r rest waits)
  returns s (write_over i error w rest writing) memory json good =
      inl (write_returns s i error w rest (good i) writing)
  returns s (accept_over i fresh error rest waits) memory json good =
      let (s', went) =
        handle_accept_returns E i fresh error (record s { accepts = rest }) memory json in
      inl (s', went, accepts i fresh error rest waits went)

  -- In every state that the event loop reaches from the one that the server starts in, with 2048 bytes of
  -- memory for a message and faithful documents: whatever accept, read or write completes or fails, of whatever
  -- connection, and whatever bytes arrive, its callback returns, and that is a step of the loop; unless it hands the handler a
  -- message whose body are the bytes that arrived, and throws what the handler throws on it, with the
  -- database, the users and the participants of that state.
  pub Reaches-StepsOn :
      (binds : ℕ → Bool) (content : Bytes) (port fresh : ℕ) (s s' : TcpServer E) (p : Pending s')
      → length (E.memory) ≡ 2048
      → IsFaithful (E.rapidjson)
      → start_up E binds content port fresh ≡ ok s
      → Reaches E s s'
      → StepsOn s' p ⊎ HandlerThrows s' p
  Reaches-StepsOn binds content port fresh s s' p memory json started reached =
      returns s' p memory json
        (Reaches-Invariant binds content port fresh s s' memory started reached).sane.good
