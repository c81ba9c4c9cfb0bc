-- ===== src/Connection/Callbacks.antt =====
-- What the callbacks of a connection leave of its other side.
use pocker_backend.Base.{
  ℕ, ◌≤◌, ◌≡◌, ◌⊎◌, inl, inr, refl, sym, ap, ◌∙◌, subst, List, [], ◌∷◌, ◌++◌, Bool, true, false,
  if◌then◌else◌, length, drop,
}
use pocker_backend.Base.Bytes.{Bytes}
use pocker_backend.Base.Results.{ok, err, Result-cases}
use pocker_backend.Message.{Message, header_length, max_body_length, decode_header}
use pocker_backend.Message.Cstdlib.{memcpy}
use pocker_backend.Connection.{Connection, Read, header_done, after_header, body_arrived}
use pocker_backend.Connection.Delivery.{HasFlow}
use pocker_backend.Connection.Reading.{IsFull, header_done_safe, body_arrived_safe}

-- No read is outstanding, or the next header, or the body that was announced, is being read.
abbrev pub IsReading : Connection → Type 0
IsReading c =
    (c.reads ≡ [])
    ⊎ ((c.reads ≡ Read.header ∷ []) ⊎ (c.reads ≡ Read.body c.read_msg.body_length ∷ []))

pub record IsGood (c : Connection) : Type 0 where
  pub full : IsFull c
  pub small : c.read_msg.body_length ≤ max_body_length
  pub flow : HasFlow c
  pub reading : IsReading c

-- The connection without its first outstanding read, or write.
abbrev pub read_ended : Connection → Connection
read_ended c = record c { reads = drop 1 c.reads }

abbrev pub write_ended : Connection → Connection
write_ended c = record c { writes = drop 1 c.writes }

-- An outstanding read is the only one.
pub only_read :
    (c : Connection) (r : Read) (rest : List Read)
    → IsReading c
    → c.reads ≡ r ∷ rest
    → drop 1 c.reads ≡ []
only_read c r rest (inl none) e = rw none refl
only_read c r rest (inr (inl one)) e = rw one refl
only_read c r rest (inr (inr one)) e = rw one refl

pub read_ended-IsGood :
    (c : Connection) (r : Read) (rest : List Read)
    → IsGood c
    → c.reads ≡ r ∷ rest
    → IsGood (read_ended c)
read_ended-IsGood c r rest good e = record {
  full = good.full;
  small = good.small;
  flow = good.flow;
  reading = inl (only_read c r rest good.reading e);
}

-- The body that is read is the one that was announced.
pub announced :
    (c : Connection) (n : ℕ) (rest : List Read)
    → IsReading c
    → c.reads ≡ Read.body n ∷ rest
    → n ≡ c.read_msg.body_length
announced c n rest (inl none) e = absurd (cc)
announced c n rest (inr (inl one)) e = absurd (cc)
announced c n rest (inr (inr one)) e = cc

after_header-HasFlow :
    (c : Connection) (d : Message × Bool) → HasFlow c → HasFlow (after_header c d).0
unfolding after_header
after_header-HasFlow c (m, true) flow = flow
after_header-HasFlow c (m, false) flow = flow

pub ok_inj {ℓ} : {A : Type ℓ} {a b : A} → ok a ≡ ok b → a ≡ b
ok_inj e = cc

header_done-HasFlow :
    (arrived : Bytes) (c c' : Connection) (accepted : Bool)
    → HasFlow c
    → header_done arrived c ≡ ok (c', accepted)
    → HasFlow c'
unfolding header_done
header_done-HasFlow arrived c c' accepted flow done =
    elim (Result-cases (memcpy c.read_msg.buffer 0 arrived)) [
      | inl (e, failed) ↦
          let threw : header_done arrived c ≡ err e = rw failed refl in absurd (cc (done, threw))
      | inr (buffer, copied) ↦
          let d = decode_header (record c.read_msg { buffer = buffer }) in
          let went : header_done arrived c ≡ ok (after_header c d) = rw copied refl in
          let same : (after_header c d).0 ≡ c' = ap (λ x. x.0) (ok_inj (sym went ∙ done)) in
          subst HasFlow same (after_header-HasFlow c d flow)
    ]

then_reads :
    (flag : Bool) (reads : List Read) (c : Connection)
    → reads ≡ []
    → c.reads ≡ (if flag then reads ++ Read.body c.read_msg.body_length ∷ [] else reads)
    → IsReading c
then_reads true reads c none e =
    inr (inr (e ∙ ap (λ rs. rs ++ Read.body c.read_msg.body_length ∷ []) none))
then_reads false reads c none e = inl (e ∙ none)

pub header_done-IsGood :
    (arrived : Bytes) (c c' : Connection) (accepted : Bool)
    → IsGood c
    → c.reads ≡ []
    → length arrived ≡ header_length
    → header_done arrived c ≡ ok (c', accepted)
    → IsGood c'
header_done-IsGood arrived c c' accepted good none len done =
    let (c₁, flag, done₁, full, small, reads) = header_done_safe arrived c good.full len in
    let same : c₁ ≡ c' = ap (λ x. x.0) (ok_inj (sym done₁ ∙ done)) in
    subst IsGood same (record {
      full = full;
      small = small;
      flow = header_done-HasFlow arrived c c₁ flag good.flow done₁;
      reading = then_reads flag c.reads c₁ none reads;
    })

pub body_arrived-IsGood :
    (arrived : Bytes) (c c' : Connection)
    → IsGood c
    → c.reads ≡ []
    → length arrived ≡ c.read_msg.body_length
    → body_arrived arrived c ≡ ok c'
    → IsGood c' × (c'.reads ≡ [])
unfolding body_arrived
body_arrived-IsGood arrived c c' good none len done =
    elim (Result-cases (memcpy c.read_msg.buffer header_length arrived)) [
      | inl (e, failed) ↦
          let threw : body_arrived arrived c ≡ err e = rw failed refl in absurd (cc (done, threw))
      | inr (buffer, copied) ↦
          let c₁ : Connection = record c { read_msg = record c.read_msg { buffer = buffer } } in
          let went : body_arrived arrived c ≡ ok c₁ = rw copied refl in
          let (c₂, done₂, full, _) = body_arrived_safe arrived c good.full good.small len in
          let again : c₂ ≡ c₁ = ok_inj (sym done₂ ∙ went) in
          let same : c₁ ≡ c' = ok_inj (sym went ∙ done) in
          subst (λ k. IsGood k × (k.reads ≡ [])) same
            (
              record {
                full = subst IsFull again full;
                small = good.small;
                flow = good.flow;
                reading = inl none;
              },
              none,
            )
    ]
