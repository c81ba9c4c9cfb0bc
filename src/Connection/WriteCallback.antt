-- ===== src/Connection/WriteCallback.antt =====
-- What the callback of a write leaves, and that it returns.
use pocker_backend.Base.{
  ◌≤◌, ◌≡◌, ◌⊎◌, inl, inr, refl, sym, ap, ◌∙◌, subst, List, [], ◌∷◌, ◌++◌, length, drop,
}
use pocker_backend.Base.Bytes.{Bytes}
use pocker_backend.Base.Results.{ok}
use pocker_backend.Message.{Message, max_body_length, wire}
use pocker_backend.Connection.{Connection, Read, write_done}
use pocker_backend.Connection.Flow.{IsFlowing, IsStuck}
use pocker_backend.Connection.Delivery.{HasFlow}
use pocker_backend.Connection.Callbacks.{IsGood, IsReading, write_ended, ok_inj}

-- A write that has ended: an error leaves the queue stuck, and else the next message is written.
write_ended-flow :
    (queue : List Message) (ws : List Bytes) (w : Bytes) (rest : List Bytes) (c : Connection)
    → IsFlowing queue ws ⊎ IsStuck queue ws
    → ws ≡ w ∷ rest
    → (drop 1 ws ≡ [])
      × IsStuck queue (drop 1 ws)
      × ((c' : Connection)
          → write_done (record c { write_msgs = queue; writes = drop 1 ws }) ≡ ok c'
          → HasFlow c' × (c'.read_msg ≡ c.read_msg) × (c'.reads ≡ c.reads))
unfolding write_done
write_ended-flow [] ws w rest c (inl flow) e = absurd (cc)
write_ended-flow [] ws w rest c (inr stuck) e = absurd stuck
write_ended-flow (m ∷ queue) ws w rest c (inr stuck) e = absurd (cc)
write_ended-flow (m ∷ []) ws w rest c (inl flow) e =
    let gone : drop 1 ws ≡ [] = rw flow refl in
    (
      gone,
      gone,
      λ c' done.
          let same : record c { write_msgs = []; writes = drop 1 ws } ≡ c' = ok_inj done in
          subst (λ k. HasFlow k × (k.read_msg ≡ c.read_msg) × (k.reads ≡ c.reads)) same
            (inl gone, refl, refl),
    )
write_ended-flow (m ∷ x ∷ queue) ws w rest c (inl flow) e =
    let gone : drop 1 ws ≡ [] = rw flow refl in
    (
      gone,
      gone,
      λ c' done.
          let same : record c { write_msgs = x ∷ queue; writes = drop 1 ws ++ wire x ∷ [] } ≡ c' =
            ok_inj done in
          subst (λ k. HasFlow k × (k.read_msg ≡ c.read_msg) × (k.reads ≡ c.reads)) same
            (inl (rw gone refl), refl, refl),
    )

pub write_ended-IsGood :
    (c : Connection) (w : Bytes) (rest : List Bytes)
    → IsGood c
    → c.writes ≡ w ∷ rest
    → IsGood (write_ended c)
write_ended-IsGood c w rest good e =
    let (_, stuck, _) = write_ended-flow c.write_msgs c.writes w rest c good.flow e in
    record { full = good.full; small = good.small; flow = inr stuck; reading = good.reading }

-- What is read is the same.
pub IsReading-same :
    (c c' : Connection) → c'.read_msg ≡ c.read_msg → c'.reads ≡ c.reads → IsReading c → IsReading c'
IsReading-same c c' read reads (inl none) = inl (reads ∙ none)
IsReading-same c c' read reads (inr (inl one)) = inr (inl (reads ∙ one))
IsReading-same c c' read reads (inr (inr one)) =
    inr (inr (reads ∙ one ∙ ap (λ m. Read.body m.body_length ∷ []) (sym read)))

pub read_side :
    (c c' : Connection)
    → IsGood c
    → HasFlow c' × (c'.read_msg ≡ c.read_msg) × (c'.reads ≡ c.reads)
    → IsGood c'
read_side c c' good (flow, read, reads) = record {
  full = ap (λ m. length m.buffer) read ∙ good.full;
  small = subst (λ m. m.body_length ≤ max_body_length) (sym read) good.small;
  flow = flow;
  reading = IsReading-same c c' read reads good.reading;
}

pub write_done-IsGood :
    (c c' : Connection) (w : Bytes) (rest : List Bytes)
    → IsGood c
    → c.writes ≡ w ∷ rest
    → write_done (write_ended c) ≡ ok c'
    → IsGood c' × (c'.reads ≡ c.reads)
write_done-IsGood c c' w rest good e done =
    let (_, _, next) = write_ended-flow c.write_msgs c.writes w rest c good.flow e in
    let (flow, read, reads) = next c' done in (read_side c c' good (flow, read, reads), reads)

write_returns :
    (queue : List Message) (w : Bytes) (rest : List Bytes) (c : Connection)
    → IsFlowing queue c.writes ⊎ IsStuck queue c.writes
    → c.writes ≡ w ∷ rest
    → (c' : Connection) × (write_done (record c { write_msgs = queue; writes = drop 1 c.writes })
        ≡ ok c')
unfolding write_done
write_returns [] w rest c (inl flow) e = absurd (cc)
write_returns [] w rest c (inr stuck) e = absurd stuck
write_returns (m ∷ []) w rest c flow e = (_, refl)
write_returns (m ∷ x ∷ queue) w rest c flow e = (_, refl)

-- A write that is over has a message to take off the queue.
pub write_done-returns :
    (c : Connection) (w : Bytes) (rest : List Bytes)
    → IsGood c
    → c.writes ≡ w ∷ rest
    → (c' : Connection) × (write_done (write_ended c) ≡ ok c')
write_done-returns c w rest good e = write_returns c.write_msgs w rest c good.flow e
