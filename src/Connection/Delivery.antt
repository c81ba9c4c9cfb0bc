-- ===== src/Connection/Delivery.antt =====
-- A delivery: what it leaves alone, what it starts, and what it keeps.
use pocker_backend.Base.{◌≡◌, ◌⊎◌, inl, inr, refl, subst, List, [], ◌∷◌, ◌++◌, if◌then◌else◌}
use pocker_backend.Base.Results.{ok}
use pocker_backend.Message.{Message, wire}
use pocker_backend.Connection.{Connection, is_empty, deliver}
use pocker_backend.Connection.Flow.{IsFlowing, IsStuck}

-- The front of the queue is being written, and only that; or messages are queued and nothing is.
abbrev pub HasFlow : Connection → Type 0
HasFlow c = IsFlowing c.write_msgs c.writes ⊎ IsStuck c.write_msgs c.writes

-- What a delivery leaves alone, and what it starts where nothing was queued.
pub deliver_keeps :
    (m : Message) (c c' : Connection) (queue : List Message)
    → deliver m (record c { write_msgs = queue }) ≡ ok c'
    → (c'.read_msg ≡ c.read_msg)
      × (c'.reads ≡ c.reads)
      × (c'.writes ≡ (if is_empty queue then c.writes ++ wire m ∷ [] else c.writes))
unfolding deliver
deliver_keeps m c c' [] delivered =
    let started : Connection = record c { write_msgs = m ∷ []; writes = c.writes ++ wire m ∷ [] } in
    let same : started ≡ c' = cc in
    subst
      (λ k. (k.read_msg ≡ c.read_msg) × (k.reads ≡ c.reads) × (k.writes ≡ c.writes ++ wire m ∷ []))
      same (refl, refl, refl)
deliver_keeps m c c' (x ∷ queue) delivered =
    let queued : Connection = record c { write_msgs = x ∷ queue ++ m ∷ [] } in
    let same : queued ≡ c' = cc in
    subst (λ k. (k.read_msg ≡ c.read_msg) × (k.reads ≡ c.reads) × (k.writes ≡ c.writes)) same
      (refl, refl, refl)

pub deliver-HasFlow :
    (m : Message) (c c' : Connection) (queue : List Message)
    → IsFlowing queue c.writes ⊎ IsStuck queue c.writes
    → deliver m (record c { write_msgs = queue }) ≡ ok c'
    → HasFlow c'
unfolding deliver
deliver-HasFlow m c c' [] (inl flow) delivered =
    let same : record c { write_msgs = m ∷ []; writes = c.writes ++ wire m ∷ [] } ≡ c' = cc in
    subst HasFlow same (inl (rw flow refl))
deliver-HasFlow m c c' [] (inr stuck) delivered = absurd stuck
deliver-HasFlow m c c' (x ∷ queue) flow delivered =
    let same : record c { write_msgs = x ∷ queue ++ m ∷ [] } ≡ c' = cc in subst HasFlow same flow
