-- ===== src/Connection/Flow.antt =====
-- A queue of messages, the front of which is being written, as a connection and a client keep it.
use pocker_backend.Base.{
  ◌⊎◌, inl, inr, ◌≡◌, refl, sym, ◌∙◌, List, [], ◌∷◌, ◌++◌, Bool, true, false, append_assoc,
}
use pocker_backend.Base.Bytes.{Bytes}
use pocker_backend.Message.{Message, wire}

-- The messages on the wire, one after the other.
abbrev pub wires : List Message → Bytes
wires [] = []
wires (m ∷ ms) = wire m ++ wires ms

pub wires-append : (xs ys : List Message) → wires (xs ++ ys) ≡ wires xs ++ wires ys
wires-append [] ys = refl
wires-append (x ∷ xs) ys =
    rw (wires-append xs ys) (sym (append_assoc (wire x) (wires xs) (wires ys)))

-- The front of the queue is being written, and nothing else.
abbrev pub IsFlowing : List Message → List Bytes → Type 0
IsFlowing [] ws = ws ≡ []
IsFlowing (m ∷ ms) ws = ws ≡ wire m ∷ []

-- No write is outstanding, though messages are queued.
abbrev pub IsStuck : List Message → List Bytes → Type 0
IsStuck [] ws = ⊥
IsStuck (m ∷ ms) ws = ws ≡ []

-- The two shapes of a queue, by whether it is alive.
abbrev pub IsLive : Bool → List Message → List Bytes → Type 0
IsLive true = IsFlowing
IsLive false = IsStuck

pub either_shape :
    (alive : Bool) (queue : List Message) (ws : List Bytes)
    → IsLive alive queue ws
    → IsFlowing queue ws ⊎ IsStuck queue ws
either_shape true queue ws h = inl h
either_shape false queue ws h = inr h

-- The queue is alive or stuck, and what was written with what is queued is `ms`, in order.
pub record Flows (alive : Bool) (queue : List Message) (ws : List Bytes) (written : Bytes)
    (ms : List Message) : Type 0 where
  pub shape : IsLive alive queue ws
  pub order : written ++ wires queue ≡ wires ms

push_order :
    (m : Message) (queue ms : List Message) (written : Bytes)
    → written ++ wires queue ≡ wires ms
    → written ++ wires (queue ++ m ∷ []) ≡ wires (ms ++ m ∷ [])
push_order m queue ms written h = simp wires-append (rw (← h) (simp append_assoc))

pop_order :
    (m : Message) (queue ms : List Message) (written : Bytes)
    → written ++ wires (m ∷ queue) ≡ wires ms
    → (written ++ wire m) ++ wires queue ≡ wires ms
pop_order m queue ms written h = append_assoc written (wire m) (wires queue) ∙ h

module _ (m : Message) {written : Bytes} {ms : List Message} where
  -- A message that joins an empty queue is written.
  pub Flows-push_first :
      {ws : List Bytes}
      → Flows true [] ws written ms
      → Flows true (m ∷ []) (ws ++ wire m ∷ []) written (ms ++ m ∷ [])
  Flows-push_first h = record { shape = rw h.shape refl; order = push_order m [] _ _ h.order }

  -- One that joins a longer queue waits.
  pub Flows-push :
      (alive : Bool) (x : Message) (queue : List Message) {ws : List Bytes}
      → Flows alive (x ∷ queue) ws written ms
      → Flows alive ((x ∷ queue) ++ m ∷ []) ws written (ms ++ m ∷ [])
  Flows-push true x queue h = record {
    shape = h.shape;
    order = push_order m (x ∷ queue) _ _ h.order;
  }
  Flows-push false x queue h = record {
    shape = h.shape;
    order = push_order m (x ∷ queue) _ _ h.order;
  }

  -- The front was written: it is taken off, and the next message, if there is one, is written.
  pub Flows-pop_last :
      {ws : List Bytes}
      → Flows true (m ∷ []) ws written ms
      → Flows true [] [] (written ++ wire m) ms
  Flows-pop_last h = record { shape = refl; order = pop_order m [] _ _ h.order }

  pub Flows-pop :
      (x : Message) (queue : List Message) {ws : List Bytes}
      → Flows true (m ∷ x ∷ queue) ws written ms
      → Flows true (x ∷ queue) (wire x ∷ []) (written ++ wire m) ms
  Flows-pop x queue h = record { shape = refl; order = pop_order m (x ∷ queue) _ _ h.order }

  -- The write of the front failed.
  pub Flows-stop :
      (queue : List Message) {ws : List Bytes}
      → Flows true (m ∷ queue) ws written ms
      → Flows false (m ∷ queue) [] written ms
  Flows-stop queue h = record { shape = refl; order = h.order }
