-- ===== src/Handler/Participants.antt =====
-- The set of participants.
use pocker_backend.Base.{ℕ, ◌≡◌, List, [], ◌∷◌, Bool, true, false, ◌==◌, if◌then◌else◌, arith}
use pocker_backend.Handler.State.{
  Env, Backend, insert_participant, erase_participant, add_connection, del_connection,
}

abbrev pub contains : ℕ → List ℕ → Bool
contains j [] = false
contains j (i ∷ ps) = if i == j then true else contains j ps

-- No participant stands twice.
abbrev pub IsDistinct : List ℕ → Type 0
IsDistinct [] = Unit
IsDistinct (i ∷ ps) = (contains i ps ≡ false) × IsDistinct ps

module _ (E : Env) where
  contains-insert_participant :
      (i j : ℕ) (ps : List ℕ)
      → contains j (insert_participant E i ps) ≡ (if i == j then true else contains j ps)
  contains-insert_participant i j [] = ground arith
  contains-insert_participant i j (k ∷ ps) = ground (arith, contains-insert_participant i j ps)

  insert_participant-IsDistinct :
      (i : ℕ) (ps : List ℕ) → IsDistinct ps → IsDistinct (insert_participant E i ps)
  insert_participant-IsDistinct i [] h = ground arith
  insert_participant-IsDistinct i (k ∷ ps) h =
      ground (arith, contains-insert_participant i k ps, insert_participant-IsDistinct i ps h.1)

  contains-erase_participant :
      (i j : ℕ) (ps : List ℕ)
      → IsDistinct ps
      → contains j (erase_participant E i ps) ≡ (if i == j then false else contains j ps)
  contains-erase_participant i j [] h = ground arith
  contains-erase_participant i j (k ∷ ps) h = ground (arith, contains-erase_participant i j ps h.1)

  erase_participant-IsDistinct :
      (i : ℕ) (ps : List ℕ) → IsDistinct ps → IsDistinct (erase_participant E i ps)
  erase_participant-IsDistinct i [] h = tt
  erase_participant-IsDistinct i (k ∷ ps) h =
      ground (arith, contains-erase_participant i k ps h.1, erase_participant-IsDistinct i ps h.1)

  -- Adding a connection to a set of participants makes it one of them, keeps every other as it was,
  -- and leaves a set.
  pub add_connection-IsDistinct :
      (i j : ℕ) (b : Backend E)
      → IsDistinct b.participants
      → IsDistinct (add_connection E i b).participants
        × (contains j (add_connection E i b).participants
            ≡ (if i == j then true else contains j b.participants))
  unfolding add_connection
  add_connection-IsDistinct i j b h = (
    insert_participant-IsDistinct i b.participants h,
    contains-insert_participant i j b.participants,
  )

  -- Deleting a connection from a set of participants takes it out, keeps every other as it was, and
  -- leaves a set.
  pub del_connection-IsDistinct :
      (i j : ℕ) (b : Backend E)
      → IsDistinct b.participants
      → IsDistinct (del_connection E i b).participants
        × (contains j (del_connection E i b).participants
            ≡ (if i == j then false else contains j b.participants))
  unfolding del_connection
  del_connection-IsDistinct i j b h = (
    erase_participant-IsDistinct i b.participants h,
    contains-erase_participant i j b.participants h,
  )
