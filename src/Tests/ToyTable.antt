-- ===== src/Tests/ToyTable.antt =====
-- A concrete table on which the theorems are evaluated: a list of rows.
use mathlib.Core.List.{Permᴰ}
use mathlib.Core.List.Permᴰ
use pocker_backend.Base.{
  ℕ, ◌≤◌, ◌≡◌, ◌⊎◌, List, [], ◌∷◌, true, some, if◌then◌else◌, arith, ltb, Bool-cases, inl, inr,
  subst,
}
use pocker_backend.Base.Bytes.{Bytes, beq, beq_sound, beq_refl}
use pocker_backend.Database.{Database, TabUser}
use pocker_backend.Database.Laws.{All, IsRelational}

abbrev select : Bytes → List TabUser → List TabUser
select e [] = []
select e (r ∷ rows) = if beq r.email e then r ∷ select e rows else select e rows

abbrev remove : Bytes → List TabUser → List TabUser
remove e [] = []
remove e (r ∷ rows) = if beq r.email e then remove e rows else r ∷ remove e rows

abbrev largest : List TabUser → ℕ
largest [] = 0
largest (r ∷ rows) = if ltb (largest rows) r.user_id then r.user_id else largest rows

abbrev pub toy_table : Database
toy_table = record {
  Db = List TabUser;
  open_connection = λ config. some [];
  accepts = λ q db. true;
  select_rows = select;
  max_user_id = largest;
  insert_row = λ r db. r ∷ db;
  remove_rows = remove;
}

selected : (e : Bytes) (rows : List TabUser) → All (λ r. r.email ≡ e) (select e rows)
selected e [] = tt
selected e (r ∷ rows) = elim (Bool-cases (beq r.email e)) [
  | inl hit ↦ rw hit (beq_sound r.email e hit, selected e rows)
  | inr miss ↦ rw miss (selected e rows)
]

below :
    (m n : ℕ) (rows : List TabUser)
    → m ≤ n
    → All (λ r. r.user_id ≤ m) rows
    → All (λ r. r.user_id ≤ n) rows
below m n [] h all = tt
below m n (r ∷ rows) h all = (omega (arith, all.0), below m n rows h all.1)

bounded : (e : Bytes) (rows : List TabUser) → All (λ r. r.user_id ≤ largest rows) (select e rows)
bounded e [] = tt
bounded e (r ∷ rows) =
    let rest =
      below (largest rows) (largest (r ∷ rows)) (select e rows) (ground arith) (bounded e rows) in
    elim (Bool-cases (beq r.email e)) [
      | inl hit ↦ rw hit (ground arith, rest)
      | inr miss ↦ rw miss rest
    ]

select-remove :
    (e x : Bytes) (rows : List TabUser)
    → select e (remove x rows) ≡ (if beq x e then [] else select e rows)
select-remove e x [] = ground arith
select-remove e x (r ∷ rows) = ground (
  arith,
  select-remove e x rows,
  beq_sound r.email x,
  beq_sound r.email e,
  beq_sound x e,
  beq_refl x,
  beq_refl e,
)

largest-remove : (x : Bytes) (rows : List TabUser) → largest (remove x rows) ≤ largest rows
largest-remove x [] = omega arith
largest-remove x (r ∷ rows) = ground (arith, largest-remove x rows)

largest-insert :
    (r : TabUser) (rows : List TabUser)
    → (largest (r ∷ rows) ≤ r.user_id) ⊎ (largest (r ∷ rows) ≤ largest rows)
largest-insert r rows = elim (Bool-cases (ltb (largest rows) r.user_id)) [
  | inl more ↦ inl (rw more (omega arith))
  | inr less ↦ inr (rw less (omega arith))
]

pub toy_table-IsRelational : IsRelational toy_table
toy_table-IsRelational = record {
  selected_email = selected;
  max_bounds = bounded;
  select_insert = λ e r db took. Permᴰ.refl _;
  select_remove = λ e x db took.
      subst (λ rows. Permᴰ (select e (remove x db)) rows) (select-remove e x db) (Permᴰ.refl _);
  max_insert = λ r db took. largest-insert r db;
  max_remove = λ x db took. largest-remove x db;
}
