-- ===== src/Database/Laws.antt =====
-- What the program relies on of the table: a query sees the rows that were inserted and not removed,
-- in any order, and the maximum bounds every id.
use mathlib.Core.List.{Permᴰ}
use pocker_backend.Base.{◌≤◌, ◌≡◌, ◌⊎◌, List, [], ◌∷◌, true, if◌then◌else◌}
use pocker_backend.Base.Bytes.{Bytes, beq}
use pocker_backend.Database.{Database, TabUser, Query}

abbrev pub All {ℓ κ} : {A : Type ℓ} → (A → Type κ) → List A → Type κ
All P [] = Unit
All P (x ∷ xs) = P x × All P xs

module _ (D : Database) where
  pub record IsRelational : Type 0 where
    pub selected_email : (e : Bytes) (db : D.Db) → All (λ r. r.email ≡ e) (D.select_rows e db)
    pub max_bounds :
        (e : Bytes) (db : D.Db) → All (λ r. r.user_id ≤ D.max_user_id db) (D.select_rows e db)
    pub select_insert :
        (e : Bytes) (r : TabUser) (db : D.Db)
        → D.accepts (Query.insert r) db ≡ true
        → Permᴰ
            (D.select_rows e (D.insert_row r db))
            (if beq r.email e then r ∷ D.select_rows e db else D.select_rows e db)
    pub select_remove :
        (e x : Bytes) (db : D.Db)
        → D.accepts (Query.remove x) db ≡ true
        → Permᴰ (D.select_rows e (D.remove_rows x db)) (if beq x e then [] else D.select_rows e db)
    -- The largest id is no more than that of a row which was there or was inserted.
    pub max_insert :
        (r : TabUser) (db : D.Db)
        → D.accepts (Query.insert r) db ≡ true
        → (D.max_user_id (D.insert_row r db) ≤ r.user_id)
          ⊎ (D.max_user_id (D.insert_row r db) ≤ D.max_user_id db)
    pub max_remove :
        (x : Bytes) (db : D.Db)
        → D.accepts (Query.remove x) db ≡ true
        → D.max_user_id (D.remove_rows x db) ≤ D.max_user_id db
