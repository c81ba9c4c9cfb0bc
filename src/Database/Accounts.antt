-- ===== src/Database/Accounts.antt =====
-- The table as what the program means by it: at most one account for an email, and no id twice.
use mathlib.Core.List.{Permᴰ}
use mathlib.Core.Path.{fun_ext}
use pocker_backend.Base.{
  ℕ, ◌+◌, ◌≤◌, ◌≡◌, ◌≢◌, refl, sym, ◌∙◌, inl, inr, List, [], ◌∷◌, true, Option, none, some, length,
  arith, if◌then◌else◌, subst, Bool-cases,
}
use pocker_backend.Base.Bytes.{Bytes, beq, beq_sound}
use pocker_backend.Database.{Database, TabUser, Query}
use pocker_backend.Database.Laws.{All, IsRelational}

-- A list of one row at most is the only order of its rows.
Perm-short : {xs ys : List TabUser} → Permᴰ xs ys → length ys ≤ 1 → xs ≡ ys
Perm-short Permᴰ.nil h = refl
Perm-short (Permᴰ.cons {l₂ = []} e p) h = cc (Perm-short p (omega arith))
Perm-short (Permᴰ.cons {l₂ = x ∷ l} e p) h = absurd (omega arith)
Perm-short (Permᴰ.swap e f) h = absurd (omega arith)
Perm-short (Permᴰ.trans p q) h = Perm-short p (rw (Perm-short q h) h) ∙ Perm-short q h

-- What the abstract view keeps of a row.
pub record Account : Type 0 where
  pub nickname : Bytes
  pub user_id : ℕ
  pub pass_hash : Bytes

abbrev pub account : TabUser → Account
account r = record { nickname = r.nickname; user_id = r.user_id; pass_hash = r.pass_hash }

abbrev pub Accounts : Type 0
Accounts = Bytes → Option Account

-- The accounts with one email set anew.
abbrev pub put : Bytes → Option Account → Accounts → Accounts
put e v accounts f = if beq e f then v else accounts f

abbrev pub first_account : List TabUser → Option Account
first_account [] = none
first_account (r ∷ rows) = some (account r)

-- No two emails share an id.
abbrev pub HasOwnIds : Accounts → Type 0
HasOwnIds accounts =
    (e f : Bytes) (a b : Account)
    → accounts e ≡ some a
    → accounts f ≡ some b
    → a.user_id ≡ b.user_id
    → e ≡ f

-- An id that no account has.
abbrev pub IsFresh : ℕ → Accounts → Type 0
IsFresh id accounts = (e : Bytes) (a : Account) → accounts e ≡ some a → a.user_id ≢ id

pub put-HasOwnIds :
    (e : Bytes) (a : Account) (accounts : Accounts)
    → HasOwnIds accounts
    → IsFresh a.user_id accounts
    → HasOwnIds (put e (some a) accounts)
put-HasOwnIds e a accounts own fresh f g b c is_b is_c same =
    ground (arith, beq_sound e f, beq_sound e g, own f g b c, fresh f b, fresh g c)

pub remove-HasOwnIds :
    (e : Bytes) (accounts : Accounts) → HasOwnIds accounts → HasOwnIds (put e none accounts)
remove-HasOwnIds e accounts own f g b c is_b is_c same = ground (arith, own f g b c)

module _ (D : Database) where
  abbrev pub view : D.Db → Accounts
  view db e = first_account (D.select_rows e db)

  pub record IsSound (db : D.Db) : Type 0 where
    pub one_row : (e : Bytes) → length (D.select_rows e db) ≤ 1
    pub own_ids : HasOwnIds (view db)

module _ (D : Database) (laws : IsRelational D) (db : D.Db) where
  bounded :
      (max : ℕ) (rows : List TabUser) (a : Account)
      → All (λ r. r.user_id ≤ max) rows
      → first_account rows ≡ some a
      → a.user_id ≤ max
  bounded max [] a all e = cc
  bounded max (r ∷ rows) a all e = ground (arith, all.0)

  -- The number after the largest id is fresh.
  pub next-IsFresh : IsFresh (D.max_user_id db + 1) (view D db)
  next-IsFresh e a found same =
      let h = bounded (D.max_user_id db) (D.select_rows e db) a (laws.max_bounds e db) found in
      omega arith

module _ (D : Database) (laws : IsRelational D) (db : D.Db) (sound : IsSound D db) where
  select_insert_new :
      (e : Bytes) (r : TabUser)
      → D.accepts (Query.insert r) db ≡ true
      → D.select_rows r.email db ≡ []
      → D.select_rows e (D.insert_row r db) ≡ (if beq r.email e then r ∷ [] else D.select_rows e db)
  select_insert_new e r took new =
      let perm = laws.select_insert e r db took in
      elim (Bool-cases (beq r.email e)) [
        | inl hit ↦
            let empty : D.select_rows e db ≡ [] =
              subst (λ f. D.select_rows f db ≡ []) (beq_sound r.email e hit) new in
            rw hit (Perm-short (rw (hit, empty) at perm) (omega arith))
        | inr miss ↦ rw miss (Perm-short (rw miss at perm) (sound.one_row e))
      ]

  select_remove_all :
      (e x : Bytes)
      → D.accepts (Query.remove x) db ≡ true
      → D.select_rows e (D.remove_rows x db) ≡ (if beq x e then [] else D.select_rows e db)
  select_remove_all e x took =
      let perm = laws.select_remove e x db took in
      elim (Bool-cases (beq x e)) [
        | inl hit ↦ rw hit (Perm-short (rw hit at perm) (omega arith))
        | inr miss ↦ rw miss (Perm-short (rw miss at perm) (sound.one_row e))
      ]

  -- An accepted insert of a new email sets the account of that email, and no other.
  pub view-insert :
      (r : TabUser)
      → D.accepts (Query.insert r) db ≡ true
      → D.select_rows r.email db ≡ []
      → view D (D.insert_row r db) ≡ put r.email (some (account r)) (view D db)
  view-insert r took new = fun_ext (λ e. rw (select_insert_new e r took new) (ground arith))

  -- An accepted removal takes the account of that email away, and no other.
  pub view-remove :
      (x : Bytes)
      → D.accepts (Query.remove x) db ≡ true
      → view D (D.remove_rows x db) ≡ put x none (view D db)
  view-remove x took = fun_ext (λ e. rw (select_remove_all e x took) (ground arith))

  pub insert-IsSound :
      (r : TabUser)
      → D.accepts (Query.insert r) db ≡ true
      → D.select_rows r.email db ≡ []
      → r.user_id ≡ D.max_user_id db + 1
      → IsSound D (D.insert_row r db)
  insert-IsSound r took new next = record {
    one_row = λ e. rw (select_insert_new e r took new) (ground (arith, sound.one_row e));
    own_ids = subst HasOwnIds (sym (view-insert r took new)) (
        put-HasOwnIds r.email (account r) (view D db) sound.own_ids
          (subst (λ n. IsFresh n (view D db)) (sym next) (next-IsFresh D laws db)));
  }

  pub remove-IsSound :
      (x : Bytes) → D.accepts (Query.remove x) db ≡ true → IsSound D (D.remove_rows x db)
  remove-IsSound x took = record {
    one_row = λ e. rw (select_remove_all e x took) (ground (arith, sound.one_row e));
    own_ids =
        subst HasOwnIds (sym (view-remove x took)) (remove-HasOwnIds x (view D db) sound.own_ids);
  }
