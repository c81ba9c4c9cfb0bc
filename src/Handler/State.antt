-- ===== src/Handler/State.antt =====
-- The state behind a message: the members of `mes_handler`, and the connections it refers to by their
-- addresses. A call returns a result and the state as it is left, also where it throws.
use pocker_backend.Base.{ℕ, List, [], ◌∷◌, Option, none, some, ◌==◌, if◌then◌else◌}
use pocker_backend.Base.Bytes.{Bytes}
use pocker_backend.Base.Results.{Result, ok, err, Error, library_error, undefined}
use pocker_backend.Rapidjson.{Rapidjson}
use pocker_backend.Database.{Database, DatabaseWorker, Query, TabUser}
use pocker_backend.Users.{User, UserCont, add_user}
use pocker_backend.Message.{of_string, Message}
use pocker_backend.Connection.{Connection, deliver, add_handler, start}

-- What is not part of the repository: RapidJSON, the database, OpenSSL's SHA512, Boost's `hex`, and
-- what fresh memory holds.
pub record Env : Type 1 where
  pub rapidjson : Rapidjson
  pub database : Database
  pub sha512 : Bytes → Bytes
  pub hex : Bytes → Bytes
  pub memory : Bytes

-- `mes_handler::hash_`
abbrev pub hash : Env → Bytes → Bytes
hash E orig = E.hex (E.sha512 orig)

pub record Backend (E : Env) : Type 0 where
  -- the set `participants_`
  pub participants : List ℕ
  -- `db_wrkr_` and `srv_`, null until they are set
  pub db_wrkr : Option (DatabaseWorker (E.database))
  pub srv : Option UserCont
  -- the connection at each address
  pub connections : ℕ → Connection

abbrev pub Action : Env → Type 0 → Type 0
Action E A = Backend E → Result A × Backend E

abbrev pub pure : {E : Env} {A : Type 0} → A → Action E A
pure a b = (ok a, b)

abbrev pub lift : {E : Env} {A : Type 0} → Result A → Action E A
lift r b = (r, b)

infixl 5 ◌>>=◌ ◌>>◌
abbrev pub ◌>>=◌ : {E : Env} {A B : Type 0} → Action E A → (A → Action E B) → Action E B
◌>>=◌ m f b = let (r, b') = m b in elim r [ ok a ↦ f a b' | err e ↦ (err e, b') ]

abbrev pub ◌>>◌ : {E : Env} {A B : Type 0} → Action E A → Action E B → Action E B
m >> k = m >>= λ _. k

abbrev pub or_throw : {E : Env} {A : Type 0} → Option A → Error → Action E A
or_throw none e b = (err e, b)
or_throw (some a) e b = (ok a, b)

module _ (E : Env) where
  -- `db_wrkr_->`
  unfoldable pub the_worker : Action E (DatabaseWorker (E.database))
  the_worker b = or_throw b.db_wrkr undefined b

  -- `db_wrkr_->config().db_pass_salt`
  unfoldable pub salt : Action E Bytes
  unfolding the_worker
  salt = do w ← the_worker; pure w.config.db_pass_salt

  -- `*db_ptr`, and whether the database takes the query
  unfoldable pub ask : Query → Action E (E.database.Db)
  unfolding the_worker
  ask q = do
    w ← the_worker
    db ← or_throw w.db_connection undefined
    if E.database.accepts q db then pure db else lift (err library_error)

  unfoldable pub set_db : E.database.Db → Action E (Unit {0})
  unfolding the_worker
  set_db db = do
    w ← the_worker
    λ b. (ok tt, record b { db_wrkr = some (record w { db_connection = some db }) })

  -- The four queries of the handlers.
  unfoldable pub select_by_email : Bytes → Action E (List TabUser)
  unfolding ask
  select_by_email e = do db ← ask (Query.select e); pure (E.database.select_rows e db)

  unfoldable pub select_max_id : Action E ℕ
  unfolding ask
  select_max_id = do db ← ask Query.max_id; pure (E.database.max_user_id db)

  unfoldable pub insert_into : TabUser → Action E (Unit {0})
  unfolding ask set_db
  insert_into r = do db ← ask (Query.insert r); set_db (E.database.insert_row r db)

  unfoldable pub remove_from : Bytes → Action E (Unit {0})
  unfolding ask set_db
  remove_from e = do db ← ask (Query.remove e); set_db (E.database.remove_rows e db)

  -- `srv_->add_user(user)`
  unfoldable pub add_to_server : User → Action E (Unit {0})
  add_to_server u b =
      (or_throw b.srv undefined >>= λ users b. (ok tt, record b { srv = some (add_user u users) }))
        b

  abbrev pub update : (ℕ → Connection) → ℕ → Connection → ℕ → Connection
  update f i c j = if i == j then c else f j

  -- `sender->deliver(msg)`
  unfoldable pub deliver_to : ℕ → Message → Action E (Unit {0})
  deliver_to sender m b =
      (lift (deliver m (b.connections sender)) >>= λ c b.
      (ok tt, record b { connections = update b.connections sender c }))
        b

  -- `message msg = text; sender->deliver(std::move(msg));`
  unfoldable pub reply : Bytes → ℕ → Action E (Unit {0})
  unfolding deliver_to
  reply text sender = do m ← lift (of_string (E.memory) text); deliver_to sender m

  -- `participants_.insert`
  abbrev pub insert_participant : ℕ → List ℕ → List ℕ
  insert_participant i [] = i ∷ []
  insert_participant i (j ∷ ps) = if i == j then j ∷ ps else j ∷ insert_participant i ps

  -- `participants_.erase`
  abbrev pub erase_participant : ℕ → List ℕ → List ℕ
  erase_participant i [] = []
  erase_participant i (j ∷ ps) = if i == j then ps else j ∷ erase_participant i ps

  -- `mes_handler::add_connection`
  unfoldable pub add_connection : ℕ → Backend E → Backend E
  add_connection i b = record b {
    participants = insert_participant i b.participants;
    connections = update b.connections i (start (add_handler (b.connections i)));
  }

  -- `mes_handler::del_connection`
  unfoldable pub del_connection : ℕ → Backend E → Backend E
  del_connection i b = record b { participants = erase_participant i b.participants }

  -- `mes_handler::set_server`
  unfoldable pub set_server : UserCont → Backend E → Backend E
  set_server users b = record b { srv = some users }

  -- `mes_handler::connect_db_worker`
  unfoldable pub connect_db_worker : DatabaseWorker (E.database) → Backend E → Backend E
  connect_db_worker wrkr b = record b { db_wrkr = some wrkr }
