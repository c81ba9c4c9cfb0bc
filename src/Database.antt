-- ===== src/Database.antt =====
-- src/db/database_worker.cpp, include/db/database_worker.h and include/db/table_user.hpp: the worker
-- that holds the connection, and the table `users` behind sqlpp11 and PostgreSQL, which are not part
-- of the repository and are a parameter.
pub mod Laws
pub mod Accounts
use pocker_backend.Base.{ℕ, List, Bool, Option, none, some}
use pocker_backend.Base.Bytes.{Bytes, codes}
use pocker_backend.Base.Results.{Result, ok, err, library_error, ◌>>=◌}
use pocker_backend.Rapidjson.{Rapidjson}
use pocker_backend.Json

-- The columns of `tab_user` that the program selects or sets; `coins` is in no query.
pub record TabUser : Type 0 where
  pub nickname : Bytes
  pub user_id : ℕ
  pub email : Bytes
  pub pass_hash : Bytes

pub data Query : Type 0 where
  select : Bytes → Query
  max_id : Query
  insert : TabUser → Query
  remove : Bytes → Query

-- `database_worker::db_connect_config`
pub record DbConnectConfig : Type 0 where
  pub db_host : Bytes
  pub db_name : Bytes
  pub db_user : Bytes
  pub db_pass : Bytes
  pub db_pass_salt : Bytes

-- The fields of `sqlpp::postgresql::connection_config` that are set.
pub record SqlppConfig : Type 0 where
  pub host : Bytes
  pub user : Bytes
  pub password : Bytes
  pub dbname : Bytes

pub record Database : Type 1 where
  -- A connection with the data behind it.
  pub Db : Type 0
  -- `make_unique<sqlpp::postgresql::connection>`; `none` is an exception.
  pub open_connection : SqlppConfig → Option Db
  -- A query that is not accepted throws, and changes nothing.
  pub accepts : Query → Db → Bool
  -- `select(...).from(users).where(email == e)`
  pub select_rows : Bytes → Db → List TabUser
  -- `select(max(user_id)).from(users)`, as sqlpp11 converts the nullable result to a number
  pub max_user_id : Db → ℕ
  -- `insert_into(users).set(...)`
  pub insert_row : TabUser → Db → Db
  -- `remove_from(users).where(email == e)`
  pub remove_rows : Bytes → Db → Db

pub record DatabaseWorker (D : Database) : Type 0 where
  pub config : DbConnectConfig
  pub sqlpp_config : SqlppConfig
  -- null until `connect`
  pub db_connection : Option D.Db

module _ (D : Database) where
  unfoldable pub database_worker : DbConnectConfig → DatabaseWorker D
  database_worker c = record {
    config = c;
    sqlpp_config = record {
      host = c.db_host;
      user = c.db_user;
      password = c.db_pass;
      dbname = c.db_name;
    };
    db_connection = none;
  }

  unfoldable pub connect : DatabaseWorker D → Result (DatabaseWorker D)
  connect w = elim (D.open_connection w.sqlpp_config) [
    | none ↦ err library_error
    | some db ↦ ok (record w { db_connection = some db })
  ]

-- `read_cfg_from`, on the content of the file.
unfoldable pub read_cfg : Rapidjson → Bytes → Result DbConnectConfig
read_cfg R content = do
  j ← Json.parse R content
  db_host ← Json.value_as_string R j (codes "db_host")
  db_name ← Json.value_as_string R j (codes "db_name")
  db_user ← Json.value_as_string R j (codes "db_user")
  db_pass ← Json.value_as_string R j (codes "db_pass")
  db_pass_salt ← Json.value_as_string R j (codes "db_pass_salt")
  ok (record {
    db_host = db_host;
    db_name = db_name;
    db_user = db_user;
    db_pass = db_pass;
    db_pass_salt = db_pass_salt;
  })
