-- ===== src/Server/Starting.antt =====
-- `main` from the configuration on: the parts are put together.
use pocker_backend.Base.{
  ℕ, ◌%◌, ◌^◌, ◌≡◌, refl, [], ◌∷◌, some, arith, Bool, true, false, Bool-cases, inl, inr,
  if◌then◌else◌,
}
use pocker_backend.Base.Bytes.{Bytes, codes, c_str, beq}
use pocker_backend.Base.Results.{Result, ok, err, library_error, ◌>>=◌}
use pocker_backend.Rapidjson.{Rapidjson, Fields, text, render, IsFaithful}
use pocker_backend.Api.Rendered.{parse-render, string-render}
use pocker_backend.Connection.{Connection, connection}
use pocker_backend.Database.{DbConnectConfig, SqlppConfig, database_worker, connect, read_cfg}
use pocker_backend.Handler.State.{Env, update, set_server, connect_db_worker}
use pocker_backend.Handler.Reply.{running}
use pocker_backend.Server.{TcpServer, start_accept, blank}

-- `acceptor_(io_context, tcp::endpoint(tcp::v4(), port))`: the port is taken modulo 2^16, and the
-- constructor throws where it cannot be opened, bound to and listened on.
unfoldable pub listen : (ℕ → Bool) → ℕ → Result (Unit {0})
listen binds port = if binds (port % 2 ^ 16) then ok tt else err library_error

-- `main`, from `read_cfg_from` to `io_context.run`, on the content of the configuration file; `binds`
-- says which ports can be listened on.
unfoldable pub start_up : (E : Env) → (ℕ → Bool) → Bytes → ℕ → ℕ → Result (TcpServer E)
start_up E binds content port fresh = do
  config ← read_cfg (E.rapidjson) content
  db_wrkr ← connect (E.database) (database_worker (E.database) config)
  acceptor ← listen binds port
  let server = start_accept E fresh (blank E)
  ok (record server { backend = set_server E [] (connect_db_worker E db_wrkr server.backend) })

-- The configuration as an object.
abbrev pub config_fields : DbConnectConfig → Fields
config_fields c =
    (codes "db_host", text c.db_host)
    ∷ (codes "db_name", text c.db_name)
    ∷ (codes "db_user", text c.db_user)
    ∷ (codes "db_pass", text c.db_pass)
    ∷ (codes "db_pass_salt", text c.db_pass_salt)
    ∷ []

-- What the connection to the database is opened with.
abbrev pub sqlpp_of : DbConnectConfig → SqlppConfig
sqlpp_of c = record { host = c.db_host; user = c.db_user; password = c.db_pass; dbname = c.db_name }

read_cfg-render :
    (R : Rapidjson) (laws : IsFaithful R) (c : DbConnectConfig)
    → read_cfg R (render R (config_fields c)) ≡ ok c
unfolding read_cfg beq c_str
read_cfg-render R laws c =
    let fields = config_fields c in
    rw
      (
        parse-render R laws fields,
        string-render R laws fields (codes "db_host") c.db_host refl refl,
        string-render R laws fields (codes "db_name") c.db_name refl refl,
        string-render R laws fields (codes "db_user") c.db_user refl refl,
        string-render R laws fields (codes "db_pass") c.db_pass refl refl,
        string-render R laws fields (codes "db_pass_salt") c.db_pass_salt refl refl,
      )
      refl

connect_opened :
    (E : Env) (c : DbConnectConfig) (db : E.database.Db)
    → E.database.open_connection (sqlpp_of c) ≡ some db
    → connect (E.database) (database_worker (E.database) c)
      ≡ ok (record { config = c; sqlpp_config = sqlpp_of c; db_connection = some db })
unfolding connect database_worker
connect_opened E c db opened = rw (connect, opened) refl

-- The state that the start makes: every connection is as the allocator gives it.
pub start_up_lem :
    (E : Env) (binds : ℕ → Bool) (c : DbConnectConfig) (port fresh : ℕ) (db : E.database.Db)
    → IsFaithful (E.rapidjson)
    → E.database.open_connection (sqlpp_of c) ≡ some db
    → binds (port % 2 ^ 16) ≡ true
    → start_up E binds (render (E.rapidjson) (config_fields c)) port fresh
      ≡ ok (record {
        backend =
            running E c
              (sqlpp_of c)
              []
              []
              (update E (blank E).backend.connections fresh (connection (E.memory)))
              db;
        accepts = fresh ∷ [];
      })
unfolding start_up listen start_accept set_server connect_db_worker
start_up_lem E binds c port fresh db laws opened bound =
    ground (arith, bound, read_cfg-render (E.rapidjson) laws c, connect_opened E c db opened)

start_up_unbound :
    (E : Env) (binds : ℕ → Bool) (c : DbConnectConfig) (port fresh : ℕ) (db : E.database.Db)
    → IsFaithful (E.rapidjson)
    → E.database.open_connection (sqlpp_of c) ≡ some db
    → binds (port % 2 ^ 16) ≡ false
    → start_up E binds (render (E.rapidjson) (config_fields c)) port fresh ≡ err library_error
unfolding start_up listen
start_up_unbound E binds c port fresh db laws opened bound =
    ground (arith, bound, read_cfg-render (E.rapidjson) laws c, connect_opened E c db opened)

-- If the file holds the configuration as an object and the database takes the connection: where the
-- port, modulo 2^16, can be listened on, the server starts with that configuration and database, no
-- users and no participants, and one accept waits; where it cannot, the start throws.
pub start_up-running :
    (E : Env) (binds : ℕ → Bool) (c : DbConnectConfig) (port fresh : ℕ) (db : E.database.Db)
    → IsFaithful (E.rapidjson)
    → E.database.open_connection (sqlpp_of c) ≡ some db
    → (conns : ℕ → Connection) × (start_up E binds
          (render (E.rapidjson) (config_fields c))
          port
          fresh
        ≡ (if binds (port % 2 ^ 16)
            then ok
                (record { backend = running E c (sqlpp_of c) [] [] conns db; accepts = fresh ∷ [] })
            else err library_error))
start_up-running E binds c port fresh db laws opened = (
  update E (blank E).backend.connections fresh (connection (E.memory)),
  elim (Bool-cases (binds (port % 2 ^ 16))) [
    | inl bound ↦ rw bound (start_up_lem E binds c port fresh db laws opened bound)
    | inr free ↦ rw free (start_up_unbound E binds c port fresh db laws opened free)
  ],
)
