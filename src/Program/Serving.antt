-- ===== src/Program/Serving.antt =====
-- When the server runs.
use pocker_backend.Base.{Bool, ℕ, ◌^◌, ◌%◌, ◌≡◌, refl, [], ◌∷◌, Option, some, true, false}
use pocker_backend.Base.Bytes.{Bytes}
use pocker_backend.Base.Int.{ℤ}
use pocker_backend.Base.Results.{ok}
use pocker_backend.Rapidjson.{IsFaithful, render}
use pocker_backend.Connection.{Connection}
use pocker_backend.Database.{DbConnectConfig}
use pocker_backend.Handler.State.{Env}
use pocker_backend.Handler.Reply.{running}
use pocker_backend.Server.{TcpServer}
use pocker_backend.Server.Starting.{start_up-running, config_fields, sqlpp_of}
use pocker_backend.Logger.{Spdlog}
use pocker_backend.Program.{Options, serves, check_verbose, read_and_start, main}

module _ (S : Spdlog) (E : Env) (files : Bytes → Option Bytes) (binds : ℕ → Bool) where
  -- Without `help`, with a level that is accepted or none, a port, and the path of a file that holds
  -- the configuration as an object, for which the database takes the connection, and with a port that can be listened on: the server runs with
  -- that configuration and database, no users and no participants, one accept waits, and the port is
  -- the one given, modulo 2^16.
  pub main-serves :
      (vm : Options) (fresh port : ℕ) (path : Bytes) (level : ℤ) (c : DbConnectConfig)
      (db : E.database.Db)
      → IsFaithful (E.rapidjson)
      → vm.help ≡ false
      → check_verbose S vm.verbose ≡ ok level
      → vm.port ≡ some port
      → vm.db_config ≡ some path
      → files path ≡ some (render (E.rapidjson) (config_fields c))
      → E.database.open_connection (sqlpp_of c) ≡ some db
      → binds (port % 2 ^ 16) ≡ true
      → (conns : ℕ → Connection) × (main S E files binds vm fresh
          ≡ serves
              (port % 2 ^ 16)
              (record { backend = running E c (sqlpp_of c) [] [] conns db; accepts = fresh ∷ [] }))
  unfolding main read_and_start
  main-serves vm fresh port path level c db json no_help loud at file holds opened bound =
      let (conns, started) = start_up-running E binds c port fresh db json opened in
      (conns, rw (no_help, loud, at, file, read_and_start, holds, started, bound) refl)

  -- What it takes for the server to run.
  pub record IsStarted (vm : Options) (fresh listens : ℕ) (server : TcpServer E) : Type 0 where
    pub port : ℕ
    pub level : ℤ
    pub path : Bytes
    pub no_help : vm.help ≡ false
    pub loud : check_verbose S vm.verbose ≡ ok level
    pub at : vm.port ≡ some port
    pub file : vm.db_config ≡ some path
    pub started : read_and_start S E files binds path port fresh ≡ ok server
    pub wrapped : listens ≡ port % 2 ^ 16
