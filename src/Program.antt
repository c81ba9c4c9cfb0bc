-- ===== src/Program.antt =====
-- main.cpp: the command line of the server, as `boost::program_options` has parsed it, up to the start.
pub mod Verbosity
pub mod Serving
use pocker_backend.Base.{
  ℕ, suc, ◌≤◌, ◌<◌, ◌^◌, ◌%◌, ◌≡◌, ◌↔◌, ◌⊎◌, inl, inr, refl, ap, ◌∙◌, List, [], ◌∷◌, Option, none,
  some, Bool, true, false, if◌then◌else◌, arith, leb, ltb, Bool-cases, Option-cases,
}
use pocker_backend.Base.Bytes.{Bytes, codes}
use pocker_backend.Base.Int.{ℤ, pos, negsuc, le_int, int_of_size, signed}
use pocker_backend.Base.Results.{Result, ok, err, Error, runtime_error, library_error, ◌>>=◌}
use pocker_backend.Rapidjson.{IsFaithful, render}
use pocker_backend.Connection.{Connection}
use pocker_backend.Database.{DbConnectConfig}
use pocker_backend.Handler.State.{Env}
use pocker_backend.Handler.Reply.{running}
use pocker_backend.Server.{TcpServer}
use pocker_backend.Server.Starting.{start_up, start_up-running, config_fields, sqlpp_of}
use pocker_backend.Logger.{Spdlog, level_nums}

-- The options of `vm`, each if it was given.
pub record Options : Type 0 where
  pub help : Bool
  pub port : Option ℕ
  pub db_config : Option Bytes
  pub verbose : Option ℕ

-- How `main` goes on: it returns, it calls `abort`, it throws, or the event loop runs, with the port
-- that is listened on.
pub data Launch (E : Env) : Type 0 where
  exits aborts : Launch E
  throws : Error → Launch E
  serves : ℕ → TcpServer E → Launch E

module _ (S : Spdlog) where
  -- The level that `verbose` asks for.
  unfoldable pub verbosity : ℕ → Result ℤ
  verbosity v =
      let verb = int_of_size v in
      let max = level_nums S in
      if le_int max verb
      then err (runtime_error (S.format_int (codes "max alloved verbocity level:{}") max))
      else ok verb

  -- The test of `verbose`, with the level of the logger afterwards: `info`, unless one was asked for.
  unfoldable pub check_verbose : Option ℕ → Result ℤ
  check_verbose none = ok (pos S.info)
  check_verbose (some v) = verbosity v

  module _ (E : Env) (files : Bytes → Option Bytes) (binds : ℕ → Bool) where
    -- From the configuration on; of a file that is not there the length is -1, which `reserve` refuses.
    unfoldable pub read_and_start : Bytes → ℕ → ℕ → Result (TcpServer E)
    read_and_start path port fresh = elim (files path) [
      | none ↦ err library_error
      | some content ↦ start_up E binds content port fresh
    ]

    unfoldable pub launched : ℕ → Result (TcpServer E) → Launch E
    launched port (err e) = throws e
    launched port (ok server) = serves (port % 2 ^ 16) server

    unfoldable pub main : Options → ℕ → Launch E
    unfolding launched
    main vm fresh = if vm.help then exits else elim (check_verbose vm.verbose) [
      | err e ↦ throws e
      | ok level ↦ elim vm.port [
        | none ↦ aborts
        | some port ↦ elim vm.db_config [
          | none ↦ aborts
          | some path ↦ launched port (read_and_start path port fresh)
        ]
      ]
    ]
