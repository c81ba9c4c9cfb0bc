-- ===== src/Tests/Programs.antt =====
-- The command lines of the two programs, and the logger, over the stand-ins.
use pocker_backend.Base.{
  List, ℕ, ◌≤◌, ◌≡◌, ◌↔◌, ◌⊎◌, ◌%◌, ◌^◌, refl, [], ◌∷◌, Option, none, some, false, replicate, arith,
}
use pocker_backend.Base.Bytes.{Bytes, codes}
use pocker_backend.Base.Int.{ℤ, int_of_size}
use pocker_backend.Base.Results.{ok, err, library_error}
use pocker_backend.Rapidjson.{render}
use pocker_backend.Connection.{Connection}
use pocker_backend.Handler.Reply.{running}
use pocker_backend.Server.Starting.{config_fields, sqlpp_of}
use pocker_backend.Logger.{Logger, Logs, get_level, clone, log, info}
use pocker_backend.Logger.Levels.{Call, sets, writes, run_calls, last_set, get_level-run_calls}
use pocker_backend.Program.{Options, serves, verbosity, check_verbose, main}
use pocker_backend.Program.Verbosity.{verbosity-accepts}
use pocker_backend.Program.Serving.{main-serves}
use pocker_backend.Server.{TcpServer}
use pocker_backend.Exchange.{idle_client}
use pocker_backend.Terminal.{Tools, Console, line_read}
use pocker_backend.Terminal.Lines.{line_read-few_words}
use pocker_backend.Conversation.{tools}
use pocker_backend.Tests.ToyJson.{toy_json, toy_json-IsFaithful}
use pocker_backend.Tests.Backend.{toy_env, config}
use pocker_backend.Tests.Toys.{all_ports, toy_queue, toy_split, toy_spdlog, toy_spdlog-IsLeveled}

verbosity-accepts_example :
    (verbosity toy_spdlog 4294967295 ≡ ok (int_of_size 4294967295))
    ↔ ((4294967295 % 2 ^ 32 ≤ 6) ⊎ (2 ^ 31 ≤ 4294967295 % 2 ^ 32))
verbosity-accepts_example = verbosity-accepts toy_spdlog 4294967295 refl

-- One file, with the configuration.
abbrev files : Bytes → Option Bytes
files [] = none
files (x ∷ path) = some (render toy_json (config_fields config))

abbrev options : Options
options = record {
  help = false;
  port = some 70000;
  db_config = some (codes "db.json");
  verbose = some 1;
}

one_passes : check_verbose toy_spdlog options.verbose ≡ ok (int_of_size 1)
unfolding check_verbose verbosity
one_passes = refl

served :
    (conns : ℕ → Connection) × (main toy_spdlog toy_env files all_ports options 5
      ≡ serves (70000 % 2 ^ 16) (record {
        backend = running toy_env config (sqlpp_of config) [] [] conns [];
        accepts = 5 ∷ [];
      }))
served =
    main-serves toy_spdlog toy_env files all_ports options 5 70000 (codes "db.json") (int_of_size 1)
      config [] toy_json-IsFaithful refl one_passes refl refl refl refl refl

abbrev started : TcpServer toy_env
started = record {
  backend = running toy_env config (sqlpp_of config) [] [] served.0 [];
  accepts = 5 ∷ [];
}

-- A login whose email has "/r" in it.
abbrev login_line : Bytes
login_line = codes "/l;a/r@b;pw"

abbrev client_tools : Tools
client_tools = tools toy_env toy_queue toy_split (replicate 2048 0)

abbrev console : Console client_tools
console = record {
  conn = idle_client toy_queue (record { buffer = []; body_length = 0 }) [] [];
  waits = false;
  printed = [];
}

line_read-few_words_example : line_read client_tools login_line console ≡ err library_error
line_read-few_words_example =
    line_read-few_words client_tools login_line console 4 refl (omega arith)

abbrev logs : Logs toy_spdlog
logs = record { objects = λ i. (ℤ.pos 2, []); registry = [] }

abbrev first : Logger
first = record { logger = some 3; lvl = ℤ.pos 2 }

abbrev second : Logger
second = record { logger = some 4; lvl = ℤ.pos 2 }

abbrev calls : List (Call toy_spdlog)
calls = sets (ℤ.pos 4) first ∷ writes (codes "hi") second ∷ sets (ℤ.pos 1) second ∷ []

get_level-run_calls_example :
    (st' : Logs toy_spdlog) × (run_calls toy_spdlog calls logs ≡ ok st')
    × ((lg : Logger) (i : ℕ) (mes : Bytes)
        → lg.logger ≡ some i
        → (get_level toy_spdlog lg st'
            ≡ ok (last_set toy_spdlog i calls (toy_spdlog.level (logs.objects i))))
          × (get_level toy_spdlog (clone toy_spdlog lg) st'
              ≡ ok (last_set toy_spdlog i calls (toy_spdlog.level (logs.objects i))))
          × (log toy_spdlog mes (clone toy_spdlog lg) st' ≡ info toy_spdlog mes lg st'))
get_level-run_calls_example =
    get_level-run_calls toy_spdlog calls logs toy_spdlog-IsLeveled
      ((λ e. cc), ((λ e. cc), ((λ e. cc), tt)))
