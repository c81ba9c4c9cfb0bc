-- ===== src/Logger.antt =====
-- components/log.hpp: a `logger` shares a logger of spdlog by its address, and keeps a level of its own.
pub mod Levels
use pocker_backend.Base.{
  ℕ, suc, ◌≡◌, ◌≢◌, refl, sym, ap, ◌∙◌, List, [], ◌∷◌, ◌++◌, Option, none, some, ◌==◌,
  if◌then◌else◌, arith,
}
use pocker_backend.Base.Bytes.{Bytes, codes}
use pocker_backend.Base.Int.{ℤ, pos}
use pocker_backend.Base.Results.{Result, ok, err, undefined}

-- spdlog and fmt, which are not part of the repository.
pub record Spdlog : Type 1 where
  -- a `spdlog::logger`
  pub Log : Type 0
  -- the numbers of `spdlog::level`
  pub trace : ℕ
  pub debug : ℕ
  pub info : ℕ
  pub warn : ℕ
  pub err : ℕ
  pub critical : ℕ
  pub off : ℕ
  -- with the name of the logger, the file that it writes beside the console, and the pattern
  pub new_log : Bytes → Bytes → Bytes → Log
  pub set_level : ℤ → Log → Log
  pub level : Log → ℤ
  -- one message at a level
  pub log : ℤ → Bytes → Log → Log
  -- the loggers that spdlog knows by name, by their addresses
  pub Registry : Type 0
  pub set_default_logger : Bytes → ℕ → Registry → Registry
  pub register_logger : ℕ → Registry → Registry
  pub get : Bytes → Registry → Option ℕ
  -- `fmt::format` of these arguments
  pub format : Bytes → List Bytes → Bytes
  pub format_int : Bytes → ℤ → Bytes

-- What `logger` relies on: a level that was set is read again, also behind messages, and the default
-- logger is found by its name.
pub record IsLeveled (S : Spdlog) : Type 0 where
  pub level-set_level : (l : ℤ) (o : S.Log) → S.level (S.set_level l o) ≡ l
  pub level-log : (l : ℤ) (mes : Bytes) (o : S.Log) → S.level (S.log l mes o) ≡ S.level o
  pub get-set_default_logger :
      (name : Bytes) (i : ℕ) (r : S.Registry) → S.get name (S.set_default_logger name i r) ≡ some i

-- `logger::level` adds one enumerator behind `off`.
abbrev pub level_nums : Spdlog → ℤ
level_nums S = pos (suc S.off)

pub record Logger : Type 0 where
  -- the address of the spdlog logger, null if there is none
  pub logger : Option ℕ
  pub lvl : ℤ

module _ (S : Spdlog) where
  pub record Logs : Type 0 where
    pub objects : ℕ → S.Log
    pub registry : S.Registry

  -- `logger(std::shared_ptr<spdlog::logger>)`
  abbrev pub logger_of : Option ℕ → Logger
  logger_of address = record { logger = address; lvl = pos S.info }

  unfoldable pub clone : Logger → Logger
  clone l = logger_of l.logger

  unfoldable pub context : Option ℕ → Logger → Logger
  context address l = record l { logger = address }

  abbrev pub put : ℕ → S.Log → Logs → Logs
  put i o st = record st { objects = λ j. if i == j then o else st.objects j }

  -- `logger_->`, which a null pointer does not have
  abbrev pub call : {A : Type 0} → Option ℕ → (ℕ → A) → Result A
  call none f = err undefined
  call (some i) f = ok (f i)

  unfoldable pub set_level : ℤ → Logger → Logs → Result (Logger × Logs)
  set_level l lg st =
      call lg.logger (λ i. (record lg { lvl = l }, put i (S.set_level l (st.objects i)) st))

  unfoldable pub get_level : Logger → Logs → Result ℤ
  get_level lg st = call lg.logger (λ i. S.level (st.objects i))

  -- A message at a level.
  abbrev pub at_level : ℤ → Bytes → Logger → Logs → Result Logs
  at_level l mes lg st = call lg.logger (λ i. put i (S.log l mes (st.objects i)) st)

  -- `log` takes the level that was set, as the level of the message.
  unfoldable pub log : Bytes → Logger → Logs → Result Logs
  log mes lg st = at_level lg.lvl mes lg st

  unfoldable pub trace : Bytes → Logger → Logs → Result Logs
  trace mes lg st = at_level (pos S.trace) mes lg st

  unfoldable pub info : Bytes → Logger → Logs → Result Logs
  info mes lg st = at_level (pos S.info) mes lg st

  unfoldable pub warn : Bytes → Logger → Logs → Result Logs
  warn mes lg st = at_level (pos S.warn) mes lg st

  unfoldable pub error : Bytes → Logger → Logs → Result Logs
  error mes lg st = at_level (pos S.err) mes lg st

  unfoldable pub debug : Bytes → Logger → Logs → Result Logs
  debug mes lg st = at_level (pos S.debug) mes lg st

  unfoldable pub critical : Bytes → Logger → Logs → Result Logs
  critical mes lg st = at_level (pos S.critical) mes lg st

  -- The overloads with a format.
  unfoldable pub trace_format : Bytes → List Bytes → Logger → Logs → Result Logs
  trace_format format_str args lg st = at_level (pos S.trace) (S.format format_str args) lg st

  unfoldable pub info_format : Bytes → List Bytes → Logger → Logs → Result Logs
  info_format format_str args lg st = at_level (pos S.info) (S.format format_str args) lg st

  unfoldable pub debug_format : Bytes → List Bytes → Logger → Logs → Result Logs
  debug_format format_str args lg st = at_level (pos S.debug) (S.format format_str args) lg st

  unfoldable pub warn_format : Bytes → List Bytes → Logger → Logs → Result Logs
  warn_format format_str args lg st = at_level (pos S.warn) (S.format format_str args) lg st

  unfoldable pub error_format : Bytes → List Bytes → Logger → Logs → Result Logs
  error_format format_str args lg st = at_level (pos S.err) (S.format format_str args) lg st

  unfoldable pub critical_format : Bytes → List Bytes → Logger → Logs → Result Logs
  critical_format format_str args lg st = at_level (pos S.critical) (S.format format_str args) lg st

  -- `initialization_logger`, with the id of the process in decimal and the address of the new object
  unfoldable pub initialization_logger : Bytes → Bytes → ℕ → Logs → Logger × Logs
  initialization_logger prefix pid fresh st =
      let name = S.format (prefix ++ codes "{0}.txt") (pid ∷ []) in
      let made =
        S.new_log (codes "default") name
          (codes "[%Y-%m-%d %H:%M:%S.%e] [%n] [%l] [pid %P tid %t] %v") in
      (
        logger_of (some fresh),
        record {
          objects = (put fresh made st).objects;
          registry = S.set_default_logger (codes "default") fresh st.registry;
        },
      )

  -- `initialization_logger` of a logger of spdlog
  unfoldable pub register_logger : ℕ → Logs → Logs
  register_logger i st = record st { registry = S.register_logger i st.registry }

  unfoldable pub get_named_logger : Bytes → Logs → Logger
  get_named_logger name st = logger_of (S.get name st.registry)

  unfoldable pub get_logger : Logs → Logger
  get_logger st = logger_of (S.get (codes "default") st.registry)
