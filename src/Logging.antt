-- ===== src/Logging.antt =====
-- logging.rs: the set-up of the logger. The log's lines themselves are not modelled; what is, is that
-- the arguments of `debug!` are evaluated where the level lets them through.
use frl_online_proxy.Prelude.{
  String, ◌≢◌, arith, ℕ, Bool, leb, none, some, List, ◌∷◌, if◌then◌else◌,
}
use frl_online_proxy.Outcome.{Outcome, ok, err, panic, Report, wrapped}
use frl_online_proxy.Exec.{Exec, lift, ◌>>◌}
use frl_online_proxy.Http.{Bytes, from_utf8}
use frl_online_proxy.Settings.{Settings, LogLevel, Logging, LogDestination, console, file}

-- `log::LevelFilter`
pub data LevelFilter : Type 0 where
  off error warn info debug trace : LevelFilter

unfoldable pub log_level : LogLevel → LevelFilter
log_level LogLevel.off = LevelFilter.off
log_level LogLevel.error = LevelFilter.error
log_level LogLevel.warn = LevelFilter.warn
log_level LogLevel.info = LevelFilter.info
log_level LogLevel.debug = LevelFilter.debug
log_level LogLevel.trace = LevelFilter.trace

abbrev pub rank : LevelFilter → ℕ
rank LevelFilter.off = 0
rank LevelFilter.error = 1
rank LevelFilter.warn = 2
rank LevelFilter.info = 3
rank LevelFilter.debug = 4
rank LevelFilter.trace = 5

abbrev pub debugs : Settings → Bool
debugs conf = leb 4 (rank (log_level conf.logging.level))

-- `debug!("…", std::str::from_utf8(&body).unwrap())`
unfoldable pub debug_body : {E : Type 0} → Settings → Bytes → Outcome E (Unit {0})
unfolding log_level
debug_body conf body =
    if debugs conf then (elim (from_utf8 body) [ none ↦ panic | some s ↦ ok tt ]) else ok tt

-- The crate `fern`: the opening of the log file, which creates one that is missing, and the start of a
-- logger that writes to the destination what the level lets through.
pub record Fern : Type 0 where
  pub log_file : String → Outcome Report (Unit {0})
  pub apply : LogDestination → LevelFilter → Outcome Report (Unit {0})

-- The log files, by their paths.
abbrev pub Logs : Type 0
Logs = List String

abbrev open_log : String → Outcome Report (Unit {0}) → Exec Logs (Unit {0})
open_log path (ok a) logs = (ok tt, path ∷ logs)
open_log path (err e) logs = (err e, logs)
open_log path panic logs = (panic, logs)

abbrev apply_log : Fern → LogDestination → LevelFilter → Exec Logs (Unit {0})
apply_log fern destination level =
    lift (wrapped "Cannot initialize logging subsystem" (fern.apply destination level))

abbrev chain : Fern → Logging → LevelFilter → Exec Logs (Unit {0})
chain fern logging level = elim logging.destination [
  | console ↦ apply_log fern console level
  | file ↦ (do
    open_log logging.file_path (fern.log_file logging.file_path)
    apply_log fern file level)
]

unfoldable pub init : Fern → Settings → Exec Logs (Unit {0})
unfolding log_level
init fern conf = chain fern conf.logging (log_level conf.logging.level)

-- If `fern` does not panic, neither does the set-up.
pub init-ne-panic :
    (fern : Fern) (conf : Settings) (logs : Logs)
    → ((path : String) → fern.log_file path ≢ panic)
    → ((d : LogDestination) (l : LevelFilter) → fern.apply d l ≢ panic)
    → (init fern conf logs).0 ≢ panic
unfolding init
init-ne-panic fern conf logs f a h = ground (
  arith,
  f conf.logging.file_path,
  a console (log_level conf.logging.level),
  a file (log_level conf.logging.level),
)
