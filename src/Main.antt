-- ===== src/Main.antt =====
-- main.rs: the commands, on the machine's files.
pub mod Refusals
pub mod Calm
pub mod Keeping
use Prim.Native.String
use frl_online_proxy.Prelude.{ℕ, String, Bool, true, false, Option, none, some, if◌then◌else◌}
use frl_online_proxy.Outcome.{Outcome, ok, err, panic, Report, wrapped}
use frl_online_proxy.Exec.{Exec, pure, lift, ◌>>=◌, ◌>>◌}
use frl_online_proxy.Http.{World}
use frl_online_proxy.Logging.{Fern, Logs, init}
use frl_online_proxy.Settings.{Settings, ProxyMode, cache, forward, LogDestination, file}
use frl_online_proxy.Settings.Names.{mode_try_from}
use frl_online_proxy.Settings.Validate.{validate}
use frl_online_proxy.Settings.Load.{ConfigCrate, load_config}
use frl_online_proxy.Settings.Prompts.{Terminal}
use frl_online_proxy.Settings.Configure.{update_config_file}
use frl_online_proxy.Cli.{Command, start, configure, FrlProxy}
use frl_online_proxy.Cache.Open.{Cache, File, cache_from, close_cache, clear}
use frl_online_proxy.Cache.Exchange.{Exchange, import, export}
use frl_online_proxy.Proxy.Run.{Runtime, run_plain, run_secure}
use frl_online_proxy.Proxy.Forward.{forward_stored_requests}

-- The terminal, the configuration file, the cache's database, the file of an import or an export, and
-- the log files.
pub record Machine (T : Type 0) : Type 0 where
  pub terminal : T
  pub config : Option String
  pub db : File
  pub other : File
  pub logs : Logs

-- What the commands use beside the files: the crates, the files that exist, and the user's answer to the
-- prompt of `clear`.
pub record Env (T : Type 0) : Type 1 where
  pub world : World
  pub crates : ConfigCrate
  pub term : Terminal T
  pub exists : String → Bool
  pub fern : Fern
  pub answer : Outcome Report Bool
  pub runtime : Runtime
  pub now : String
  pub tries : ℕ

-- `conf.proxy.mode = mode.as_str().try_into()?`
abbrev pub mode_override : Option String → Settings → Outcome Report Settings
mode_override none conf = ok conf
mode_override (some mode) conf = elim (mode_try_from mode) [
  | ok m ↦ ok (record conf { proxy = record conf.proxy { mode = m } })
  | err e ↦ err e
  | panic ↦ panic
]

abbrev pub ssl_override : Option Bool → Settings → Settings
ssl_override none conf = conf
ssl_override (some ssl) conf = record conf { proxy = record conf.proxy { ssl = ssl } }

-- The commands on the cache work in cache mode, and log to a file because they are interactive.
abbrev pub offline : Settings → Settings
offline conf = record conf {
  proxy = record conf.proxy { mode = cache };
  logging = record conf.logging { destination = file };
}

abbrev pub is_forward : ProxyMode → Bool
is_forward forward = true
is_forward _ = false

-- The file that a cache leaves: its pool's tables, or what was there where it has none.
abbrev pub left_by : Cache → File → File
left_by self before = elim self.db_pool [
  | none ↦ before
  | some pool ↦ record { content = some pool.tables; faults = pool.faults }
]

module _ {T : Type 0} where
  -- `Cache::from(…)?`, and then the rest on the cache. A file that a failed opening may leave behind is
  -- not modelled.
  abbrev pub on_opened : {A : Type 0} → Outcome Report Cache → Exec Cache A → Exec (Machine T) A
  on_opened (ok self) m s = ((m self).0, record s { db = left_by (m self).1 s.db })
  on_opened (err e) m s = (err e, s)
  on_opened panic m s = (panic, s)

  abbrev pub with_cache : {A : Type 0} → Settings → Bool → Exec Cache A → Exec (Machine T) A
  with_cache conf can_create m s = on_opened (cache_from conf can_create s.db) m s

  abbrev pub on_exchange : Outcome Report Cache → String → Exec (Machine T) (Unit {0})
  on_exchange (ok self) path s =
      let x : Exchange = record { self = self; file = s.other } in
      (
        wrapped (String.◌++◌ "Failed to export to " path) (export x).0,
        record s { db = left_by (export x).1.self s.db; other = (export x).1.file },
      )
  on_exchange (err e) path s = (err e, s)
  on_exchange panic path s = (panic, s)

module _ {T : Type 0} (env : Env T) where
  abbrev pub start_logging : Settings → Exec (Machine T) (Unit {0})
  start_logging conf s =
      ((init env.fern conf s.logs).0, record s { logs = (init env.fern conf s.logs).1 })

  -- `conf.validate()?; logging::init(&conf)?;`
  abbrev pub prepare : Settings → Exec (Machine T) (Unit {0})
  prepare conf = do lift (validate env.exists conf); start_logging conf

  abbrev pub forwarding : Settings → Exec Cache (Unit {0})
  forwarding conf = do forward_stored_requests env.world conf env.now; close_cache

  abbrev pub serving : Settings → Exec Cache (Unit {0})
  serving conf = do
    if conf.proxy.ssl
        then run_secure env.runtime env.world conf
        else run_plain env.runtime env.world conf
    close_cache

  -- What follows the mode in `Start`: the option `ssl`, the checks, and the server or the forwarding.
  abbrev pub start_as : Option Bool → Settings → Exec (Machine T) (Unit {0})
  start_as ssl moded = do
    let conf = ssl_override ssl moded
    prepare conf
    if is_forward conf.proxy.mode
        then with_cache conf false (forwarding conf)
        else with_cache conf true (serving conf)

  unfoldable pub run_start : Option String → Option Bool → Settings → Exec (Machine T) (Unit {0})
  run_start mode ssl conf = do moded ← lift (mode_override mode conf); start_as ssl moded

  -- The writes of the terminal and of the file are `update_config_file`'s.
  unfoldable pub run_update : Settings → Exec (Machine T) (Unit {0})
  run_update conf s =
      let asked = update_config_file env.term env.exists env.crates env.tries conf s.terminal in
      elim asked.0 [
        | ok conf' ↦ elim (env.crates.to_string conf') [
          | ok toml ↦ (ok tt, record s { terminal = asked.1; config = some toml })
          | err e ↦ (err e, record s { terminal = asked.1 })
          | panic ↦ (panic, record s { terminal = asked.1 })
        ]
        | err e ↦ (err e, record s { terminal = asked.1 })
        | panic ↦ (panic, record s { terminal = asked.1 })
      ]

  unfoldable pub run_clear : Bool → Settings → Exec (Machine T) (Unit {0})
  run_clear sure conf = do
    prepare (offline conf)
    with_cache (offline conf) true λ self. (
      wrapped "Failed to clear cache" (clear sure env.answer self).0,
      (clear sure env.answer self).1,
    )

  unfoldable pub run_import : String → Settings → Exec (Machine T) (Unit {0})
  run_import path conf = do
    prepare (offline conf)
    λ s.
        with_cache (offline conf) true
          (λ self. (
            wrapped (String.◌++◌ "Failed to import from " path) (import s.other self).0,
            (import s.other self).1,
          ))
          s

  unfoldable pub run_export : String → Settings → Exec (Machine T) (Unit {0})
  run_export path conf = do
    prepare (offline conf)
    λ s. on_exchange (cache_from (offline conf) false s.db) path s

  unfoldable pub command : Command → Settings → Exec (Machine T) (Unit {0})
  command (start mode ssl) conf = run_start mode ssl conf
  command configure conf = do lift (validate env.exists conf); run_update conf
  command (Command.clear sure) conf = run_clear sure conf
  command (Command.import path) conf = run_import path conf
  command (Command.export path) conf = run_export path conf

  -- `Settings::load_config`, with the configuration file.
  abbrev pub load : FrlProxy → Exec (Machine T) (Option Settings)
  load args s = (
    (load_config env.crates args s.config).0,
    record s { config = (load_config env.crates args s.config).1 },
  )

  -- Where there was no file, it has been created, and is read again.
  abbrev pub unwrapped : Option Settings → Outcome Report Settings
  unwrapped none = panic
  unwrapped (some conf) = ok conf

  abbrev pub proceed : FrlProxy → Option Settings → Exec (Machine T) (Unit {0})
  proceed args (some conf) = command args.cmd conf
  proceed args none = do
    again ← load args
    conf ← lift (unwrapped again)
    λ s.
        (wrapped "Failed to update configuration file" (run_update conf s).0, (run_update conf s).1)

  unfoldable pub main : FrlProxy → Exec (Machine T) (Unit {0})
  main args = do loaded ← load args; proceed args loaded
