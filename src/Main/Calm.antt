-- ===== src/Main/Calm.antt =====
-- The commands of main.rs on the cache do not panic.
use frl_online_proxy.Prelude.{
  ◌≡◌, ◌≢◌, refl, String, Bool, true, false, Option, none, some, arith, inl, inr,
}
use frl_online_proxy.Outcome.{Outcome, ok, err, panic, Report, Panics, wrapped}
use frl_online_proxy.Exec.{Exec, lift, continue, ◌>>◌}
use frl_online_proxy.Settings.{Settings, LogDestination}
use frl_online_proxy.Settings.Validate.{validate, validate_total}
use frl_online_proxy.Logging.{LevelFilter, Logs, init, init-ne-panic}
use frl_online_proxy.Cli.{Command, start, configure}
use frl_online_proxy.Cache.Engine.{Conn}
use frl_online_proxy.Cache.Open.{Cache, File, cache_from}
use frl_online_proxy.Cache.Open.Laws.{cache_from-enabled}
use frl_online_proxy.Cache.Exchange.Calm.{
  db_init-ne-panic, clear-ne-panic, import-ne-panic, export-ne-panic,
}
use frl_online_proxy.Main.{
  Machine, Env, offline, start_logging, prepare, on_opened, on_exchange, with_cache, command,
  run_clear, run_import, run_export,
}

-- The commands that work on the cache without a server.
pub data IsOffline : Command → Type 0 where
  clearing : {sure : Bool} → IsOffline (Command.clear sure)
  importing : {path : String} → IsOffline (Command.import path)
  exporting : {path : String} → IsOffline (Command.export path)

module _ {T : Type 0} (env : Env T) where
  wrapped-ne-panic :
      {A : Type 0} (why : String) (o : Outcome Report A) → o ≢ panic → wrapped why o ≢ panic
  wrapped-ne-panic why (ok a) h e = cc
  wrapped-ne-panic why (err x) h e = cc
  wrapped-ne-panic why panic h e = h refl

  prepare-ne-panic :
      (used : Settings) (k : Exec (Machine T) (Unit {0})) (s : Machine T)
      → (init env.fern used s.logs).0 ≢ panic
      → ((logs : Logs) → (k (record s { logs = logs })).0 ≢ panic)
      → ((prepare env used >> k) s).0 ≢ panic
  prepare-ne-panic used k s l h = go (validate env.exists used) (validate_total env.exists used)
    where
      started :
          (o : Outcome Report (Unit {0})) (logs : Logs)
          → o ≢ panic
          → (continue o (λ _. k) (record s { logs = logs })).0 ≢ panic
      started (ok a) logs n e = h logs e
      started (err x) logs n e = cc
      started panic logs n e = n refl

      go :
          (v : Outcome Report (Unit {0}))
          → ¬ Panics v
          → (((lift v >> start_logging env used) >> k) s).0 ≢ panic
      go (ok v) n e = started (init env.fern used s.logs).0 (init env.fern used s.logs).1 l e
      go (err x) n e = cc
      go panic n e = n tt

  -- The cache that a command of the cache opens has a pool.
  opened-ne-panic :
      (conf : Settings) (can_create : Bool) (f : File)
      → cache_from (offline conf) can_create f ≢ panic
  unfolding cache_from
  opened-ne-panic conf can_create f e =
      ground (arith, db_init-ne-panic true f, db_init-ne-panic false f)

  opened-pool :
      (conf : Settings) (can_create : Bool) (f : File) (self : Cache)
      → cache_from (offline conf) can_create f ≡ ok self
      → (c : Conn) × (self.db_pool ≡ some c)
  opened-pool conf can_create f self e =
      pooled self.db_pool (elim (cache_from-enabled (offline conf) can_create f self e) [
        | inl p ↦ absurd (ground (arith, p))
        | inr p ↦ p.2
      ])
    where
      pooled : (o : Option Conn) → o ≢ none → (c : Conn) × (o ≡ some c)
      pooled none h = absurd (h refl)
      pooled (some c) h = (c, refl)

  -- The crate `fern` does not panic, nor the prompt.
  pub record IsQuiet : Type 0 where
    pub log_file : (path : String) → env.fern.log_file path ≢ panic
    pub apply : (d : LogDestination) (l : LevelFilter) → env.fern.apply d l ≢ panic
    pub answer : env.answer ≢ panic

  on_opened-ne-panic :
      {A : Type 0} (conf : Settings) (can_create : Bool) (m : Exec Cache A) (s : Machine T)
      → ((self : Cache) (c : Conn) → self.db_pool ≡ some c → (m self).0 ≢ panic)
      → (with_cache (offline conf) can_create m s).0 ≢ panic
  on_opened-ne-panic conf can_create m s h = go (cache_from (offline conf) can_create s.db) refl
    where
      go :
          (o : Outcome Report Cache)
          → cache_from (offline conf) can_create s.db ≡ o
          → (on_opened o m s).0 ≢ panic
      go (ok self) e b = let p = opened-pool conf can_create s.db self e in h self p.0 p.1 b
      go (err x) e p = cc
      go panic e p = opened-ne-panic conf can_create s.db e

  on_exchange-ne-panic :
      (conf : Settings) (path : String) (s : Machine T)
      → (on_exchange (cache_from (offline conf) false s.db) path s).0 ≢ panic
  on_exchange-ne-panic conf path s = go (cache_from (offline conf) false s.db) refl
    where
      go :
          (o : Outcome Report Cache)
          → cache_from (offline conf) false s.db ≡ o
          → (on_exchange o path s).0 ≢ panic
      go (ok self) e b =
          let p = opened-pool conf false s.db self e in
          wrapped-ne-panic _ _ (export-ne-panic self p.0 p.1 s.other) b
      go (err x) e p = cc
      go panic e p = opened-ne-panic conf false s.db e

  init-quiet :
      IsQuiet → (conf : Settings) (s : Machine T) → (init env.fern (offline conf) s.logs).0 ≢ panic
  init-quiet q conf s = init-ne-panic env.fern (offline conf) s.logs q.log_file q.apply

  -- `clear`, `import` and `export` never panic, whatever mode the configuration has, whatever rows the
  -- database and the other file hold in tables with the program's columns and types, and whenever their
  -- engines fail, if the crate `fern` and the prompt do not panic.
  pub command-ne-panic :
      IsQuiet
      → (cmd : Command) → IsOffline cmd
      → (conf : Settings) (s : Machine T) → (command env cmd conf s).0 ≢ panic
  unfolding command run_clear run_import run_export
  command-ne-panic q (start mode ssl) x conf s = elim x [ ]
  command-ne-panic q configure x conf s = elim x [ ]
  command-ne-panic q (Command.clear sure) clearing conf s =
      prepare-ne-panic (offline conf) _ s (init-quiet q conf s) λ logs.
        on_opened-ne-panic conf true _ (record s { logs = logs })
          λ self c p. wrapped-ne-panic _ _ (clear-ne-panic self c p sure env.answer q.answer)
  command-ne-panic q (Command.import path) importing conf s =
      prepare-ne-panic (offline conf) _ s (init-quiet q conf s) λ logs.
        on_opened-ne-panic conf true _ (record s { logs = logs })
          λ self c p. wrapped-ne-panic _ _ (import-ne-panic self c p s.other)
  command-ne-panic q (Command.export path) exporting conf s =
      prepare-ne-panic (offline conf) _ s (init-quiet q conf s)
        λ logs. on_exchange-ne-panic conf path (record s { logs = logs })
