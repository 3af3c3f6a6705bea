-- ===== src/Main/Refusals.antt =====
-- What the commands of main.rs leave as it was: a configuration that is refused, and a database that
-- is missing.
use frl_online_proxy.Prelude.{◌≡◌, ◌≢◌, refl, sym, ap, ◌∙◌, String, Bool, Option, none, arith}
use frl_online_proxy.Outcome.{Outcome, ok, err, panic, Report}
use frl_online_proxy.Exec.{Exec, lift, continue, ◌>>◌}
use frl_online_proxy.Settings.{Settings, forward}
use frl_online_proxy.Settings.Validate.{validate}
use frl_online_proxy.Logging.{Logs, init}
use frl_online_proxy.Cli.{Command, start, configure}
use frl_online_proxy.Cache.Open.{cache_from}
use frl_online_proxy.Main.{
  Machine, Env, mode_override, ssl_override, offline, start_logging, prepare, start_as, command,
  run_start, run_update, run_clear, run_import, run_export,
}

-- The configuration a command works with.
abbrev pub effective : Command → Settings → Outcome Report Settings
effective (start mode ssl) conf = elim (mode_override mode conf) [
  | ok moded ↦ ok (ssl_override ssl moded)
  | err e ↦ err e
  | panic ↦ panic
]
effective configure conf = ok conf
effective (Command.clear sure) conf = ok (offline conf)
effective (Command.import path) conf = ok (offline conf)
effective (Command.export path) conf = ok (offline conf)

-- The commands that do not create a database: an export, and a start in forward mode.
pub data NeedsDatabase : Command → Settings → Type 0 where
  exported : {path : String} {conf : Settings} → NeedsDatabase (Command.export path) conf
  forwarded :
      {mode : Option String} {ssl : Option Bool} {conf moded : Settings}
      → mode_override mode conf ≡ ok moded
      → moded.proxy.mode ≡ forward
      → NeedsDatabase (start mode ssl) conf

module _ {T : Type 0} (env : Env T) where
  -- Whether the configuration a command works with passes the checks.
  abbrev pub Accepts : Command → Settings → Type 0
  Accepts cmd conf =
      (used : Settings) × (effective cmd conf ≡ ok used) × (validate env.exists used ≡ ok tt)

  -- A step that ends without success, and leaves the machine as it was.
  abbrev Stops : Exec (Machine T) (Unit {0}) → Machine T → Type 0
  Stops m s = ((m s).0 ≢ ok tt) × ((m s).1 ≡ s)

  Stops-lift :
      (o : Outcome Report (Unit {0})) (k : Exec (Machine T) (Unit {0})) (s : Machine T)
      → o ≢ ok tt
      → Stops (lift o >> k) s
  Stops-lift (ok a) k s h = absurd (h refl)
  Stops-lift (err e) k s h = ((λ q. cc), refl)
  Stops-lift panic k s h = ((λ q. cc), refl)

  Stops-bind : (m k : Exec (Machine T) (Unit {0})) (s : Machine T) → Stops m s → Stops (m >> k) s
  Stops-bind m k s p = go (m s).0 (m s).1 p.0 p.1
    where
      go :
          (o : Outcome Report (Unit {0})) (t : Machine T)
          → o ≢ ok tt
          → t ≡ s
          → ((continue o (λ _. k) t).0 ≢ ok tt) × ((continue o (λ _. k) t).1 ≡ s)
      go (ok a) t h e = absurd (h refl)
      go (err x) t h e = ((λ q. cc), e)
      go panic t h e = ((λ q. cc), e)

  Stops-prepare :
      (used : Settings) (k : Exec (Machine T) (Unit {0})) (s : Machine T)
      → validate env.exists used ≢ ok tt
      → Stops (prepare env used >> k) s
  Stops-prepare used k s h =
      Stops-bind (prepare env used) k s
        (Stops-lift (validate env.exists used) (start_logging env used) s h)

  -- A command whose configuration, with the options of the command line, does not pass the checks
  -- ends without success and leaves the terminal and every file as they were.
  pub command-refused :
      (cmd : Command) (conf : Settings) (s : Machine T)
      → ¬ Accepts cmd conf
      → ((command env cmd conf s).0 ≢ ok tt) × ((command env cmd conf s).1 ≡ s)
  unfolding command run_start run_clear run_import run_export
  command-refused (start mode ssl) conf s h = go (mode_override mode conf) refl
    where
      go :
          (o : Outcome Report Settings)
          → mode_override mode conf ≡ o
          → Stops (continue o (start_as env ssl)) s
      go (ok moded) e =
          Stops-prepare (ssl_override ssl moded) _ s
            λ v. h (ssl_override ssl moded, ground arith, v)
      go (err x) e = ((λ q. cc), refl)
      go panic e = ((λ q. cc), refl)
  command-refused configure conf s h =
      Stops-lift (validate env.exists conf) (run_update env conf) s λ v. h (conf, refl, v)
  command-refused (Command.clear sure) conf s h =
      Stops-prepare (offline conf) _ s λ v. h (offline conf, refl, v)
  command-refused (Command.import path) conf s h =
      Stops-prepare (offline conf) _ s λ v. h (offline conf, refl, v)
  command-refused (Command.export path) conf s h =
      Stops-prepare (offline conf) _ s λ v. h (offline conf, refl, v)

  -- A step that ends without success, and changes the log files at most.
  abbrev AddsLogs : Exec (Machine T) (Unit {0}) → Machine T → Type 0
  AddsLogs m s = ((m s).0 ≢ ok tt) × ((m s).1 ≡ record s { logs = (m s).1.logs })

  prepare-AddsLogs :
      (used : Settings) (k : Exec (Machine T) (Unit {0})) (s : Machine T)
      → ((logs : Logs) → Stops k (record s { logs = logs }))
      → AddsLogs (prepare env used >> k) s
  prepare-AddsLogs used k s p = go (validate env.exists used)
    where
      started :
          (o : Outcome Report (Unit {0})) (logs : Logs)
          → AddsLogs (λ t. continue o (λ _. k) (record t { logs = logs })) s
      started (ok a) logs = (
        (λ e. (p logs).0 (ground arith)),
        (p logs).1 ∙ ap (λ l. record s { logs = l }) (sym (ap (λ t. t.logs) (p logs).1)),
      )
      started (err x) logs = ((λ e. cc), refl)
      started panic logs = ((λ e. cc), refl)

      go : (v : Outcome Report (Unit {0})) → AddsLogs ((lift v >> start_logging env used) >> k) s
      go (ok a) = started (init env.fern used s.logs).0 (init env.fern used s.logs).1
      go (err x) = ((λ e. cc), refl)
      go panic = ((λ e. cc), refl)

  start_as-absent :
      (ssl : Option Bool) (moded : Settings) (s : Machine T)
      → moded.proxy.mode ≡ forward
      → s.db.content ≡ none
      → AddsLogs (start_as env ssl moded) s
  unfolding cache_from
  start_as-absent ssl moded s f none_yet =
      prepare-AddsLogs (ssl_override ssl moded) _ s λ logs. ground arith

  -- Without a database, an export and a start in forward mode end without success and create none: they
  -- leave the terminal, the configuration file, the database and the export's file as they were, and
  -- change the log files at most.
  pub command-absent :
      (cmd : Command) (conf : Settings) (s : Machine T)
      → NeedsDatabase cmd conf
      → s.db.content ≡ none
      → ((command env cmd conf s).0 ≢ ok tt)
        × ((command env cmd conf s).1 ≡ record s { logs = (command env cmd conf s).1.logs })
  unfolding command run_start run_export cache_from
  command-absent (Command.export path) conf s exported none_yet =
      prepare-AddsLogs (offline conf) _ s λ logs. ((λ w. ground arith), ground arith)
  command-absent (start mode ssl) conf s (forwarded {moded} m f) none_yet =
      go (mode_override mode conf) m
    where
      go : (o : Outcome Report Settings) → o ≡ ok moded → AddsLogs (continue o (start_as env ssl)) s
      go (ok used) e = start_as-absent ssl used s (ground (arith, f)) none_yet
      go (err x) e = ((λ q. cc), refl)
      go panic e = ((λ q. cc), refl)
  command-absent configure conf s x none_yet = elim x [ ]
  command-absent (Command.clear sure) conf s x none_yet = elim x [ ]
  command-absent (Command.import path) conf s x none_yet = elim x [ ]
