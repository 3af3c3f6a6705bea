-- ===== src/Main/Keeping/Commands.antt =====
-- What a run of main.rs keeps of the databases, whatever the command.

use mathlib.Core.Path.{subst}
use frl_online_proxy.Prelude.{
  ◌≡◌, sym, String, Bool, true, false, Option, none, some, All, if◌then◌else◌, arith,
}
use frl_online_proxy.Exec.{Exec, Keeps, Keeps-bind, Keeps-if, Keeps-lift, lift}
use frl_online_proxy.Settings.{Settings}
use frl_online_proxy.Settings.Validate.{validate}
use frl_online_proxy.Cli.{Command, start, configure, FrlProxy}
use frl_online_proxy.Cache.Invariant.Clean.{IsClean}
use frl_online_proxy.Cache.Open.{Cache, cache_from}
use frl_online_proxy.Cache.Methods.Keeping.{Holds, Holds-KeptByMethods, IsClean-IsKept}
use frl_online_proxy.Cache.Exchange.Keeping.{
  IsCleanFile, import-Keeps, clear-Keeps, close_cache-Keeps,
}
use frl_online_proxy.Proxy.Concurrent.Keeping.{IsPlainActivity}
use frl_online_proxy.Proxy.Forward.{forward_stored_requests}
use frl_online_proxy.Proxy.Forward.Keeping.{forward_stored_requests-Keeps}
use frl_online_proxy.Proxy.Run.{run_plain, run_secure}
use frl_online_proxy.Proxy.Run.Keeping.{run_plain-Keeps, run_secure-Keeps}
use frl_online_proxy.Main.{
  Machine, Env, mode_override, ssl_override, offline, is_forward, with_cache, prepare, forwarding,
  serving, run_start, run_update, run_clear, run_import, run_export, command, load, unwrapped,
  proceed, main,
}
use frl_online_proxy.Main.Keeping.{
  IsCleanMachine, cache_from-IsClean, with_cache-Keeps, on_exchange-Keeps,
}

-- What the clients send to a server is not handled, or is a plain request.
pub record HasPlainClients {T : Type 0} (env : Env T) : Type 0 where
  pub plain : (conf : Settings) → All (IsPlainActivity env.world conf) env.runtime.activities

module _ {T : Type 0} (env : Env T) where
  prepare-Keeps : (conf : Settings) → Keeps IsCleanMachine (prepare env conf)
  prepare-Keeps conf =
      Keeps-bind (lift (validate env.exists conf)) _ (Keeps-lift _) λ _. record { at = λ s h. h }

  forwarding-Keeps : (conf : Settings) → Keeps (Holds IsClean) (forwarding env conf)
  forwarding-Keeps conf =
      Keeps-bind (forward_stored_requests env.world conf env.now) _
        (forward_stored_requests-Keeps env.world conf env.now) λ _. close_cache-Keeps

  serving-Keeps : (conf : Settings) → HasPlainClients env → Keeps (Holds IsClean) (serving env conf)
  serving-Keeps conf h =
      let kept = Holds-KeptByMethods IsClean IsClean-IsKept in
      Keeps-bind
        (if conf.proxy.ssl
          then run_secure env.runtime env.world conf
          else run_plain env.runtime env.world conf)
        _
        (Keeps-if conf.proxy.ssl (run_secure-Keeps kept env.runtime env.world conf (h.plain conf))
          (run_plain-Keeps kept env.runtime env.world conf (h.plain conf)))
        λ _. close_cache-Keeps

  opened-Keeps :
      {A : Type 0} (conf : Settings) (can_create : Bool) (m : Exec Cache A)
      → Keeps (Holds IsClean) m
      → Keeps IsCleanMachine (with_cache {T = T} conf can_create m)
  opened-Keeps conf can_create m k = record { at = λ s. with_cache-Keeps conf can_create m s k }

  run_start-Keeps :
      (mode : Option String) (ssl : Option Bool) (conf : Settings)
      → HasPlainClients env
      → Keeps IsCleanMachine (run_start env mode ssl conf)
  unfolding run_start
  run_start-Keeps mode ssl conf h =
      Keeps-bind (lift (mode_override mode conf)) _ (Keeps-lift _) λ moded.
        let used = ssl_override ssl moded in
        Keeps-bind (prepare env used) _ (prepare-Keeps used) λ _.
          Keeps-if (is_forward used.proxy.mode) (opened-Keeps used false _ (forwarding-Keeps used))
            (opened-Keeps used true _ (serving-Keeps used h))

  run_update-files :
      (conf : Settings) (s : Machine T)
      → ((run_update env conf s).1.db ≡ s.db) × ((run_update env conf s).1.other ≡ s.other)
  unfolding run_update
  run_update-files conf s = ground arith

  run_update-Keeps : (conf : Settings) → Keeps IsCleanMachine (run_update env conf)
  unfolding run_update
  run_update-Keeps conf = record {
    at = λ s (db, other).
        let same = run_update-files conf s in
        (subst IsCleanFile (sym same.0) db, subst IsCleanFile (sym same.1) other);
  }

  run_clear-Keeps : (sure : Bool) (conf : Settings) → Keeps IsCleanMachine (run_clear env sure conf)
  unfolding run_clear
  run_clear-Keeps sure conf =
      Keeps-bind (prepare env (offline conf)) _ (prepare-Keeps (offline conf))
        λ _. opened-Keeps (offline conf) true _ (record { at = (clear-Keeps sure env.answer).at })

  run_import-Keeps :
      (path : String) (conf : Settings) → Keeps IsCleanMachine (run_import env path conf)
  unfolding run_import
  run_import-Keeps path conf =
      Keeps-bind (prepare env (offline conf)) _ (prepare-Keeps (offline conf)) λ _. record {
        at = λ s h.
            with_cache-Keeps (offline conf) true _ s (record { at = (import-Keeps s.other h.1).at })
              h;
      }

  run_export-Keeps :
      (path : String) (conf : Settings) → Keeps IsCleanMachine (run_export env path conf)
  unfolding run_export
  run_export-Keeps path conf =
      Keeps-bind (prepare env (offline conf)) _ (prepare-Keeps (offline conf)) λ _. record {
        at = λ s h.
            on_exchange-Keeps (cache_from (offline conf) false s.db) path s
              (λ self. cache_from-IsClean (offline conf) false s.db self h.0) h;
      }

  load-Keeps : (args : FrlProxy) → Keeps IsCleanMachine (load env args)
  load-Keeps args = record { at = λ s h. h }

  command-Keeps :
      (cmd : Command) (conf : Settings)
      → HasPlainClients env
      → Keeps IsCleanMachine (command env cmd conf)
  unfolding command
  command-Keeps (start mode ssl) conf h = run_start-Keeps mode ssl conf h
  command-Keeps configure conf h =
      Keeps-bind (lift (validate env.exists conf)) _ (Keeps-lift _) λ _. run_update-Keeps conf
  command-Keeps (Command.clear sure) conf h = run_clear-Keeps sure conf
  command-Keeps (Command.import path) conf h = run_import-Keeps path conf
  command-Keeps (Command.export path) conf h = run_export-Keeps path conf

  proceed-Keeps :
      (args : FrlProxy) (loaded : Option Settings)
      → HasPlainClients env
      → Keeps IsCleanMachine (proceed env args loaded)
  proceed-Keeps args (some conf) h = command-Keeps args.cmd conf h
  proceed-Keeps args none h = Keeps-bind (load env args) _ (load-Keeps args) λ again.
      Keeps-bind (lift (unwrapped env again)) _ (Keeps-lift _)
        λ conf. record { at = (run_update-Keeps conf).at }

-- Whatever the command line, the configuration, the terminal, COPS and the faults of the database, a
-- run of the program on clean databases, the cache's and the other file's, leaves them clean: no table
-- has two rows of one key, rows are those of requests and responses, and no stored activation has a `|`
-- in its application id or library version. The hypothesis is that what the clients of a server send
-- has none there either, or is not understood.
pub main-IsCleanMachine :
    {T : Type 0} (env : Env T) (args : FrlProxy) (s : Machine T)
    → HasPlainClients env
    → IsCleanMachine s
    → IsCleanMachine (main env args s).1
unfolding main
main-IsCleanMachine env args s h clean =
    (Keeps-bind (load env args) _ (load-Keeps env args)
        λ loaded. proceed-Keeps env args loaded h).at
      s clean
