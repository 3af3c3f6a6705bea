-- ===== src/Main/Keeping.antt =====
-- What the commands of main.rs keep of the databases.
pub mod Commands
use Prim.Native.String
use mathlib.Core.Path.{subst}
use frl_online_proxy.Prelude.{
  ◌≡◌, refl, String, Bool, true, false, Option, none, some, All, if◌then◌else◌,
}
use frl_online_proxy.Outcome.{Outcome, ok, err, panic, Report, wrapped, ok-injective}
use frl_online_proxy.Exec.{Exec, Keeps, Keeps-bind, Keeps-if, Keeps-lift, lift}
use frl_online_proxy.Settings.{Settings, ProxyMode}
use frl_online_proxy.Settings.Validate.{validate}
use frl_online_proxy.Settings.Load.{load_config}
use frl_online_proxy.Settings.Configure.{update_config_file}
use frl_online_proxy.Logging.{init}
use frl_online_proxy.Cli.{Command, start, configure, FrlProxy}
use frl_online_proxy.Cache.Tables.{Tables}
use frl_online_proxy.Cache.Engine.{Conn}
use frl_online_proxy.Cache.Invariant.Clean.{IsClean}
use frl_online_proxy.Cache.Open.{
  Cache, File, disabled, found, is_passthrough, cache_on, db_init, cache_from, close_cache, clear,
}
use frl_online_proxy.Cache.Methods.Keeping.{Holds, Holds-KeptByMethods, IsClean-IsKept}
use frl_online_proxy.Cache.Exchange.{import, export}
use frl_online_proxy.Cache.Exchange.Keeping.{
  IsCleanFile, db_init-IsClean, import-Keeps, clear-Keeps, close_cache-Keeps,
}
use frl_online_proxy.Cache.Exchange.Keeping.Exports.{export-Keeps}
use frl_online_proxy.Proxy.Concurrent.Keeping.{IsPlainActivity}
use frl_online_proxy.Proxy.Forward.{forward_stored_requests}
use frl_online_proxy.Proxy.Forward.Keeping.{forward_stored_requests-Keeps}
use frl_online_proxy.Proxy.Run.{run_plain, run_secure}
use frl_online_proxy.Proxy.Run.Keeping.{run_plain-Keeps, run_secure-Keeps}
use frl_online_proxy.Main.{
  Machine, Env, mode_override, ssl_override, offline, is_forward, left_by, on_opened, with_cache,
  on_exchange, prepare, forwarding, serving, start_as, run_start, run_update, run_clear, run_import,
  run_export, command, load, unwrapped, proceed, main,
}

-- The cache's database and the file of an import or an export are clean, where they exist.
abbrev pub IsCleanMachine : {T : Type 0} → Machine T → Type 0
IsCleanMachine s = IsCleanFile s.db × IsCleanFile s.other

left_by-IsClean :
    (self : Cache) (before : File)
    → Holds IsClean self
    → IsCleanFile before
    → IsCleanFile (left_by self before)
left_by-IsClean self before = go self.db_pool
  where
    go :
        (pool : Option Conn)
        → Holds IsClean (record { enabled = self.enabled; mode = self.mode; db_pool = pool })
        → IsCleanFile before
        → IsCleanFile
            (left_by (record { enabled = self.enabled; mode = self.mode; db_pool = pool }) before)
    go none h f = f
    go (some c) h f = h

cache_on-IsClean :
    (mode : ProxyMode) (name : String) (o : Outcome Report Conn) (self : Cache)
    → ((c : Conn) → o ≡ ok c → IsClean c.tables)
    → cache_on mode name o ≡ ok self
    → Holds IsClean self
cache_on-IsClean mode name (ok c) self p e = subst (Holds IsClean) (ok-injective e) (p c refl)
cache_on-IsClean mode name (err x) self p e = cc
cache_on-IsClean mode name panic self p e = cc

pub cache_from-IsClean :
    (conf : Settings) (can_create : Bool) (f : File) (self : Cache)
    → IsCleanFile f
    → cache_from conf can_create f ≡ ok self
    → Holds IsClean self
unfolding cache_from
cache_from-IsClean conf can_create f self h e =
    go (is_passthrough conf.proxy.mode) can_create (found f) e
  where
    cache_at : Bool → Outcome Report Cache
    cache_at create = cache_on conf.proxy.mode conf.cache.db_path (db_init create f)

    go :
        (passes create there : Bool)
        → (if passes
            then ok disabled
            else if create
            then cache_at true
            else if there
            then cache_at false
            else err (record { message = String.◌++◌ "Can't open cache db: " conf.cache.db_path }))
          ≡ ok self
        → Holds IsClean self
    go true create there e = subst (Holds IsClean) (ok-injective e) tt
    go false true there e = cache_on-IsClean _ _ _ self (λ c i. db_init-IsClean true f c h i) e
    go false false true e = cache_on-IsClean _ _ _ self (λ c i. db_init-IsClean false f c h i) e
    go false false false e = cc

module _ {T : Type 0} where
  on_opened-Keeps :
      {A : Type 0} (o : Outcome Report Cache) (m : Exec Cache A) (s : Machine T)
      → ((self : Cache) → o ≡ ok self → Holds IsClean self)
      → Keeps (Holds IsClean) m
      → IsCleanMachine s
      → IsCleanMachine (on_opened o m s).1
  on_opened-Keeps (ok self) m s p k (db, other) =
      (left_by-IsClean (m self).1 s.db (k.at self (p self refl)) db, other)
  on_opened-Keeps (err e) m s p k h = h
  on_opened-Keeps panic m s p k h = h

  pub with_cache-Keeps :
      {A : Type 0} (conf : Settings) (can_create : Bool) (m : Exec Cache A) (s : Machine T)
      → Keeps (Holds IsClean) m
      → IsCleanMachine s
      → IsCleanMachine (with_cache conf can_create m s).1
  with_cache-Keeps conf can_create m s k h =
      on_opened-Keeps (cache_from conf can_create s.db) m s
        (λ self. cache_from-IsClean conf can_create s.db self h.0) k h

  pub on_exchange-Keeps :
      (o : Outcome Report Cache) (path : String) (s : Machine T)
      → ((self : Cache) → o ≡ ok self → Holds IsClean self)
      → IsCleanMachine s
      → IsCleanMachine (on_exchange o path s).1
  on_exchange-Keeps (ok self) path s p (db, other) =
      let after = export-Keeps.at (record { self = self; file = s.other }) (p self refl, other) in
      (
        left_by-IsClean (export (record { self = self; file = s.other })).1.self s.db after.0 db,
        after.1,
      )
  on_exchange-Keeps (err e) path s p h = h
  on_exchange-Keeps panic path s p h = h
