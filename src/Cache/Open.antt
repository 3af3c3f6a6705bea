-- ===== src/Cache/Open.antt =====
-- cache.rs: `db_init`, and `Cache` with its constructor and its methods `close` and `clear`.
pub mod Laws
use Prim.Native.String
use frl_online_proxy.Prelude.{
  String, Bool, true, false, Option, none, some, List, [], ◌∷◌, if◌then◌else◌,
}
use frl_online_proxy.Outcome.{Outcome, ok, err, panic, Report}
use frl_online_proxy.Exec.{Exec, pure, lift, continue, ◌>>=◌, ◌>>◌}
use frl_online_proxy.Settings.{Settings, ProxyMode, cache, store, forward, passthrough}
use frl_online_proxy.Cache.Tables.{Tables, empty}
use frl_online_proxy.Cache.Engine.{Conn, Db, step, execute, transaction, close}

pub record Cache : Type 0 where
  pub enabled : Bool
  pub mode : ProxyMode
  pub db_pool : Option Conn

-- `Cache::default()`
abbrev pub disabled : Cache
disabled = record { enabled = false; mode = cache; db_pool = none }

-- What a file holds, `none` where there is none, and the faults of the steps on it.
pub record File : Type 0 where
  pub content : Option Tables
  pub faults : List (Option Report)

abbrev cannot_open : Report
cannot_open = record { message = "unable to open database file" }

-- The pool that opens on the file: `mode=rwc` creates it, `mode=rw` does not.
abbrev opened : Bool → File → Outcome Report Conn
opened create f = elim f.content [
  | none ↦
      if create
      then ok (record { tables = empty; closed = false; faults = f.faults })
      else err cannot_open
  | some t ↦ ok (record { tables = t; closed = false; faults = f.faults })
]

-- The connection and the four `create table if not exists`, which change no table that is there.
abbrev init_steps : Db (Unit {0})
init_steps = do step; step; step; step; step

abbrev pool_of : Outcome Report (Unit {0}) → Conn → Outcome Report Conn
pool_of (ok a) c = ok c
pool_of (err e) c = err e
pool_of panic c = panic

abbrev after_open : Outcome Report Conn → Outcome Report Conn
after_open (ok c) = pool_of (init_steps c).0 (init_steps c).1
after_open (err e) = err e
after_open panic = panic

unfoldable pub db_init : Bool → File → Outcome Report Conn
db_init create f = after_open (opened create f)

abbrev pub found : File → Bool
found f = elim f.content [ none ↦ false | some t ↦ true ]

abbrev pub cache_on : ProxyMode → String → Outcome Report Conn → Outcome Report Cache
cache_on mode name (ok pool) = ok (record { enabled = true; mode = mode; db_pool = some pool })
cache_on mode name (err e) =
    err (record { message = String.◌++◌ "Can't connect to cache db: " name })
cache_on mode name panic = panic

abbrev open_cache : ProxyMode → String → Bool → File → Outcome Report Cache
open_cache mode name can_create db =
    if can_create
    then cache_on mode name (db_init true db)
    else if found db
    then cache_on mode name (db_init false db)
    else err (record { message = String.◌++◌ "Can't open cache db: " name })

abbrev pub is_passthrough : ProxyMode → Bool
is_passthrough passthrough = true
is_passthrough _ = false

-- `Cache::from`; the file is the one at `conf.cache.db_path`.
unfoldable pub cache_from : Settings → Bool → File → Outcome Report Cache
unfolding db_init
cache_from conf can_create db =
    if is_passthrough conf.proxy.mode
    then ok disabled
    else open_cache conf.proxy.mode conf.cache.db_path can_create db

-- Runs a function of the database on the cache's pool; `unwrap` panics where there is none.
abbrev pub on_pool : {A : Type 0} → Db A → Exec Cache A
on_pool m self = elim self.db_pool [
  | none ↦ (panic, self)
  | some pool ↦ ((m pool).0, record self { db_pool = some (m pool).1 })
]

-- `Cache::close`
unfoldable pub close_cache : Exec Cache (Unit {0})
close_cache self =
    if self.enabled
    then elim self.db_pool [
      | none ↦ (ok tt, self)
      | some pool ↦ (ok tt, record self { db_pool = some (close pool).1 })
    ]
    else (ok tt, self)

-- `CLEAR_ALL`
abbrev pub clear_all : Tables → Tables
clear_all t = record t {
  deactivation_responses = [];
  deactivation_requests = [];
  activation_responses = [];
  activation_requests = [];
}

-- `Cache::clear`; the user's answer is asked for where `sure` is not given.
unfoldable pub clear : Bool → Outcome Report Bool → Exec Cache (Unit {0})
clear sure answer = do
  confirm ← lift (if sure then ok true else answer)
  if confirm then on_pool (transaction (execute clear_all)) else pure tt
  close_cache
