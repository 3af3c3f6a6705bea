-- ===== src/Cache/Open/Laws.antt =====
-- The cache as `Cache::from` opens it, and after `clear`.
use frl_online_proxy.Prelude.{
  ◌≡◌, ◌≢◌, ◌⊎◌, ◌||◌, Bool, true, false, none, some, arith, if◌then◌else◌,
}
use frl_online_proxy.Outcome.{ok}
use frl_online_proxy.Settings.{Settings}
use frl_online_proxy.Cache.Tables.{empty}
use frl_online_proxy.Cache.Engine.{Conn, IsHealthy, step, execute, transaction, close}
use frl_online_proxy.Cache.Open.{Cache, File, cache_from, is_passthrough, clear, close_cache}

-- A cache that has been opened is disabled exactly in passthrough mode; when it is enabled it has a
-- pool, so that no `unwrap` of the pool panics, and is in the configured mode.
pub cache_from-enabled :
    (conf : Settings) (can_create : Bool) (db : File) (self : Cache)
    → cache_from conf can_create db ≡ ok self
    → ((self.enabled ≡ false) × (is_passthrough conf.proxy.mode ≡ true) × (self.db_pool ≡ none))
      ⊎ ((self.enabled ≡ true)
          × (is_passthrough conf.proxy.mode ≡ false)
          × (self.db_pool ≢ none)
          × (self.mode ≡ conf.proxy.mode))
unfolding cache_from
cache_from-enabled conf can_create db self h = ground arith

-- Clearing a cache whose database works, when `sure` is given or the user confirms, empties its four
-- tables; otherwise the tables stay. The pool is closed all the same, and the call returns.
clear_lem :
    (sure confirmed : Bool) (self : Cache) (pool : Conn)
    → self.enabled ≡ true
    → self.db_pool ≡ some pool
    → IsHealthy pool
    → clear sure (ok confirmed) self ≡ (
      ok tt,
      record self {
        db_pool = some (record pool {
          tables = if sure || confirmed then empty else pool.tables;
          closed = true;
        });
      },
    )
unfolding clear close_cache transaction execute step close
clear_lem sure confirmed self pool on p h = ground arith
