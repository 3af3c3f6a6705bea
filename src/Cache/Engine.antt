-- ===== src/Cache/Engine.antt =====
-- The database as cache.rs uses it through sqlx: a pool whose every step may fail, and transactions,
-- which are rolled back when they are dropped without a commit.
pub mod Laws
pub mod Calm
use frl_online_proxy.Prelude.{
  ◌≡◌, Bool, true, false, Option, none, some, List, [], ◌∷◌, if◌then◌else◌,
}
use frl_online_proxy.Outcome.{Outcome, ok, err, panic, Report}
use frl_online_proxy.Exec.{Exec, gets, ◌>>=◌, ◌>>◌}
use frl_online_proxy.Cache.Tables.{Tables}

-- The faults are those of the steps to come, in order; where the list ends, no step fails.
pub record Conn : Type 0 where
  pub tables : Tables
  pub closed : Bool
  pub faults : List (Option Report)

abbrev pub Db : Type 0 → Type 0
Db A = Exec Conn A

-- A connection that works: open, and with no fault to come.
pub record IsHealthy (c : Conn) : Type 0 where
  pub opened : c.closed ≡ false
  pub faultless : c.faults ≡ []

abbrev pool_closed : Report
pool_closed = record { message = "attempted to acquire a connection on a closed pool" }

abbrev strike : List (Option Report) → Db (Unit {0})
strike [] c = (ok tt, c)
strike (none ∷ fs) c = (ok tt, record c { faults = fs })
strike (some e ∷ fs) c = (err e, record c { faults = fs })

-- One step that waits for the database.
unfoldable pub step : Db (Unit {0})
step c = if c.closed then (err pool_closed, c) else strike c.faults c

-- `.execute(…).await?`
unfoldable pub execute : (Tables → Tables) → Db (Unit {0})
execute f = do step; λ c. (ok tt, record c { tables = f c.tables })

-- `.fetch_all(…).await?`, `.fetch_optional(…).await?`
unfoldable pub query : {A : Type 0} → (Tables → A) → Db A
query g = do step; gets (λ c. g c.tables)

-- What a transaction leaves: its own tables where it returned, else those from before it.
abbrev settle : Tables → Outcome Report (Unit {0}) → Conn → Outcome Report (Unit {0}) × Conn
settle before (ok a) c = (ok a, c)
settle before (err e) c = (err e, record c { tables = before })
settle before panic c = (panic, record c { tables = before })

-- `pool.begin().await?`, the body, and `tx.commit().await?`
attempt : Db (Unit {0}) → Db (Unit {0})
attempt body = do step; body; step

unfoldable pub transaction : Db (Unit {0}) → Db (Unit {0})
unfolding attempt
transaction body c = settle c.tables (attempt body c).0 (attempt body c).1

-- `pool.close().await`
unfoldable pub close : Db (Unit {0})
close c = (ok tt, record c { closed = true })
