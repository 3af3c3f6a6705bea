-- ===== src/Cache/Engine/Laws.antt =====
-- Transactions are all or nothing, whatever step fails.
use mathlib.Core.Path.{subst, sym}
use frl_online_proxy.Prelude.{◌≡◌, ◌≢◌, refl, arith}
use frl_online_proxy.Outcome.{Outcome, ok, err, panic, Report}
use frl_online_proxy.Exec.{pure, continue, ◌>>◌}
use frl_online_proxy.Cache.Tables.{Tables}
use frl_online_proxy.Cache.Engine.{Conn, Db, IsHealthy, step, execute, transaction}

-- If `m` returns, it has done `f` to the tables; on a healthy connection it returns.
pub record Runs (f : Tables → Tables) (m : Db (Unit {0})) : Type 0 where
  pub done : (c : Conn) → (m c).0 ≡ ok tt → (m c).1.tables ≡ f c.tables
  pub healthy : (c : Conn) → IsHealthy c → ((m c).0 ≡ ok tt) × IsHealthy (m c).1

-- And if it does not return, it has changed no table.
pub record Writes (f : Tables → Tables) (m : Db (Unit {0})) : Type 0 where
  pub runs : Runs f m
  pub undone : (c : Conn) → (m c).0 ≢ ok tt → (m c).1.tables ≡ c.tables

pub step-tables : (c : Conn) → (step c).1.tables ≡ c.tables
unfolding step
step-tables c = ground arith

pub step-IsHealthy : (c : Conn) → IsHealthy c → ((step c).0 ≡ ok tt) × IsHealthy (step c).1
unfolding step
step-IsHealthy c h = ground arith

pub Runs-pure : Runs (λ t. t) (pure tt)
Runs-pure = record { done = λ c p. refl; healthy = λ c h. (refl, h) }

pub Runs-execute : (f : Tables → Tables) → Runs f (execute f)
unfolding execute
Runs-execute f = record {
  done = λ c p. ground (arith, step-tables c);
  healthy = λ c h. ground (arith, step-IsHealthy c h);
}

pub Runs-then :
    {f g : Tables → Tables} {m n : Db (Unit {0})}
    → Runs f m
    → Runs g n
    → Runs (λ t. g (f t)) (m >> n)
Runs-then {f} {g} {m} {n} rm rn = record {
  done = λ c p. ground (arith, rm.done c, rn.done (m c).1);
  healthy = λ c h. ground (arith, rm.healthy c h, rn.healthy (m c).1);
}

Runs-step : Runs (λ t. t) step
Runs-step = record { done = λ c p. step-tables c; healthy = step-IsHealthy }

pub Writes-transaction :
    {f : Tables → Tables} {body : Db (Unit {0})} → Runs f body → Writes f (transaction body)
unfolding transaction
Writes-transaction {f} {body} r =
    let t = Runs-then Runs-step (Runs-then r Runs-step) in
    record {
      runs = record {
        done = λ c p. ground (arith, t.done c);
        healthy = λ c h. ground (arith, t.healthy c h);
      };
      undone = λ c p. ground arith;
    }

-- `m` keeps a property of the tables, however it ends.
pub record Keeps (P : Tables → Type 0) (m : Db (Unit {0})) : Type 0 where
  pub at : (c : Conn) → P c.tables → P (m c).1.tables

pub Keeps-Writes :
    {P : Tables → Type 0} {f : Tables → Tables} {m : Db (Unit {0})}
    → Writes f m
    → ((t : Tables) → P t → P (f t))
    → Keeps P m
Keeps-Writes {P} {f} {m} w keep = record { at = λ c p. go c p (m c).0 refl }
  where
    go : (c : Conn) → P c.tables → (o : Outcome Report (Unit {0})) → (m c).0 ≡ o → P (m c).1.tables
    go c p (ok tt) e = subst P (sym (w.runs.done c e)) (keep c.tables p)
    go c p (err r) e = subst P (sym (w.undone c (λ q. cc))) p
    go c p panic e = subst P (sym (w.undone c (λ q. cc))) p

pub Keeps-then :
    {P : Tables → Type 0} {m n : Db (Unit {0})} → Keeps P m → Keeps P n → Keeps P (m >> n)
Keeps-then {P} {m} {n} km kn = record { at = λ c p. go c (m c).0 (m c).1 (km.at c p) }
  where
    go :
        (c : Conn) (o : Outcome Report (Unit {0})) (d : Conn)
        → P d.tables
        → P (continue o (λ _. n) d).1.tables
    go c (ok tt) d q = kn.at d q
    go c (err e) d q = q
    go c panic d q = q
