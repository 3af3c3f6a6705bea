-- ===== src/Cache/Exchange/Keeping/Exports.antt =====
-- What an export keeps of the cache, and leaves in its file.
use mathlib.Core.Path.{subst}
use frl_online_proxy.Prelude.{
  ◌≡◌, refl, sym, Bool, true, false, Option, none, some, List, [], ◌∷◌, All, if◌then◌else◌,
}
use frl_online_proxy.Outcome.{Outcome, ok, err, panic, Report}
use frl_online_proxy.Exec.{Exec, ◌>>=◌, ◌>>◌, Keeps, Keeps-bind, Keeps-after, Keeps-lift}
use frl_online_proxy.Settings.{ProxyMode}
use frl_online_proxy.Cops.{Request}
use frl_online_proxy.Cache.Keys.{IsPlain}
use frl_online_proxy.Cache.Engine.{Conn, close}
use frl_online_proxy.Cache.Fetch.{fetch_unanswered_requests}
use frl_online_proxy.Cache.Invariant.Clean.{IsClean}
use frl_online_proxy.Cache.Invariant.Clean.Reads.{fetch_unanswered_requests-IsPlain}
use frl_online_proxy.Cache.Open.{Cache, on_pool, found, db_init}
use frl_online_proxy.Cache.Methods.{request_action}
use frl_online_proxy.Cache.Methods.Keeping.{
  Holds, request_action-Holds, IsClean-IsKept, unanswered-tables,
}
use frl_online_proxy.Cache.Exchange.{store_requests, Exchange, on_cache, write_out, export}
use frl_online_proxy.Cache.Exchange.Keeping.{
  IsCleanFile, OnTables, db_init-IsClean, on_pool-Keeps, close-Keeps,
}

store_requests-Keeps :
    (reqs : List Request) → All IsPlain reqs → Keeps OnTables (store_requests reqs)
unfolding store_requests
store_requests-Keeps [] h = Keeps-lift (ok tt)
store_requests-Keeps (req ∷ reqs) (p, h) =
    Keeps-bind (request_action req.kind req) _
      (record { at = request_action-Holds IsClean IsClean-IsKept req.kind req p })
      λ _. store_requests-Keeps reqs h

-- Both databases of an export are clean.
abbrev pub IsCleanExchange : Exchange → Type 0
IsCleanExchange x = Holds IsClean x.self × IsCleanFile x.file

write_out-Keeps :
    (reqs : List Request) (x : Exchange)
    → All IsPlain reqs
    → IsCleanExchange x
    → IsCleanExchange (write_out reqs (db_init true x.file) x).1
write_out-Keeps reqs x p (h, f) = go (db_init true x.file) refl
  where
    go :
        (o : Outcome Report Conn) → db_init true x.file ≡ o → IsCleanExchange (write_out reqs o x).1
    go (ok c) e = (h, (store_requests-Keeps reqs p).at c (db_init-IsClean true x.file c f e))
    go (err r) e = (h, f)
    go panic e = (h, f)

on_cache-Keeps :
    {A : Type 0} (m : Exec Cache A) → Keeps (Holds IsClean) m → Keeps IsCleanExchange (on_cache m)
on_cache-Keeps m k = record { at = λ x (h, f). (k.at x.self h, f) }

unanswered-Keeps : Keeps OnTables fetch_unanswered_requests
unanswered-Keeps = record { at = λ c h. subst IsClean (sym (unanswered-tables c)) h }

unanswered-IsPlain :
    (self : Cache) (reqs : List Request)
    → Holds IsClean self
    → (on_pool fetch_unanswered_requests self).0 ≡ ok reqs
    → All IsPlain reqs
unanswered-IsPlain self reqs = go self.mode self.db_pool
  where
    go :
        (mode : ProxyMode) (pool : Option Conn)
        → Holds IsClean (record { enabled = self.enabled; mode = mode; db_pool = pool })
        → (on_pool fetch_unanswered_requests
            (record { enabled = self.enabled; mode = mode; db_pool = pool })).0
          ≡ ok reqs
        → All IsPlain reqs
    go mode none h e = cc
    go mode (some c) h e = fetch_unanswered_requests-IsPlain c reqs h e

after_found-Keeps :
    (reqs : List Request)
    → All IsPlain reqs
    → Keeps IsCleanExchange
        (on_cache (on_pool close) >> λ y. write_out reqs (db_init true y.file) y)
after_found-Keeps reqs p =
    Keeps-bind (on_cache (on_pool close)) _ (on_cache-Keeps _ (on_pool-Keeps close close-Keeps))
      λ _. record { at = λ y h. write_out-Keeps reqs y p h }

either :
    (b : Bool) (p q : Outcome Report (Unit {0}) × Exchange)
    → IsCleanExchange p.1
    → IsCleanExchange q.1
    → IsCleanExchange (if b then p else q).1
either true p q h k = h
either false p q h k = k

-- An export keeps the cache clean, and leaves a clean file, whatever fails.
pub export-Keeps : Keeps IsCleanExchange export
unfolding export
export-Keeps = record { at = λ x h. either (found x.file) _ _ h (found_out.at x h) }
  where
    found_out : Keeps IsCleanExchange (
        on_cache (on_pool fetch_unanswered_requests) >>= λ reqs.
        on_cache (on_pool close) >> λ y. write_out reqs (db_init true y.file) y)
    found_out =
        Keeps-after IsCleanExchange (on_cache (on_pool fetch_unanswered_requests)) _
          (on_cache-Keeps _ (on_pool-Keeps _ unanswered-Keeps))
          λ x reqs h got after.
            (after_found-Keeps reqs (unanswered-IsPlain x.self reqs h.0 got)).at _ after
