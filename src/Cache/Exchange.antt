-- ===== src/Cache/Exchange.antt =====
-- cache.rs: `Cache::import` and `Cache::export`, between the cache and another database file.
pub mod Calm
pub mod Refines
pub mod Keeping
pub mod Exported
use Prim.Native.String
use frl_online_proxy.Prelude.{Bool, true, false, Option, none, some, List, [], ◌∷◌, if◌then◌else◌}
use frl_online_proxy.Outcome.{Outcome, ok, err, panic, Report}
use frl_online_proxy.Exec.{Exec, pure, lift, ◌>>=◌, ◌>>◌}
use frl_online_proxy.Settings.{ProxyMode, cache}
use frl_online_proxy.Cops.{Request, Response}
use frl_online_proxy.Cache.Tables.{Tables}
use frl_online_proxy.Cache.Engine.{Conn, Db, close}
use frl_online_proxy.Cache.Fetch.{fetch_unanswered_requests, fetch_forwarded_pairs}
use frl_online_proxy.Cache.Open.{Cache, File, found, db_init, on_pool}
use frl_online_proxy.Cache.Methods.{request_action, response_action}

-- `for req in requests.iter() { … ?; }`
unfoldable pub store_requests : List Request → Db (Unit {0})
store_requests [] = pure tt
store_requests (req ∷ reqs) = do request_action req.kind req; store_requests reqs

-- `for (req, resp) in pairs.iter() { … ?; }`
unfoldable pub store_pairs : List (Request × Response) → Db (Unit {0})
store_pairs [] = pure tt
store_pairs ((req, resp) ∷ pairs) = do response_action req.kind cache req resp; store_pairs pairs

-- `db_init(path, "rw")` and `fetch_forwarded_pairs`; the file itself stays as it is.
abbrev pub pairs_in : Outcome Report Conn → Outcome Report (List (Request × Response))
pairs_in (ok c) = (fetch_forwarded_pairs c).0
pairs_in (err e) = err e
pairs_in panic = panic

abbrev pub read_pairs : File → Outcome Report (List (Request × Response))
read_pairs f =
    if found f
    then pairs_in (db_init false f)
    else err (record { message = "No such file or directory" })

unfoldable pub import : File → Exec Cache (Unit {0})
unfolding db_init
import f = do pairs ← lift (read_pairs f); on_pool (store_pairs pairs); on_pool close

-- The cache, and the file that an export writes.
pub record Exchange : Type 0 where
  pub self : Cache
  pub file : File

abbrev pub on_cache : {A : Type 0} → Exec Cache A → Exec Exchange A
on_cache m x = ((m x.self).0, record x { self = (m x.self).1 })

-- The requests are stored one by one: those before an error stay in the file. A file that a failed
-- `db_init` may leave behind is not modelled.
abbrev pub write_out : List Request → Outcome Report Conn → Exec Exchange (Unit {0})
write_out reqs (ok out) x = (
  (store_requests reqs out).0,
  record x { file = record x.file { content = some (store_requests reqs out).1.tables } },
)
write_out reqs (err e) x = (err e, x)
write_out reqs panic x = (panic, x)

unfoldable pub export : Exec Exchange (Unit {0})
unfolding db_init
export x =
    if found x.file
    then (err (record { message = "Cannot export to an existing file" }), x)
    else ((do
      requests ← on_cache (on_pool fetch_unanswered_requests)
      on_cache (on_pool close)
      λ y. write_out requests (db_init true y.file) y)
        x)
