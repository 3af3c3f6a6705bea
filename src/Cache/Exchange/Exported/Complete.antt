-- ===== src/Cache/Exchange/Exported/Complete.antt =====
-- An export writes what waits for an answer, and nothing else.
use frl_online_proxy.Prelude.{
  ◌≡◌, refl, ap, ◌∙◌, false, none, some, List, [], ◌∷◌, arith, Perm, sort_by,
}
use frl_online_proxy.Outcome.{Outcome, ok, Report}
use frl_online_proxy.Cops.{Request}
use frl_online_proxy.Cache.Tables.{Tables, empty}
use frl_online_proxy.Cache.Engine.{Conn, step, close}
use frl_online_proxy.Cache.Engine.Laws.{Runs, Runs-pure, Runs-then}
use frl_online_proxy.Cache.Fetch.{fetch_unanswered_requests}
use frl_online_proxy.Cache.Fetch.Unanswered.{waiting, fetch_unanswered_requests-same}
use frl_online_proxy.Cache.Invariant.{IsWellFormed}
use frl_online_proxy.Cache.Open.{Cache, File, db_init, on_pool}
use frl_online_proxy.Cache.Methods.Laws.{IsLive, request_action-Writes}
use frl_online_proxy.Cache.Exchange.{store_requests, export}
use frl_online_proxy.Cache.Exchange.Exported.{exported}
use frl_online_proxy.Cache.Exchange.Exported.Written.{written-waiting}

-- The statements of an export do what storing the requests does.
store_requests-Runs : (reqs : List Request) → Runs (exported reqs) (store_requests reqs)
unfolding store_requests
store_requests-Runs [] = Runs-pure
store_requests-Runs (req ∷ reqs) =
    Runs-then (request_action-Writes req.kind req).runs (store_requests-Runs reqs)

-- A file that is not there yet, and whose steps do not fail.
abbrev pub no_file : File
no_file = record { content = none; faults = [] }

module _ {self : Cache} {t : Tables} (l : IsLive self t) where
  fetched :
      on_pool fetch_unanswered_requests self ≡ (ok (sort_by (λ r. r.timestamp) (waiting t)), self)
  fetched =
      let same =
        fetch_unanswered_requests-same l.pool l.healthy
        ∙ ap (λ t. (ok (sort_by (λ r. r.timestamp) (waiting t)), l.pool)) l.holds in
      ground (arith, same, l.is_pool)

  abbrev written : Outcome Report (Unit {0}) × Conn
  written =
      store_requests (sort_by (λ r. r.timestamp) (waiting t))
        (record { tables = empty; closed = false; faults = [] })

  export_run :
      ((export (record { self = self; file = no_file })).0 ≡ written.0)
      × ((export (record { self = self; file = no_file })).1.file.content ≡ some written.1.tables)
  unfolding export db_init step close
  export_run = rw fetched (rw l.is_pool (refl, refl))

-- On a working database with well-formed tables, an export to a file that is not there yet returns,
-- and what waits for an answer in the file is what waited in the cache, each request as often: the
-- export loses none and invents none.
pub export_complete :
    (self : Cache) (t : Tables)
    → IsLive self t
    → IsWellFormed t
    → ((export (record { self = self; file = no_file })).0 ≡ ok tt)
      × ((out : Tables) × ((export (record { self = self; file = no_file })).1.file.content
            ≡ some out)
          × Perm (waiting out) (waiting t))
export_complete self t l w =
    let reqs = sort_by (λ r. r.timestamp) (waiting t) in
    let start : Conn = record { tables = empty; closed = false; faults = [] } in
    let (returned, healthy) =
      (store_requests-Runs reqs).healthy start (record { opened = refl; faultless = refl }) in
    let (ended, content) = export_run l in
    (
      ended ∙ returned,
      (
        exported reqs empty,
        content ∙ ap some ((store_requests-Runs reqs).done start returned),
        written-waiting t w,
      ),
    )
