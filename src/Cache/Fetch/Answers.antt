-- ===== src/Cache/Fetch/Answers.antt =====
-- What the cache answers: `fetch_activation_response` after the store functions.
use frl_online_proxy.Prelude.{String, ◌≡◌, ap, ◌∙◌, Option, none, some, arith, if◌then◌else◌, ◌==◌}
use frl_online_proxy.Outcome.{ok, panic}
use frl_online_proxy.Http.{utf8}
use frl_online_proxy.Settings.{ProxyMode, forward}
use frl_online_proxy.Cops.{Request, Response}
use frl_online_proxy.Cache.Keys.{activation_id}
use frl_online_proxy.Cache.Tables.{Tables, select_where}
use frl_online_proxy.Cache.Tables.Laws.{select-insert}
use frl_online_proxy.Cache.Engine.{Conn, IsHealthy, step, query}
use frl_online_proxy.Cache.Store.{activation_response_row, store_activation_response}
use frl_online_proxy.Cache.Store.Atomic.{answered_activation, store_activation_response-Writes}
use frl_online_proxy.Cache.Fetch.{respond, fetch_activation_response, fetch_deactivation_response}

-- The response that the tables hold for a request.
abbrev pub held : Tables → Request → Option Response
held t req =
    elim (select_where (λ r. r.activation_key) (activation_id req) t.activation_responses) [
      | none ↦ none
      | some r ↦ some (respond req r.timestamp r.body)
    ]

-- On a healthy connection `fetch_activation_response` returns the response that the tables hold.
pub fetch_activation_response_lem :
    (req : Request) (c : Conn)
    → IsHealthy c
    → (fetch_activation_response req c).0 ≡ ok (held c.tables req)
unfolding fetch_activation_response query step
fetch_activation_response_lem req c h = ground arith

pub held-answered :
    (mode : ProxyMode) (req r : Request) (body : String) (t : Tables)
    → held (answered_activation mode req body t) r ≡ (
        if activation_id req == activation_id r
        then some (respond r req.timestamp body)
        else held t r)
held-answered forward req r body t = ground (
  arith,
  select-insert (λ x. x.activation_key) (activation_id r) (activation_response_row req body)
      t.activation_responses,
)
held-answered _ req r body t = ground (
  arith,
  select-insert (λ x. x.activation_key) (activation_id r) (activation_response_row req body)
      t.activation_responses,
)

-- After an activation response has been stored, in any mode, a fetch for a request with the same
-- activation key returns its body under the fetching request's id, with the time of the request
-- that was answered; a fetch for a request with another key returns what was held before.
pub fetch-store_activation_response :
    (mode : ProxyMode) (req r : Request) (resp : Response) (body : String) (c : Conn)
    → resp.body ≡ utf8 body
    → (store_activation_response mode req resp c).0 ≡ ok tt
    → IsHealthy (store_activation_response mode req resp c).1
    → (fetch_activation_response r (store_activation_response mode req resp c).1).0
      ≡ ok (
          if activation_id req == activation_id r
          then some (respond r req.timestamp body)
          else held c.tables r)
fetch-store_activation_response mode req r resp body c text stored h =
    let w = store_activation_response-Writes mode req resp body text in
    fetch_activation_response_lem r _ h
    ∙ ap (λ t. ok (held t r)) (w.runs.done c stored)
    ∙ ap ok (held-answered mode req r body c.tables)

-- The fetch functions write nothing, however they end.
pub fetch_activation_response-tables :
    (req : Request) (c : Conn) → (fetch_activation_response req c).1.tables ≡ c.tables
unfolding fetch_activation_response query step
fetch_activation_response-tables req c = ground arith

pub fetch_deactivation_response-tables :
    (req : Request) (c : Conn) → (fetch_deactivation_response req c).1.tables ≡ c.tables
unfolding fetch_deactivation_response query step
fetch_deactivation_response-tables req c = ground arith

-- On a healthy connection it panics exactly if there is an activation response under the key.
pub fetch_deactivation_response-panic_iff :
    (req : Request) (c : Conn)
    → IsHealthy c
    → (fetch_deactivation_response req c).0
      ≡ (elim (select_where
          (λ r. r.activation_key)
          (activation_id req)
          c.tables.activation_responses) [ none ↦ ok none | some r ↦ panic ])
unfolding fetch_deactivation_response query step
fetch_deactivation_response-panic_iff req c h = ground arith
