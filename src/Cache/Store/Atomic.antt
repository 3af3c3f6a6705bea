-- ===== src/Cache/Store/Atomic.antt =====
-- Each store function changes the tables by its statements together, or not at all.
use frl_online_proxy.Prelude.{String, ◌≡◌, ◌≢◌, refl}
use frl_online_proxy.Http.{utf8}
use frl_online_proxy.Settings.{ProxyMode, cache, store, forward, passthrough}
use frl_online_proxy.Cops.{Request, Response}
use frl_online_proxy.Cache.Keys.{deactivation_id}
use frl_online_proxy.Cache.Tables.{Tables}
use frl_online_proxy.Cache.Engine.Laws.{
  Writes, Runs-pure, Runs-execute, Runs-then, Writes-transaction,
}
use frl_online_proxy.Cache.Store.{
  activation_request_row, deactivation_request_row, activation_response_row,
  deactivation_response_row, insert_activation_request, insert_deactivation_request,
  insert_activation_response, insert_deactivation_response, delete_activation_requests,
  delete_activation_responses, delete_deactivation_requests, delete_deactivation_responses,
  store_activation_request, store_deactivation_request, store_activation_response,
  store_deactivation_response,
}

-- Storing an activation request inserts its row, or changes no table; on a working database it
-- inserts it.
pub store_activation_request-Writes :
    (req : Request)
    → Writes (insert_activation_request (activation_request_row req)) (store_activation_request req)
unfolding store_activation_request
store_activation_request-Writes req = Writes-transaction (Runs-execute _)

-- Storing a deactivation request inserts its row, or changes no table; on a working database it
-- inserts it.
pub store_deactivation_request-Writes :
    (req : Request)
    → Writes
        (insert_deactivation_request (deactivation_request_row req))
        (store_deactivation_request req)
unfolding store_deactivation_request
store_deactivation_request-Writes req = Writes-transaction (Runs-execute _)

-- What remains of the tables when an activation has been answered by a body.
abbrev pub answered_activation : ProxyMode → Request → String → Tables → Tables
answered_activation forward req body t =
    insert_activation_response (activation_response_row req body) t
answered_activation _ req body t = delete_deactivation_responses (deactivation_id req) (
    delete_deactivation_requests (deactivation_id req)
      (insert_activation_response (activation_response_row req body) t))

-- What remains of the tables when a deactivation has been answered by a body.
abbrev pub answered_deactivation : ProxyMode → Request → String → Tables → Tables
answered_deactivation forward req body t =
    insert_deactivation_response (deactivation_response_row req body) t
answered_deactivation _ req body t = delete_deactivation_responses (deactivation_id req) (
    delete_deactivation_requests (deactivation_id req) (
      delete_activation_responses (deactivation_id req)
        (delete_activation_requests (deactivation_id req) t)))

-- Storing the response, in UTF-8, of an activation is all or nothing, whatever step fails: if it
-- returns, the tables hold the response and, outside forward mode, nothing about the deactivation;
-- if it does not return, no table has changed. On a working database it returns.
pub store_activation_response-Writes :
    (mode : ProxyMode) (req : Request) (resp : Response) (body : String)
    → resp.body ≡ utf8 body
    → Writes (answered_activation mode req body) (store_activation_response mode req resp)
unfolding store_activation_response
store_activation_response-Writes forward req resp body e =
    rw e (Writes-transaction (Runs-then (Runs-execute _) Runs-pure))
store_activation_response-Writes _ req resp body e =
    rw e (
      Writes-transaction (Runs-then (Runs-execute _) (Runs-then (Runs-execute _) (Runs-execute _))))

-- Outside forward mode the body plays no part.
pub store_deactivation_response_live-Writes :
    (mode : ProxyMode) (req : Request) (resp : Response) (body : String)
    → mode ≢ forward
    → Writes (answered_deactivation mode req body) (store_deactivation_response mode req resp)
unfolding store_deactivation_response
store_deactivation_response_live-Writes forward req resp body live = absurd (live refl)
store_deactivation_response_live-Writes _ req resp body live = Writes-transaction (
    Runs-then (Runs-execute _)
      (Runs-then (Runs-execute _) (Runs-then (Runs-execute _) (Runs-execute _))))

-- Storing the response, in UTF-8, of a deactivation is all or nothing, whatever step fails: if it
-- returns, the tables hold the response in forward mode, and in the other modes nothing under its
-- deactivation key; if it does not return, no table has changed. On a working database it returns.
pub store_deactivation_response-Writes :
    (mode : ProxyMode) (req : Request) (resp : Response) (body : String)
    → resp.body ≡ utf8 body
    → Writes (answered_deactivation mode req body) (store_deactivation_response mode req resp)
unfolding store_deactivation_response
store_deactivation_response-Writes forward req resp body e =
    rw e (Writes-transaction (Runs-execute _))
store_deactivation_response-Writes cache req resp body e =
    store_deactivation_response_live-Writes cache req resp body (λ p. cc)
store_deactivation_response-Writes store req resp body e =
    store_deactivation_response_live-Writes store req resp body (λ p. cc)
store_deactivation_response-Writes passthrough req resp body e =
    store_deactivation_response_live-Writes passthrough req resp body (λ p. cc)
