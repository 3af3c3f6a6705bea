-- ===== src/Proxy/Serve.antt =====
-- proxy.rs: `serve_req`. The times at which the request arrives and the response is made are arguments.
pub mod Laws
pub mod Bad
pub mod Live
pub mod Revoked
pub mod Keeping
use frl_online_proxy.Prelude.{Bool, true, false, String, Option, none, some, if◌then◌else◌}
use frl_online_proxy.Outcome.{Outcome, ok, err, panic, Report}
use frl_online_proxy.Exec.{Exec, pure, lift, ◌>>=◌, ◌>>◌}
use frl_online_proxy.Http.{World, Parts, Bytes, Body, whole, to_bytes, HResponse, is_success}
use frl_online_proxy.Settings.{Settings, ProxyMode, store}
use frl_online_proxy.Logging.{debug_body}
use frl_online_proxy.Cops.{Request, Response, BadRequest, response_from_network}
use frl_online_proxy.Cops.Receive.{from_network}
use frl_online_proxy.Cops.Send.{response_to_network}
use frl_online_proxy.Cache.Open.{Cache}
use frl_online_proxy.Cache.Methods.{store_request, store_response, fetch_response}
use frl_online_proxy.Proxy.Call.{
  call_cops, bad_request_response, cops_failure_response, proxy_offline_response,
}

abbrev pub is_store : ProxyMode → Bool
is_store store = true
is_store _ = false

module _ (w : World) (conf : Settings) where
  -- `match call_cops(…).await { Ok(resp) => resp, Err(err) => cops_failure_response(err) }`
  abbrev pub or_failure : Outcome Report HResponse → Outcome Report HResponse
  or_failure (ok resp) = ok resp
  or_failure (err e) = cops_failure_response w e
  or_failure panic = panic

  -- Store mode does not contact COPS.
  unfoldable pub net_response : Request → Outcome Report HResponse
  net_response req =
      if is_store conf.proxy.mode
      then proxy_offline_response w
      else or_failure (call_cops w conf req)

  unfoldable pub succeeded : Request → String → HResponse → Bytes → Exec Cache HResponse
  succeeded req now net_resp body = do
    lift (debug_body conf body)
    store_response req (response_from_network req body now)
    pure (record net_resp { body = whole body })

  -- A cached response where there is one, else the failure itself.
  unfoldable pub failed : HResponse → Bytes → Option Response → Exec Cache HResponse
  failed net_resp body (some resp) = lift (response_to_network w resp)
  failed net_resp body none = do
    lift (debug_body conf body)
    pure (record net_resp { body = whole body })

  unfoldable pub finish : Request → String → HResponse → Exec Cache HResponse
  finish req now net_resp = do
    body ← lift (to_bytes net_resp.body)
    if is_success net_resp.status
        then succeeded req now net_resp body
        else (do found ← fetch_response req; failed net_resp body found)

  -- The rest of the handling, once the network has given its outcome.
  unfoldable pub resume : Outcome Report HResponse → Request → String → Exec Cache HResponse
  unfolding finish succeeded failed
  resume got req now = do net_resp ← lift got; finish req now net_resp

  -- The handling of a request that was understood, given what the network gave for it.
  unfoldable pub handle_with : Outcome Report HResponse → Request → String → Exec Cache HResponse
  unfolding resume
  handle_with got req now = do store_request req; resume got req now

  unfoldable pub handle : Request → String → Exec Cache HResponse
  unfolding handle_with
  handle req now = handle_with (net_response req) req now

  abbrev pub dispatch : Outcome BadRequest Request → String → Exec Cache HResponse
  dispatch (err e) now = lift (bad_request_response w e)
  dispatch (ok req) now = handle req now
  dispatch panic now = λ self. (panic, self)

  unfoldable pub serve_req : Parts → Body → String → String → Exec Cache HResponse
  serve_req parts body received_at answered_at = do
    bytes ← lift (to_bytes body)
    lift (debug_body conf bytes)
    dispatch (from_network w parts bytes received_at) answered_at
