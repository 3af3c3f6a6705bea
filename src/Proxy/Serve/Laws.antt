-- ===== src/Proxy/Serve/Laws.antt =====
-- What `serve_req` does, branch by branch.
use mathlib.Core.Path.{fun_ext}
use frl_online_proxy.Prelude.{String, ◌≡◌, refl, ap, false, arith}
use frl_online_proxy.Outcome.{Outcome, ok, err, panic}
use frl_online_proxy.Exec.{continue}
use frl_online_proxy.Http.{World, Parts, Body, whole, broken, HRequest, Route, Reply}
use frl_online_proxy.Settings.{Settings, store}
use frl_online_proxy.Logging.{debug_body}
use frl_online_proxy.Cops.{Request, BadRequest}
use frl_online_proxy.Cops.Receive.{from_network}
use frl_online_proxy.Cops.Send.{response_to_network}
use frl_online_proxy.Cache.Open.{Cache}
use frl_online_proxy.Cache.Methods.{store_request, store_response, fetch_response}
use frl_online_proxy.Proxy.Call.{bad_request_response, proxy_offline_response}
use frl_online_proxy.Proxy.Serve.{net_response, handle_with, handle, dispatch, serve_req}

module _ (w : World) (conf : Settings) (send : Route → HRequest → Reply)
    (m : conf.proxy.mode ≡ store) where
  net_response-send :
      (req : Request) → net_response (record w { send = send }) conf req ≡ net_response w conf req
  unfolding net_response proxy_offline_response
  net_response-send req = rw m refl

  handle-send :
      (req : Request) (now : String) (self : Cache)
      → handle (record w { send = send }) conf req now self ≡ handle w conf req now self
  unfolding handle response_to_network
  handle-send req now self = ap (λ n. handle_with w conf n req now self) (net_response-send req)

  dispatch-send :
      (o : Outcome BadRequest Request) (now : String) (self : Cache)
      → dispatch (record w { send = send }) conf o now self ≡ dispatch w conf o now self
  unfolding bad_request_response
  dispatch-send (ok req) now self = handle-send req now self
  dispatch-send (err e) now self = refl
  dispatch-send panic now self = refl

-- In store mode the network plays no part: whatever it would reply, the client gets the same answer
-- and the cache ends up the same.
pub serve_req-offline :
    (w : World) (conf : Settings) (send : Route → HRequest → Reply) (parts : Parts) (body : Body)
    (t t' : String) (self : Cache)
    → conf.proxy.mode ≡ store
    → serve_req (record w { send = send }) conf parts body t t' self
      ≡ serve_req w conf parts body t t' self
unfolding serve_req from_network
serve_req-offline w conf send parts (broken e) t t' self m = refl
serve_req-offline w conf send parts (whole b) t t' self m =
    ap (λ d. continue (debug_body conf b) (λ _ s. d s) self)
      (fun_ext λ s. dispatch-send w conf send m (from_network w parts b t) t' s)

-- Without a cache, in passthrough mode, nothing is stored for any request.
pub serve_req-disabled :
    (w : World) (conf : Settings) (parts : Parts) (body : Body) (t t' : String) (self : Cache)
    → self.enabled ≡ false
    → (serve_req w conf parts body t t' self).1 ≡ self
unfolding serve_req handle store_request store_response fetch_response
serve_req-disabled w conf parts body t t' self off = ground arith
