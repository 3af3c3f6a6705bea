-- ===== src/Cache/Methods.antt =====
-- cache.rs: the methods of `Cache` that the proxy calls; they log an error and go on.
pub mod Laws
pub mod Keeping
pub mod Operations
use frl_online_proxy.Prelude.{Bool, true, false, Option, none, some, List, [], if◌then◌else◌}
use frl_online_proxy.Outcome.{Outcome, ok, err, panic, Report}
use frl_online_proxy.Exec.{Exec, pure}
use frl_online_proxy.Settings.{ProxyMode}
use frl_online_proxy.Cops.{Kind, activation, deactivation, Request, Response}
use frl_online_proxy.Cache.Engine.{Db}
use frl_online_proxy.Cache.Open.{Cache, on_pool}
use frl_online_proxy.Cache.Store.{
  store_activation_request, store_deactivation_request, store_activation_response,
  store_deactivation_response,
}
use frl_online_proxy.Cache.Fetch.{
  fetch_activation_response, fetch_deactivation_response, fetch_unanswered_requests,
}

-- `if let Err(err) = … { error!(…) }`, and `match … { Err(err) => { error!(…); default } … }`
abbrev pub logged : {A : Type 0} → A → Outcome Report A × Cache → Outcome Report A × Cache
logged default (ok a, self) = (ok a, self)
logged default (err e, self) = (ok default, self)
logged default (panic, self) = (panic, self)

abbrev pub request_action : Kind → Request → Db (Unit {0})
request_action activation req = store_activation_request req
request_action deactivation req = store_deactivation_request req

unfoldable pub store_request : Request → Exec Cache (Unit {0})
store_request req self =
    if self.enabled then logged tt (on_pool (request_action req.kind req) self) else (ok tt, self)

abbrev pub response_action : Kind → ProxyMode → Request → Response → Db (Unit {0})
response_action activation mode req resp = store_activation_response mode req resp
response_action deactivation mode req resp = store_deactivation_response mode req resp

unfoldable pub store_response : Request → Response → Exec Cache (Unit {0})
store_response req resp self =
    if self.enabled
    then logged tt (on_pool (response_action req.kind self.mode req resp) self)
    else (ok tt, self)

abbrev pub fetch_action : Kind → Request → Db (Option Response)
fetch_action activation req = fetch_activation_response req
fetch_action deactivation req = fetch_deactivation_response req

unfoldable pub fetch_response : Request → Exec Cache (Option Response)
fetch_response req self =
    if self.enabled then logged none (on_pool (fetch_action req.kind req) self) else (ok none, self)

unfoldable pub fetch_forwarding_requests : Exec Cache (List Request)
fetch_forwarding_requests self =
    if self.enabled then logged [] (on_pool fetch_unanswered_requests self) else (ok [], self)
