-- ===== src/Proxy/Serve/Revoked.antt =====
-- After a deactivation has been served, the cache answers no activation of that device.
use frl_online_proxy.Prelude.{String, ◌≡◌, ◌≢◌, ap, ◌∙◌, none, arith}
use frl_online_proxy.Outcome.{ok}
use frl_online_proxy.Http.{World, Parts, utf8, whole, HResponse}
use frl_online_proxy.Settings.{Settings, ProxyMode, forward}
use frl_online_proxy.Cops.{Kind, activation, deactivation, Request}
use frl_online_proxy.Cops.Receive.{from_network}
use frl_online_proxy.Cache.Keys.{deactivation_id, IsPlain}
use frl_online_proxy.Cache.Tables.{Tables}
use frl_online_proxy.Cache.Fetch.Answers.{held}
use frl_online_proxy.Cache.Invariant.{IsWellFormed}
use frl_online_proxy.Cache.Invariant.Effects.{deactivation_request-IsWellFormed}
use frl_online_proxy.Cache.Invariant.Revocation.{held-revoked}
use frl_online_proxy.Cache.Open.{Cache}
use frl_online_proxy.Cache.Methods.{store_request, fetch_response}
use frl_online_proxy.Cache.Methods.Laws.{
  IsLive, requested, answered, store_request-live, fetch_response-live, held-requested,
}
use frl_online_proxy.Proxy.Serve.{net_response, handle, serve_req}
use frl_online_proxy.Proxy.Serve.Live.{
  Succeeds, Fails, debug_body-utf8, handle-success, serve_req-handle,
}

-- The run for a failure with nothing cached: the failure goes to the client as it came.
failure_run :
    (w : World) (conf : Settings) (req : Request) (now text : String) (self : Cache)
    (resp : HResponse)
    → Fails (net_response w conf req) resp (utf8 text)
    → (store_request req self).0 ≡ ok tt
    → (fetch_response req (store_request req self).1).0 ≡ ok none
    → (handle w conf req now self).0 ≡ ok resp
unfolding handle
failure_run w conf req now text self resp f a b = ground (arith, debug_body-utf8 conf text)

held-revoking :
    (kind : Kind) (mode : ProxyMode) (r r' : Request) (text : String) (t : Tables)
    → kind ≡ deactivation
    → mode ≢ forward
    → IsWellFormed t
    → IsPlain r'
    → deactivation_id r ≡ deactivation_id r'
    → held (answered kind mode r text (requested kind r t)) r' ≡ none
held-revoking activation mode r r' text t k live w p same = cc
held-revoking deactivation mode r r' text t k live w p same =
    held-revoked mode r r' text _ live (deactivation_request-IsWellFormed r t w) p same

-- When COPS accepts a deactivation, and the next request is an activation of the same package and
-- device for which COPS fails, that is not answered from the cache: the client gets the failure as it
-- came, where its body is UTF-8. The cache is enabled, in a mode other than forward, and its database
-- works and does not fail in between. The tables were well formed, the activation's application id and
-- library version have no `|`, and the bodies of the two requests and of the grant are UTF-8.
pub serve_req-revoked :
    (w w' : World) (conf conf' : Settings) (parts parts' : Parts) (sent sent' a b a' b' : String)
    (self : Cache) (t : Tables) (r r' : Request) (resp resp' : HResponse) (text text' : String)
    → IsLive self t
    → self.mode ≢ forward
    → IsWellFormed t
    → from_network w parts (utf8 sent) a ≡ ok r
    → r.kind ≡ deactivation
    → Succeeds (net_response w conf r) resp text
    → from_network w' parts' (utf8 sent') a' ≡ ok r'
    → r'.kind ≡ activation
    → IsPlain r'
    → Fails (net_response w' conf' r') resp' (utf8 text')
    → deactivation_id r ≡ deactivation_id r'
    → (serve_req w' conf' parts'
        (whole (utf8 sent'))
        a'
        b'
        (serve_req w conf parts (whole (utf8 sent)) a b self).1).0
      ≡ ok resp'
serve_req-revoked w w' conf conf' parts parts' sent sent' a b a' b' self t r r' resp resp' text
      text' live mode wf read kind s read' kind' plain f same =
    let (given, live') = handle-success w conf live r b text resp s in
    let after = (handle w conf r b self).1 in
    let (stored, live'', mode'') = store_request-live live' r' in
    rw (serve_req-handle w conf parts sent a b self read) (
      rw (serve_req-handle w' conf' parts' sent' a' b' after read') (
        failure_run w' conf' r' b' text' after resp' f stored (
          fetch_response-live live'' r' kind'
          ∙ ap ok (
              held-requested r'.kind r' r' _
              ∙ held-revoking r.kind self.mode r r' text t kind mode wf plain same))))
