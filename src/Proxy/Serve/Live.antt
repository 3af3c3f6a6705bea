-- ===== src/Proxy/Serve/Live.antt =====
-- `serve_req` over a cache whose database works: what the client gets, and what stays for later.
use frl_online_proxy.Prelude.{String, ◌≡◌, refl, ap, ◌∙◌, true, false, some, arith, eq_iff}
use frl_online_proxy.Outcome.{Outcome, ok, Report}
use frl_online_proxy.Http.{World, Parts, Bytes, utf8, whole, HResponse, is_success}
use frl_online_proxy.Settings.{Settings, ProxyMode}
use frl_online_proxy.Logging.{debug_body}
use frl_online_proxy.Cops.{Kind, activation, deactivation, Request, Response, response_from_network}
use frl_online_proxy.Cops.Receive.{from_network}
use frl_online_proxy.Cops.Send.{valid_headers, response_headers, response_to_network}
use frl_online_proxy.Cache.Keys.{activation_id}
use frl_online_proxy.Cache.Tables.{Tables}
use frl_online_proxy.Cache.Fetch.{respond}
use frl_online_proxy.Cache.Fetch.Answers.{held, held-answered}
use frl_online_proxy.Cache.Open.{Cache}
use frl_online_proxy.Cache.Methods.{store_request, store_response, fetch_response}
use frl_online_proxy.Cache.Methods.Laws.{
  IsLive, requested, answered, store_request-live, store_response-live, fetch_response-live,
  held-requested,
}
use frl_online_proxy.Proxy.Serve.{net_response, handle, serve_req}

pub debug_body-utf8 :
    (conf : Settings) (text : String) → debug_body {E = Report} conf (utf8 text) ≡ ok tt
unfolding debug_body
debug_body-utf8 conf text = ground arith

-- A response whose headers the crate accepts is sent with status 200.
pub response_to_network-ok :
    (w : World) (x : Response)
    → valid_headers w (response_headers w x) ≡ true
    → response_to_network w {E = Report} x
      ≡ ok (record { status = 200; headers = response_headers w x; body = whole x.body })
unfolding response_to_network
response_to_network-ok w x h = rw h refl

-- COPS answers a request with success and a text.
pub record Succeeds (got : Outcome Report HResponse) (resp : HResponse) (text : String)
    : Type 0 where
  pub got_it : got ≡ ok resp
  pub status : is_success resp.status ≡ true
  pub body : resp.body ≡ whole (utf8 text)

-- The network gives a failure, whose body can be read.
pub record Fails (got : Outcome Report HResponse) (resp : HResponse) (bytes : Bytes) : Type 0 where
  pub got_it : got ≡ ok resp
  pub status : is_success resp.status ≡ false
  pub body : resp.body ≡ whole bytes

module _ (w : World) (conf : Settings) (req : Request) (now : String) (self : Cache) where
  -- The state after the request is stored.
  abbrev noted : Cache
  noted = (store_request req self).1

  -- The run for a success, where no step of the cache panics.
  success_run :
      (resp : HResponse) (text : String)
      → Succeeds (net_response w conf req) resp text
      → (store_request req self).0 ≡ ok tt
      → (store_response req (response_from_network req (utf8 text) now) noted).0 ≡ ok tt
      → handle w conf req now self
        ≡ (ok resp, (store_response req (response_from_network req (utf8 text) now) noted).1)
  unfolding handle
  success_run resp text s a b = ground (arith, debug_body-utf8 conf text)

  -- The run for a failure with a cached response.
  fallback_run :
      (resp : HResponse) (bytes : Bytes) (cached : Response)
      → Fails (net_response w conf req) resp bytes
      → (store_request req self).0 ≡ ok tt
      → (fetch_response req noted).0 ≡ ok (some cached)
      → (handle w conf req now self).0 ≡ response_to_network w cached
  unfolding handle
  fallback_run resp bytes cached f a b = ground arith

module _ (w : World) (conf : Settings) {self : Cache} {t : Tables} (l : IsLive self t) where
  -- A success of COPS goes to the client as it came, and into the tables.
  pub handle-success :
      (req : Request) (now text : String) (resp : HResponse)
      → Succeeds (net_response w conf req) resp text
      → ((handle w conf req now self).0 ≡ ok resp)
        × IsLive
            (handle w conf req now self).1
            (answered req.kind self.mode req text (requested req.kind req t))
  handle-success req now text resp s =
      let (stored, live, mode) = store_request-live l req in
      let new = response_from_network req (utf8 text) now in
      let (kept, live', mode') = store_response-live live req new text refl in
      let run = success_run w conf req now self resp text s stored kept in
      rw run (refl, rw mode at live')

  -- Where COPS fails, an activation for which the tables hold an answer is answered with it.
  pub handle-fallback :
      (req : Request) (now : String) (resp : HResponse) (bytes : Bytes) (cached : Response)
      → req.kind ≡ activation
      → held t req ≡ some cached
      → Fails (net_response w conf req) resp bytes
      → (handle w conf req now self).0 ≡ response_to_network w cached
  handle-fallback req now resp bytes cached kind h f =
      let (stored, live, mode) = store_request-live l req in
      fallback_run w conf req now self resp bytes cached f stored
        (fetch_response-live live req kind ∙ ap ok (held-requested req.kind req req t ∙ h))

pub serve_req-handle :
    (w : World) (conf : Settings) (parts : Parts) (text t t' : String) (self : Cache)
    {req : Request}
    → from_network w parts (utf8 text) t ≡ ok req
    → serve_req w conf parts (whole (utf8 text)) t t' self ≡ handle w conf req t' self
unfolding serve_req
serve_req-handle w conf parts text t t' self e = ground (arith, debug_body-utf8 conf text)

held-served :
    (kind : Kind) (mode : ProxyMode) (r r' : Request) (text : String) (t : Tables)
    → kind ≡ activation
    → activation_id r ≡ activation_id r'
    → held (answered kind mode r text (requested kind r t)) r' ≡ some (respond r' r.timestamp text)
held-served activation mode r r' text t k same =
    held-answered mode r r' text (requested activation r t)
    ∙ rw ((eq_iff (activation_id r) (activation_id r')).1 same)
held-served deactivation mode r r' text t k same = cc

-- An activation that COPS grants is answered from the cache when the next request is one with the same
-- activation key, and COPS fails for that one: the client gets status 200, the text that COPS sent and
-- the new request's id. The cache is enabled and its database works and does not fail in between; the
-- configurations and the networks of the two may differ. The bodies of the two requests and of the
-- grant are UTF-8, and the headers of the response are ones that the HTTP crate accepts.
pub serve_req-cached :
    (w w' : World) (conf conf' : Settings) (parts parts' : Parts) (sent sent' a b a' b' : String)
    (self : Cache) (t : Tables) (r r' : Request) (resp resp' : HResponse) (text : String)
    (bytes : Bytes)
    → IsLive self t
    → from_network w parts (utf8 sent) a ≡ ok r
    → r.kind ≡ activation
    → Succeeds (net_response w conf r) resp text
    → from_network w' parts' (utf8 sent') a' ≡ ok r'
    → r'.kind ≡ activation
    → Fails (net_response w' conf' r') resp' bytes
    → activation_id r ≡ activation_id r'
    → valid_headers w' (response_headers w' (respond r' r.timestamp text)) ≡ true
    → (serve_req w' conf' parts'
        (whole (utf8 sent'))
        a'
        b'
        (serve_req w conf parts (whole (utf8 sent)) a b self).1).0
      ≡ ok (record {
        status = 200;
        headers = response_headers w' (respond r' r.timestamp text);
        body = whole (utf8 text);
      })
serve_req-cached w w' conf conf' parts parts' sent sent' a b a' b' self t r r' resp resp' text bytes
      live read kind s read' kind' f same valid =
    let (given, live') = handle-success w conf live r b text resp s in
    rw (serve_req-handle w conf parts sent a b self read) (
      rw (serve_req-handle w' conf' parts' sent' a' b' (handle w conf r b self).1 read') (
        handle-fallback w' conf' live' r' b' resp' bytes (respond r' r.timestamp text) kind'
          (held-served r.kind self.mode r r' text t kind same) f
        ∙ response_to_network-ok w' (respond r' r.timestamp text) valid))
