-- ===== src/Proxy/Serve/Bad.antt =====
-- What the proxy answers to a request that is none of COPS's, by what the client sent.
use frl_online_proxy.Prelude.{
  ◌≡◌, ◌≢◌, refl, ◌∙◌, String, Bool, Option, none, some, true, false, List, [], ◌∷◌, ◌==◌, eq_iff,
  All, if◌then◌else◌, arith,
}
use frl_online_proxy.Outcome.{Outcome, ok, err, panic, ◌>>=◌}
use frl_online_proxy.Http.{World, Parts, Bytes, utf8, whole, HResponse, is_post, is_delete}
use frl_online_proxy.Settings.{Settings}
use frl_online_proxy.Cops.{
  Kind, activation, deactivation, Request, BadRequest, activation_endpoint, deactivation_endpoint,
}
use frl_online_proxy.Cops.Receive.{
  take_header, take_headers, start, update_from_headers, from_activation, from_deactivation,
  from_network,
}
use frl_online_proxy.Cops.Send.{valid_headers}
use frl_online_proxy.Cache.Open.{Cache}
use frl_online_proxy.Proxy.Call.{status_headers, status_json, bad_request_response}
use frl_online_proxy.Proxy.Serve.{serve_req}
use frl_online_proxy.Proxy.Serve.Live.{debug_body-utf8}

-- An unknown path, a method that is not the endpoint's, or no header with an API key.
pub data IsBad (parts : Parts) : Type 0 where
  unknown :
      parts.uri.path ≢ activation_endpoint → parts.uri.path ≢ deactivation_endpoint → IsBad parts
  not_post : parts.uri.path ≡ activation_endpoint → is_post parts.method ≡ false → IsBad parts
  not_delete : parts.uri.path ≡ deactivation_endpoint → is_delete parts.method ≡ false → IsBad parts
  no_api_key : All (λ h. h.0 ≢ "x-api-key") parts.headers → IsBad parts

take_header-api_key :
    (req : Request) (k : String) (v : Option String)
    → k ≢ "x-api-key"
    → (take_header req (k, v)).api_key ≡ req.api_key
take_header-api_key req k none h = refl
take_header-api_key req k (some v) h = ground (arith, eq_iff k "x-api-key")

take_headers-api_key :
    (req : Request) (hs : List (String × Option String))
    → All (λ h. h.0 ≢ "x-api-key") hs
    → (take_headers req hs).api_key ≡ req.api_key
take_headers-api_key req [] h = refl
take_headers-api_key req ((k, v) ∷ hs) (n, h) =
    take_headers-api_key (take_header req (k, v)) hs h ∙ take_header-api_key req k v n

abbrev is_err : Outcome BadRequest Request → Bool
is_err (ok req) = false
is_err (err e) = true
is_err panic = false

is_err-eq : (o : Outcome BadRequest Request) → is_err o ≡ true → (e : BadRequest) × (o ≡ err e)
is_err-eq (ok req) h = cc
is_err-eq (err e) h = (e, refl)
is_err-eq panic h = cc

update_from_headers-bad :
    (parts : Parts) (kind : Kind) (now : String)
    → All (λ h. h.0 ≢ "x-api-key") parts.headers
    → is_err (update_from_headers parts (start kind now)) ≡ true
unfolding update_from_headers
update_from_headers-bad parts activation now h =
    rw (take_headers-api_key (start activation now) parts.headers h) refl
update_from_headers-bad parts deactivation now h =
    rw (take_headers-api_key (start deactivation now) parts.headers h) refl

bind-bad :
    (o : Outcome BadRequest Request) (f : Request → Outcome BadRequest Request)
    → is_err o ≡ true
    → is_err (o >>= f) ≡ true
bind-bad (ok req) f h = cc
bind-bad (err e) f h = refl
bind-bad panic f h = cc

if-bad :
    (b : Bool) (x y : Outcome BadRequest Request)
    → is_err x ≡ true
    → is_err y ≡ true
    → is_err (if b then x else y) ≡ true
if-bad true x y p q = p
if-bad false x y p q = q

module _ (w : World) (parts : Parts) (bytes : Bytes) (now : String)
    (no_key : All (λ h. h.0 ≢ "x-api-key") parts.headers) where
  from_activation-bad : is_err (from_activation w parts bytes now) ≡ true
  unfolding from_activation
  from_activation-bad =
      bind-bad (update_from_headers parts (start activation now)) _
        (update_from_headers-bad parts activation now no_key)

  from_deactivation-bad : is_err (from_deactivation w parts now) ≡ true
  unfolding from_deactivation
  from_deactivation-bad =
      bind-bad (update_from_headers parts (start deactivation now)) _
        (update_from_headers-bad parts deactivation now no_key)

apart : (path : String) → path ≡ deactivation_endpoint → (path == activation_endpoint) ≡ false
apart path d = rw d refl

from_network-bad :
    (w : World) (parts : Parts) (bytes : Bytes) (now : String)
    → IsBad parts
    → is_err (from_network w parts bytes now) ≡ true
unfolding from_network
from_network-bad w parts bytes now (unknown a d) =
    ground (
      arith,
      eq_iff parts.uri.path activation_endpoint,
      eq_iff parts.uri.path deactivation_endpoint,
    )
from_network-bad w parts bytes now (not_post a m) =
    ground (arith, eq_iff parts.uri.path activation_endpoint)
from_network-bad w parts bytes now (not_delete d m) =
    ground (arith, apart parts.uri.path d, eq_iff parts.uri.path deactivation_endpoint)
from_network-bad w parts bytes now (no_api_key h) =
    if-bad (parts.uri.path == activation_endpoint) _ _
      (if-bad (is_post parts.method) _ _ (from_activation-bad w parts bytes now h) refl)
      (if-bad (parts.uri.path == deactivation_endpoint) _ _
        (if-bad (is_delete parts.method) _ _ (from_deactivation-bad w parts bytes now h) refl) refl)

rejected :
    (w : World) (e : BadRequest)
    → valid_headers w (status_headers w) ≡ true
    → (out : HResponse) × (bad_request_response w e ≡ ok out) × (out.status ≡ 400)
unfolding bad_request_response
rejected w e valid = (
  record {
    status = 400;
    headers = status_headers w;
    body = whole (utf8 (w.print_json (status_json w "400" e.reason)));
  },
  ground arith,
  refl,
)

-- A request for an unknown path, one whose method is not its endpoint's, and one without an API key
-- are answered with status 400, whatever their text, the mode and the network, and leave the cache as
-- it is. The crate accepts the two headers of the proxy's own responses, and the body is UTF-8.
pub serve_req-IsBad :
    (w : World) (conf : Settings) (parts : Parts) (text t t' : String) (self : Cache)
    → IsBad parts
    → valid_headers w (status_headers w) ≡ true
    → (out : HResponse) × (serve_req w conf parts (whole (utf8 text)) t t' self ≡ (ok out, self))
      × (out.status ≡ 400)
unfolding serve_req
serve_req-IsBad w conf parts text t t' self b valid =
    let (e, bad) = is_err-eq _ (from_network-bad w parts (utf8 text) t b) in
    let (out, given, status) = rejected w e valid in
    (out, ground (arith, debug_body-utf8 conf text), status)
