-- ===== src/Proxy/Call.antt =====
-- proxy.rs: `call_cops` and the responses that the proxy makes itself.
use Prim.Native.String
use frl_online_proxy.Prelude.{
  ℕ, String, not, any, keep, none, some, List, [], ◌∷◌, ◌++◌, ◌==◌, if◌then◌else◌,
}
use frl_online_proxy.Outcome.{Outcome, ok, err, panic, Report, ◌>>=◌}
use frl_online_proxy.Http.{
  World, Uri, HRequest, HResponse, utf8, whole, Value, number, string, object, end, field, Route,
  plain, secure, upstream, Upstream, Reply, answered, network_error, timed_out,
}
use frl_online_proxy.Settings.{Settings, Network}
use frl_online_proxy.Cops.{Request, BadRequest}
use frl_online_proxy.Cops.Send.{to_network, valid_headers}
use frl_online_proxy.Cache.Store.{unwrap}

abbrev report : String → Report
report why = record { message = why }

-- "https" where the URI says so, else "http"
abbrev pub cops_scheme : Uri → String
cops_scheme uri = elim uri.scheme [
  | none ↦ "http"
  | some s ↦ if s == "https" then "https" else "http"
]

abbrev pub cops_host : Uri → Outcome Report String
cops_host uri = do
  host ← unwrap uri.host
  elim uri.port [ none ↦ ok host | some port ↦ ok (String.◌++◌ host (String.◌++◌ ":" port)) ]

-- The upstream proxy of the configuration.
abbrev pub upstream_of : Network → Upstream
upstream_of net = record {
  url = String.◌++◌ "http://" (String.◌++◌ net.proxy_host (String.◌++◌ ":" net.proxy_port));
  authorization =
      if net.use_basic_auth then some (net.proxy_username, net.proxy_password) else none;
}

-- `HeaderMap::extend`: a new header replaces those of its name.
abbrev pub extend : List (String × String) → List (String × String) → List (String × String)
extend headers new = keep (λ h. not (any (λ n. n.0 == h.0) new)) headers ++ new

module _ (w : World) where
  -- The client that is used, and the request with the headers for it.
  abbrev via_upstream : Upstream → HRequest → Outcome Report (Route × HRequest)
  via_upstream up net_req = elim (w.parse_uri up.url) [
    | none ↦ err (report "Cannot parse upstream proxy URL")
    | some uri ↦ elim (w.connector_error up) [
      | some e ↦ err (report "Failed to create proxy connector")
      | none ↦ ok (
        upstream up,
        record net_req { headers = extend net_req.headers (w.proxy_headers up net_req.uri) },
      )
    ]
  ]

  abbrev choose_route : Settings → String → HRequest → Outcome Report (Route × HRequest)
  choose_route conf scheme net_req =
      if conf.network.use_proxy
      then via_upstream (upstream_of conf.network) net_req
      else if scheme == "https"
      then ok (secure, net_req)
      else ok (plain, net_req)

  -- A timeout is an error like any other.
  abbrev receive : Reply → Outcome Report HResponse
  receive (answered resp) = ok resp
  receive (network_error e) = err (report "Network error")
  receive timed_out = err (report "Timeout - no response received in 59000 milliseconds")

  unfoldable pub call_cops : Settings → Request → Outcome Report HResponse
  call_cops conf req = do
    uri ← unwrap (w.parse_uri conf.proxy.remote_host)
    host ← cops_host uri
    net_req ← to_network w req (cops_scheme uri) host
    sent ← choose_route conf (cops_scheme uri) net_req
    receive (w.send sent.0 sent.1)

  abbrev pub status_headers : List (String × String)
  status_headers = ("content-type", "application/json;charset=UTF-8") ∷ ("server", w.agent) ∷ []

  abbrev pub status_json : String → String → Value
  status_json code message =
      object (field "statusCode" (number code) (field "message" (string message) end))

  -- A response of the proxy's own; the builder's `unwrap` panics on a header that is refused.
  abbrev own_response : ℕ → String → String → Outcome Report HResponse
  own_response status code message =
      if valid_headers w status_headers
      then ok (record {
        status = status;
        headers = status_headers;
        body = whole (utf8 (w.print_json (status_json code message)));
      })
      else panic

  unfoldable pub bad_request_response : BadRequest → Outcome Report HResponse
  bad_request_response e = own_response 400 "400" e.reason

  unfoldable pub cops_failure_response : Report → Outcome Report HResponse
  cops_failure_response e =
      own_response 502 "502" (String.◌++◌ "Failed to get a response from COPS: " e.message)

  unfoldable pub proxy_offline_response : Outcome Report HResponse
  proxy_offline_response =
      own_response 502 "502" "Proxy is operating offline: request stored for later replay"
