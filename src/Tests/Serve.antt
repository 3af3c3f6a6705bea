-- ===== src/Tests/Serve.antt =====
-- The theorems on the proxy, on the sample network.
use mathlib.Core.Path.{subst}
use frl_online_proxy.Prelude.{◌≤◌, arith, String, ◌≡◌, refl, arith, [], ◌∷◌}
use frl_online_proxy.Outcome.{Outcome, ok}
use frl_online_proxy.Exec.{Keeps}
use frl_online_proxy.Http.{Bytes, utf8, whole, HResponse, timed_out, other}
use frl_online_proxy.Logging.{log_level, debug_body}
use frl_online_proxy.Settings.{cache, store, passthrough, forward}
use frl_online_proxy.Cops.{Request, BadRequest}
use frl_online_proxy.Cops.Receive.{
  from_network, from_activation, from_deactivation, update_from_headers, read_activation,
  read_deactivation, str_field, bool_field, object_field, param,
}
use frl_online_proxy.Cops.Send.{
  by_kind, activation_json, to_network, to_activation, to_deactivation, deactivation_uri,
  response_headers,
}
use frl_online_proxy.Cache.Keys.{activation_id, deactivation_id, IsPlain}
use frl_online_proxy.Cache.Tables.{empty}
use frl_online_proxy.Cache.Invariant.{empty-IsWellFormed}
use frl_online_proxy.Cache.Open.{disabled}
use frl_online_proxy.Cache.Methods.Keeping.{HasWellFormed}
use frl_online_proxy.Cache.Methods.Laws.{IsLive}
use frl_online_proxy.Cache.Fetch.{respond}
use frl_online_proxy.Cache.Methods.{store_response}
use frl_online_proxy.Cache.Store.{store_activation_response, store_deactivation_response}
use frl_online_proxy.Cache.Engine.{transaction, execute, step}
use frl_online_proxy.Proxy.Call.{call_cops}
use frl_online_proxy.Proxy.Serve.{net_response, serve_req}
use frl_online_proxy.Proxy.Serve.Live.{Succeeds, Fails, serve_req-cached}
use frl_online_proxy.Proxy.Serve.Revoked.{serve_req-revoked}
use frl_online_proxy.Proxy.Serve.Keeping.{serve_req-Keeps}
use frl_online_proxy.Proxy.Serve.Bad.{not_post, serve_req-IsBad}
use frl_online_proxy.Proxy.Serve.Laws.{serve_req-offline, serve_req-disabled}
use frl_online_proxy.Proxy.Forward.{forward_all}
use frl_online_proxy.Proxy.Forward.Laws.{responses, forward_all-responses}
use frl_online_proxy.Tests.Samples.{
  activate, revoke, granted, refused, world, activate_parts, revoke_parts, conf_in, fresh, open_in,
}

pub live : IsLive (open_in cache) empty
live = record {
  on = refl;
  pool = fresh;
  is_pool = refl;
  healthy = record { opened = refl; faultless = refl };
  holds = refl;
}

abbrev pub sent_at : String → Request → Request
sent_at time r = record r { timestamp = time }

pub read_activate :
    (w : HResponse) (body : Bytes) (now : String)
    → from_network (world w) activate_parts body now ≡ ok (sent_at now activate)
unfolding from_network from_activation update_from_headers read_activation str_field bool_field
    object_field activation_json
read_activate w body now = refl

read_revoke :
    (w : HResponse) (body : Bytes) (now : String)
    → from_network (world w) revoke_parts body now ≡ ok (sent_at now revoke)
unfolding from_network from_deactivation update_from_headers read_deactivation param
read_revoke w body now = refl

pub grants :
    (now : String)
    → Succeeds
        (net_response (world granted) (conf_in cache) (sent_at now activate))
        granted
        "license"
unfolding net_response call_cops to_network by_kind to_activation
grants now = record { got_it = refl; status = refl; body = refl }

pub refuses :
    (now : String)
    → Fails
        (net_response (world refused) (conf_in cache) (sent_at now activate))
        refused
        (utf8 "down")
unfolding net_response call_cops to_network by_kind to_activation
refuses now = record { got_it = refl; status = refl; body = refl }

releases :
    (now : String)
    → Succeeds (net_response (world granted) (conf_in cache) (sent_at now revoke)) granted "license"
unfolding net_response call_cops to_network by_kind to_deactivation deactivation_uri
releases now = record { got_it = refl; status = refl; body = refl }

activate-IsPlain : (now : String) → IsPlain (sent_at now activate)
activate-IsPlain now = record {
  app_id = (λ p. omega arith, tt);
  ngl_version = (λ p. omega arith, tt);
}

serve_req-cached_example :
    (serve_req
      (world refused)
      (conf_in cache)
      activate_parts
      (whole (utf8 "{}"))
      "2021-03-01T00:00:30.000+0000"
      "2021-03-01T00:00:31.000+0000"
      (serve_req
        (world granted)
        (conf_in cache)
        activate_parts
        (whole (utf8 "{}"))
        "2021-03-01T00:00:10.000+0000"
        "2021-03-01T00:00:11.000+0000"
        (open_in cache)).1).0
    ≡ ok (record {
      status = 200;
      headers = response_headers (world refused) (
          respond
            (sent_at "2021-03-01T00:00:30.000+0000" activate)
            "2021-03-01T00:00:10.000+0000"
            "license");
      body = whole (utf8 "license");
    })
unfolding activation_id deactivation_id
serve_req-cached_example =
    serve_req-cached (world granted) (world refused) (conf_in cache) (conf_in cache) activate_parts
      activate_parts "{}" "{}" "2021-03-01T00:00:10.000+0000" "2021-03-01T00:00:11.000+0000"
      "2021-03-01T00:00:30.000+0000" "2021-03-01T00:00:31.000+0000" (open_in cache) empty
      (sent_at "2021-03-01T00:00:10.000+0000" activate)
      (sent_at "2021-03-01T00:00:30.000+0000" activate) granted refused "license" (utf8 "down") live
      (read_activate granted _ _) refl (grants _) (read_activate refused _ _) refl (refuses _) refl
      refl

serve_req-revoked_example :
    (serve_req
      (world refused)
      (conf_in cache)
      activate_parts
      (whole (utf8 "{}"))
      "2021-03-01T00:00:30.000+0000"
      "2021-03-01T00:00:31.000+0000"
      (serve_req
        (world granted)
        (conf_in cache)
        revoke_parts
        (whole (utf8 ""))
        "2021-03-01T00:00:20.000+0000"
        "2021-03-01T00:00:21.000+0000"
        (open_in cache)).1).0
    ≡ ok refused
unfolding deactivation_id
serve_req-revoked_example =
    serve_req-revoked (world granted) (world refused) (conf_in cache) (conf_in cache) revoke_parts
      activate_parts "" "{}" "2021-03-01T00:00:20.000+0000" "2021-03-01T00:00:21.000+0000"
      "2021-03-01T00:00:30.000+0000" "2021-03-01T00:00:31.000+0000" (open_in cache) empty
      (sent_at "2021-03-01T00:00:20.000+0000" revoke)
      (sent_at "2021-03-01T00:00:30.000+0000" activate) granted refused "license" "down" live
      (λ p. cc) empty-IsWellFormed (read_revoke granted _ _) refl (releases _)
      (read_activate refused _ _) refl (activate-IsPlain _) (refuses _) refl

same_result : {a b : Request} (o : Outcome BadRequest Request) → o ≡ ok a → o ≡ ok b → a ≡ b
same_result o h k = cc

pub reads-IsPlain :
    (now : String) (bytes : Bytes) (req : Request)
    → from_network (world granted) activate_parts bytes now ≡ ok req
    → IsPlain req
reads-IsPlain now bytes req h =
    subst IsPlain (same_result _ (read_activate granted bytes now) h) (activate-IsPlain now)

serve_req-Keeps_example : Keeps HasWellFormed (
    serve_req
      (world granted)
      (conf_in cache)
      activate_parts
      (whole (utf8 "{}"))
      "2021-03-01T00:00:10.000+0000"
      "2021-03-01T00:00:11.000+0000")
serve_req-Keeps_example =
    serve_req-Keeps (world granted) (conf_in cache) activate_parts (whole (utf8 "{}"))
      "2021-03-01T00:00:10.000+0000" "2021-03-01T00:00:11.000+0000"
      (reads-IsPlain "2021-03-01T00:00:10.000+0000")

serve_req-offline_example :
    serve_req
      (record (world granted) { send = λ _ _. timed_out })
      (conf_in store)
      activate_parts
      (whole (utf8 "{}"))
      "2021-03-01T00:00:10.000+0000"
      "2021-03-01T00:00:11.000+0000"
      (open_in store)
    ≡ serve_req
        (world granted)
        (conf_in store)
        activate_parts
        (whole (utf8 "{}"))
        "2021-03-01T00:00:10.000+0000"
        "2021-03-01T00:00:11.000+0000"
        (open_in store)
serve_req-offline_example =
    serve_req-offline (world granted) (conf_in store) (λ _ _. timed_out) activate_parts
      (whole (utf8 "{}")) "2021-03-01T00:00:10.000+0000" "2021-03-01T00:00:11.000+0000"
      (open_in store) refl

serve_req-IsBad_example :
    (out : HResponse) × (serve_req
        (world granted)
        (conf_in cache)
        (record activate_parts { method = other "GET" })
        (whole (utf8 "{}"))
        "2021-03-01T00:00:10.000+0000"
        "2021-03-01T00:00:11.000+0000"
        (open_in cache)
      ≡ (ok out, open_in cache))
    × (out.status ≡ 400)
serve_req-IsBad_example =
    serve_req-IsBad (world granted) (conf_in cache) (record activate_parts { method = other "GET" })
      "{}" "2021-03-01T00:00:10.000+0000" "2021-03-01T00:00:11.000+0000" (open_in cache)
      (not_post refl refl) refl

serve_req-disabled_example :
    (serve_req
      (world granted)
      (conf_in passthrough)
      activate_parts
      (whole (utf8 "{}"))
      "2021-03-01T00:00:10.000+0000"
      "2021-03-01T00:00:11.000+0000"
      disabled).1
    ≡ disabled
serve_req-disabled_example =
    serve_req-disabled (world granted) (conf_in passthrough) activate_parts (whole (utf8 "{}"))
      "2021-03-01T00:00:10.000+0000" "2021-03-01T00:00:11.000+0000" disabled refl

-- A run over two requests that are both answered.
forward_all-two :
    (forward_all
      (world granted)
      (conf_in forward)
      "2021-03-01T00:00:50.000+0000"
      (activate ∷ revoke ∷ [])
      (record { successes = 0; failures = 0 })
      (open_in forward)).0
    ≡ ok (record { successes = 2; failures = 0 })
unfolding forward_all call_cops to_network by_kind to_activation to_deactivation deactivation_uri
    store_response store_activation_response store_deactivation_response transaction execute step
    debug_body log_level
forward_all-two = refl

forward_all-responses_example :
    (2 ≡ responses (world granted) (conf_in forward) (activate ∷ revoke ∷ [])) × (2 ≤ 2)
forward_all-responses_example =
    forward_all-responses (world granted) (conf_in forward) "2021-03-01T00:00:50.000+0000"
      (activate ∷ revoke ∷ []) (open_in forward) (record { successes = 2; failures = 0 })
      (omega arith) forward_all-two
