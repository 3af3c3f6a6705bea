-- ===== src/Tests/Cops.antt =====
-- The theorems on COPS requests, at concrete inputs.
use frl_online_proxy.Prelude.{◌≡◌, ◌≢◌, ◌↔◌, refl, arith, some, map}
use frl_online_proxy.Outcome.{ok, panic}
use frl_online_proxy.Http.{World, Parts, HRequest, string, utf8, object, field, end}
use frl_online_proxy.Cops.{Request}
use frl_online_proxy.Cops.Receive.{
  body_map, from_network, from_activation, update_from_headers, read_activation, str_field,
  bool_field, object_field,
}
use frl_online_proxy.Cops.Receive.Laws.{IsAccepted, from_network-IsAccepted}
use frl_online_proxy.Cops.Receive.Faults.{HasKeys, from_activation-HasKeys}
use frl_online_proxy.Cops.Receive.RoundTrip.Deactivation.{
  delivered, parameters, from_network-to_deactivation,
}
use frl_online_proxy.Cops.Receive.RoundTrip.{from_network-to_network}
use frl_online_proxy.Cops.Send.{
  to_deactivation, deactivation_request, deactivation_target, activation_json, activation_request,
  to_network, to_activation, by_kind,
}
use frl_online_proxy.Cache.Keys.{deactivation_id, deactivation_id-eq_iff, device_factor}
use frl_online_proxy.Tests.Samples.{activate, revoke, granted, world, activate_parts, revoke_parts}

abbrev sent : HRequest
sent = activation_request (world granted) activate "https" "lcs"

abbrev arrived : Parts
arrived = record {
  method = sent.method;
  uri = activate_parts.uri;
  headers = map (λ h. (h.0, some h.1)) sent.headers;
}

from_network-to_network_example :
    from_network (world granted) arrived sent.body "2021-03-01T00:00:50.000+0000"
    ≡ ok (record activate { timestamp = "2021-03-01T00:00:50.000+0000" })
unfolding to_network by_kind to_activation
from_network-to_network_example =
    from_network-to_network (world granted) activate "https" "lcs" "2021-03-01T00:00:50.000+0000"
      sent arrived refl
      (record { of_kind = refl; api_key = refl; request_id = refl; session_id = λ _. refl }) refl
      (record { method = refl; path_of = refl; headers = refl })

-- A network whose query strings hold the deactivation's values.
abbrev plain_urls : World
plain_urls = record (world granted) { query_pairs = λ url. some (parameters revoke) }

abbrev leaving : HRequest
leaving = deactivation_request plain_urls revoke "https" "lcs"

abbrev left : Parts
left = record {
  method = leaving.method;
  uri = record revoke_parts.uri { text = deactivation_target revoke };
  headers = map (λ h. (h.0, some h.1)) leaving.headers;
}

from_network-to_deactivation_example :
    (from_network plain_urls left leaving.body "2021-03-01T00:00:50.000+0000"
      ≡ ok (delivered revoke "2021-03-01T00:00:50.000+0000"))
    × (deactivation_id (delivered revoke "2021-03-01T00:00:50.000+0000") ≡ deactivation_id revoke)
unfolding to_network by_kind to_deactivation
from_network-to_deactivation_example =
    from_network-to_deactivation plain_urls revoke "https" "lcs" "2021-03-01T00:00:50.000+0000"
      leaving left refl
      (record { of_kind = refl; api_key = refl; request_id = refl; session_id = λ p. cc }) refl
      (record { method = refl; path_of = refl; headers = refl }) refl

read :
    from_network (world granted) activate_parts (utf8 "{}") "2021-03-01T00:00:10.000+0000"
    ≡ ok activate
unfolding from_network from_activation update_from_headers read_activation str_field bool_field
    object_field activation_json
read = refl

from_network-IsAccepted_example : IsAccepted activate_parts "2021-03-01T00:00:10.000+0000" activate
from_network-IsAccepted_example =
    from_network-IsAccepted (world granted) activate_parts (utf8 "{}")
      "2021-03-01T00:00:10.000+0000" activate read

-- A body without `npdId`.
abbrev strange : World
strange = record (world granted) { parse_json = λ _. some (object (field "id" (string "p") end)) }

from_activation-HasKeys_example :
    (HasKeys (body_map (world granted) (utf8 "{}"))
      → from_activation (world granted) activate_parts (utf8 "{}") "2021-03-01T00:00:10.000+0000"
        ≢ panic)
    × ((r : Request)
        → from_activation (world granted) activate_parts (utf8 "{}") "2021-03-01T00:00:10.000+0000"
          ≡ ok r
        → HasKeys (body_map (world granted) (utf8 "{}")))
from_activation-HasKeys_example =
    from_activation-HasKeys (world granted) activate_parts (utf8 "{}")
      "2021-03-01T00:00:10.000+0000"

-- Where a key is missing the outcome can be a panic.
strange_panics :
    from_activation strange activate_parts (utf8 "{\"id\":\"p\"}") "2021-03-01T00:00:10.000+0000"
    ≡ panic
unfolding from_activation update_from_headers read_activation str_field
strange_panics = refl

deactivation_id-eq_iff_example :
    (deactivation_id activate ≡ deactivation_id revoke)
    ↔ ((activate.package_id ≡ revoke.package_id) × (device_factor activate ≡ device_factor revoke))
deactivation_id-eq_iff_example =
    deactivation_id-eq_iff activate revoke (λ p. omega arith, tt) (λ p. omega arith, tt)
