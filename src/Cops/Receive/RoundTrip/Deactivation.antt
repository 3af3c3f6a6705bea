-- ===== src/Cops/Receive/RoundTrip/Deactivation.antt =====
-- What the proxy sends for a deactivation, read by another proxy's `from_network`.
use Prim.Native.String
use frl_online_proxy.Prelude.{
  String, Bool, true, false, ◌≡◌, refl, some, List, [], ◌∷◌, map, arith, ap, ◌∙◌,
  eq_ignore_ascii_case, lower,
}
use frl_online_proxy.Prelude.Dict
use frl_online_proxy.Outcome.{ok}
use frl_online_proxy.Http.{World, Parts, HRequest, delete}
use frl_online_proxy.Cops.{deactivation, default, Request, BadRequest, deactivation_endpoint}
use frl_online_proxy.Cops.Receive.{
  start, says_true, update_from_headers, param, read_deactivation, from_deactivation, from_network,
}
use frl_online_proxy.Cops.Receive.Laws.{HasHeaders}
use frl_online_proxy.Cops.Receive.RoundTrip.{Arrives}
use frl_online_proxy.Cops.Send.{show_bool, deactivation_target, deactivation_request, to_network}
use frl_online_proxy.Cache.Keys.{deactivation_id}

-- The fields of a deactivation that are sent, at the time of arrival.
abbrev pub delivered : Request → String → Request
delivered r now = record default {
  kind = deactivation;
  api_key = r.api_key;
  request_id = r.request_id;
  package_id = r.package_id;
  device_id = r.device_id;
  os_user_id = r.os_user_id;
  is_vdi = r.is_vdi;
  timestamp = now;
}

-- The values of a deactivation, under their names.
abbrev pub parameters : Request → List (String × String)
parameters r =
    ("npdId", r.package_id)
    ∷ ("deviceId", r.device_id)
    ∷ ("osUserId", r.os_user_id)
    ∷ ("enableVdiMarkerExists", show_bool r.is_vdi)
    ∷ []

sent_deactivation :
    (w : World) (r : Request) (scheme host : String) (sent : HRequest)
    → r.kind ≡ deactivation
    → to_network w {E = BadRequest} r scheme host ≡ ok sent
    → sent ≡ deactivation_request w r scheme host
unfolding to_network
sent_deactivation w r scheme host sent kind built = ground arith

update_from_headers-sent :
    (w : World) (r : Request) (scheme host now : String) (parts : Parts)
    → HasHeaders deactivation r
    → parts.headers ≡ map (λ h. (h.0, some h.1)) (deactivation_request w r scheme host).headers
    → update_from_headers parts (start deactivation now)
      ≡ ok (record default {
        kind = deactivation;
        api_key = r.api_key;
        request_id = r.request_id;
        timestamp = now;
      })
unfolding update_from_headers
update_from_headers-sent w r scheme host now parts h e = rw (e, h.api_key, h.request_id) refl

says_true-show_bool : (b : Bool) → says_true (some (show_bool b)) ≡ b
unfolding eq_ignore_ascii_case lower
says_true-show_bool true = refl
says_true-show_bool false = refl

read_parameters :
    (r req : Request)
    → read_deactivation (Dict.collect (parameters r)) req
      ≡ ok (record req {
        package_id = r.package_id;
        device_id = r.device_id;
        os_user_id = r.os_user_id;
        is_vdi = r.is_vdi;
      })
unfolding read_deactivation param
read_parameters r req =
    ap
      (λ b. ok (record req {
        package_id = r.package_id;
        device_id = r.device_id;
        os_user_id = r.os_user_id;
        is_vdi = b;
      }))
      (says_true-show_bool r.is_vdi)

from_deactivation-sent :
    (w : World) (r : Request) (scheme host now : String) (parts : Parts)
    → HasHeaders deactivation r
    → parts.headers ≡ map (λ h. (h.0, some h.1)) (deactivation_request w r scheme host).headers
    → w.query_pairs (String.◌++◌ "http://placeholder" parts.uri.text) ≡ some (parameters r)
    → from_deactivation w parts now ≡ ok (delivered r now)
unfolding from_deactivation
from_deactivation-sent w r scheme host now parts h e pairs =
    rw (update_from_headers-sent w r scheme host now parts h e, pairs) (read_parameters r _)

-- A deactivation that is sent with its header fields and arrives at the deactivation endpoint, with the
-- path and the query that were sent, is accepted there with the same values, stamped with the time of
-- arrival, and has the same deactivation key; what is not sent is lost: whether the machine is virtual
-- or the user is a domain user. The hypothesis on URLs is that the values are read as they are
-- written, which holds where they need no escaping.
pub from_network-to_deactivation :
    (w : World) (r : Request) (scheme host now : String) (sent : HRequest) (parts : Parts)
    → w.query_pairs (String.◌++◌ "http://placeholder" (deactivation_target r)) ≡ some (parameters r)
    → HasHeaders deactivation r
    → to_network w {E = BadRequest} r scheme host ≡ ok sent
    → Arrives sent deactivation_endpoint parts
    → parts.uri.text ≡ deactivation_target r
    → (from_network w parts sent.body now ≡ ok (delivered r now))
      × (deactivation_id (delivered r now) ≡ deactivation_id r)
unfolding from_network deactivation_id update_from_headers
from_network-to_deactivation w r scheme host now sent parts url h built a text =
    let e = sent_deactivation w r scheme host sent h.of_kind built in
    let received =
      from_deactivation-sent w r scheme host now parts h
        (a.headers ∙ ap (λ (s : HRequest). map (λ h. (h.0, some h.1)) s.headers) e)
        (ap (λ t. w.query_pairs (String.◌++◌ "http://placeholder" t)) text ∙ url) in
    let method : parts.method ≡ delete = a.method ∙ ap (λ (s : HRequest). s.method) e in
    (rw (a.path_of, method) received, refl)
