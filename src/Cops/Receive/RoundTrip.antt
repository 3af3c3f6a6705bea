-- ===== src/Cops/Receive/RoundTrip.antt =====
-- What the proxy sends for an activation, read by another proxy's `from_network`.
pub mod Deactivation
use frl_online_proxy.Prelude.{
  String, ◌≡◌, refl, some, map, if◌then◌else◌, eq_iff, arith, ap, sym, ◌∙◌,
}
use frl_online_proxy.Prelude.Dict
use frl_online_proxy.Outcome.{ok}
use frl_online_proxy.Http.{World, Parts, HRequest, Value, Bytes, utf8, post}
use frl_online_proxy.Cops.{activation, default, Request, BadRequest, activation_endpoint}
use frl_online_proxy.Cops.Receive.{
  start, update_from_headers, str_field, bool_field, object_field, object_map, read_activation,
  from_activation, from_network, body_map, bad,
}
use frl_online_proxy.Cops.Receive.Laws.{HasHeaders}
use frl_online_proxy.Cops.Send.{activation_json, activation_request, to_network}

-- How a sent request arrives at a server, at a URI with a given path.
pub record Arrives (sent : HRequest) (path : String) (parts : Parts) : Type 0 where
  pub method : parts.method ≡ sent.method
  pub path_of : parts.uri.path ≡ path
  pub headers : parts.headers ≡ map (λ h. (h.0, some h.1)) sent.headers

-- The fields of `r` that an activation's body carries, written into `req`.
abbrev filled : Request → Request → Request
filled r req = record req {
  package_id = r.package_id;
  asnp_id = r.asnp_id;
  app_id = r.app_id;
  app_version = r.app_version;
  ngl_version = r.ngl_version;
  device_date = r.device_date;
  device_id = r.device_id;
  os_user_id = r.os_user_id;
  os_name = r.os_name;
  os_version = r.os_version;
  is_vdi = r.is_vdi;
  is_domain_user = r.is_domain_user;
  is_virtual = r.is_virtual;
}

read_activation-json :
    (r req : Request) (m : Dict.HashMap Value)
    → m ≡ object_map (activation_json r)
    → (if Dict.is_empty m then bad "Malformed activation request body" else read_activation m req)
      ≡ ok (filled r req)
unfolding read_activation activation_json str_field bool_field object_field
read_activation-json r req m e = rw e

body_map-parsed :
    (w : World) (body : Bytes) (v : Value)
    → w.parse_json body ≡ some v
    → body_map w body ≡ object_map v
body_map-parsed w body v e = rw (e, body_map)

sent_activation :
    (w : World) (r : Request) (scheme host : String) (sent : HRequest)
    → r.kind ≡ activation
    → to_network w {E = BadRequest} r scheme host ≡ ok sent
    → sent ≡ activation_request w r scheme host
unfolding to_network
sent_activation w r scheme host sent kind built = ground arith

update_from_headers-sent :
    (w : World) (r : Request) (scheme host now : String) (parts : Parts)
    → HasHeaders activation r
    → parts.headers ≡ map (λ h. (h.0, some h.1)) (activation_request w r scheme host).headers
    → update_from_headers parts (start activation now)
      ≡ ok (record default {
        api_key = r.api_key;
        session_id = r.session_id;
        request_id = r.request_id;
        timestamp = now;
      })
unfolding update_from_headers
update_from_headers-sent w r scheme host now parts h e =
    rw (e, h.api_key, h.request_id, h.session_id refl)

from_activation-sent :
    (w : World) (r : Request) (scheme host now : String) (parts : Parts) (body : Bytes)
    → HasHeaders activation r
    → parts.headers ≡ map (λ h. (h.0, some h.1)) (activation_request w r scheme host).headers
    → w.parse_json body ≡ some (activation_json r)
    → from_activation w parts body now ≡ ok (record r { timestamp = now })
unfolding from_activation
from_activation-sent w r scheme host now parts body h e parsed =
    rw (update_from_headers-sent w r scheme host now parts h e) (
      read_activation-json r _ (body_map w body) (body_map-parsed w body _ parsed)
      ∙ ap (λ k. ok (record r { kind = k; timestamp = now })) (sym h.of_kind))

-- An activation that is sent with its header fields and arrives at the activation endpoint is
-- accepted there as the same request, stamped with the time of arrival. The hypothesis on JSON is
-- that parsing undoes printing for this body.
pub from_network-to_network :
    (w : World) (r : Request) (scheme host now : String) (sent : HRequest) (parts : Parts)
    → w.parse_json (utf8 (w.print_json (activation_json r))) ≡ some (activation_json r)
    → HasHeaders activation r
    → to_network w {E = BadRequest} r scheme host ≡ ok sent
    → Arrives sent activation_endpoint parts
    → from_network w parts sent.body now ≡ ok (record r { timestamp = now })
unfolding from_network
from_network-to_network w r scheme host now sent parts json h built a =
    let e = sent_activation w r scheme host sent h.of_kind built in
    let received =
      from_activation-sent w r scheme host now parts sent.body h
        (a.headers ∙ ap (λ (s : HRequest). map (λ h. (h.0, some h.1)) s.headers) e)
        (ap (λ (s : HRequest). w.parse_json s.body) e ∙ json) in
    let method : parts.method ≡ post = a.method ∙ ap (λ (s : HRequest). s.method) e in
    ground (arith, received, method, eq_iff parts.uri.path activation_endpoint)
