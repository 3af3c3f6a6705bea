-- ===== src/Cops/Receive.antt =====
-- cops.rs: `Request::from_network` and the functions that it calls. The current time is an argument.
pub mod Laws
pub mod Headers
pub mod Faults
pub mod RoundTrip
use Prim.Native.String
use frl_online_proxy.Prelude.{
  String, Bool, true, false, ◌||◌, Option, none, some, List, [], ◌∷◌, is_empty, if◌then◌else◌, ◌==◌,
  eq_ignore_ascii_case,
}
use frl_online_proxy.Prelude.Dict
use frl_online_proxy.Prelude.Dict.{HashMap}
use frl_online_proxy.Outcome.{Outcome, ok, err, panic, ◌>>=◌}
use frl_online_proxy.Http.{
  World, Parts, Bytes, Value, string, bool, object, Fields, end, field, is_post, is_delete,
}
use frl_online_proxy.Cops.{
  Kind, activation, deactivation, Request, default, BadRequest, activation_endpoint,
  deactivation_endpoint,
}

abbrev pub bad : {A : Type 0} → String → Outcome BadRequest A
bad why = err (record { reason = why })

-- One round of the loop over the headers.
abbrev pub take_header : Request → String × Option String → Request
take_header req (k, none) = req
take_header req (k, some val) =
    if k == "x-api-key"
    then record req { api_key = val }
    else if k == "x-request-id"
    then record req { request_id = val }
    else if k == "x-session-id"
    then record req { session_id = val }
    else req

-- `for (k, v) in parts.headers.iter() { … }`
abbrev pub take_headers : Request → List (String × Option String) → Request
take_headers req [] = req
take_headers req (h ∷ hs) = take_headers (take_header req h) hs

abbrev lacks_header : Kind → Request → Bool
lacks_header activation req =
    is_empty req.api_key || is_empty req.request_id || is_empty req.session_id
lacks_header deactivation req = is_empty req.api_key || is_empty req.request_id

unfoldable pub update_from_headers : Parts → Request → Outcome BadRequest Request
update_from_headers parts self =
    let req = take_headers self parts.headers in
    if lacks_header self.kind req then bad "Missing required header field" else ok req

abbrev pub pairs : Fields → List (String × Value)
pairs end = []
pairs (field k v fs) = (k, v) ∷ pairs fs

-- A value deserialised as a `HashMap<String, Value>`, the empty map where it is no object.
abbrev pub object_map : Value → HashMap Value
object_map (object fs) = Dict.collect (pairs fs)
object_map _ = []

-- `map[key]`, which panics on a missing key.
abbrev index : HashMap Value → String → Outcome BadRequest Value
index map key = elim (Dict.get map key) [ none ↦ panic | some v ↦ ok v ]

abbrev missing : String → String
missing what = String.◌++◌ "Missing " (String.◌++◌ what " in request.")

-- `if let Some(s) = map[key].as_str() { … } else { return Err(…) }`
abbrev as_str : String → Value → Outcome BadRequest String
as_str key (string s) = ok s
as_str key _ = bad (missing (String.◌++◌ key " field"))

unfoldable pub str_field : HashMap Value → String → Outcome BadRequest String
str_field map key = do v ← index map key; as_str key v

-- `if let Some(b) = map[key].as_bool() { b } else { false }`
abbrev as_bool : Value → Bool
as_bool (bool b) = b
as_bool _ = false

unfoldable pub bool_field : HashMap Value → String → Outcome BadRequest Bool
bool_field map key = do v ← index map key; ok (as_bool v)

-- `map.get(key).is_none()` is an error; otherwise the value as a map.
unfoldable pub object_field : HashMap Value → String → Outcome BadRequest (HashMap Value)
object_field map key = elim (Dict.get map key) [
  | none ↦ bad (missing (String.◌++◌ key " object"))
  | some v ↦ ok (object_map v)
]

-- The fields of the parsed body, written into `req`.
unfoldable pub read_activation : HashMap Value → Request → Outcome BadRequest Request
read_activation map req = do
  package_id ← str_field map "npdId"
  asnp_id ← str_field map "asnpTemplateId"
  app_map ← object_field map "appDetails"
  app_id ← str_field app_map "nglAppId"
  app_version ← str_field app_map "nglAppVersion"
  ngl_version ← str_field app_map "nglLibVersion"
  device_map ← object_field map "deviceDetails"
  device_date ← str_field device_map "currentDate"
  device_id ← str_field device_map "deviceId"
  os_user_id ← str_field device_map "osUserId"
  os_name ← str_field device_map "osName"
  os_version ← str_field device_map "osVersion"
  is_vdi ← bool_field device_map "enableVdiMarkerExists"
  is_domain_user ← bool_field device_map "isOsUserAccountInDomain"
  is_virtual ← bool_field device_map "isVirtualEnvironment"
  ok (record req {
    package_id = package_id;
    asnp_id = asnp_id;
    app_id = app_id;
    app_version = app_version;
    ngl_version = ngl_version;
    device_date = device_date;
    device_id = device_id;
    os_user_id = os_user_id;
    os_name = os_name;
    os_version = os_version;
    is_vdi = is_vdi;
    is_domain_user = is_domain_user;
    is_virtual = is_virtual;
  })

abbrev pub start : Kind → String → Request
start kind now = record default { kind = kind; timestamp = now }

-- `pairs.get(name)`, or the error of a missing parameter
unfoldable pub param : HashMap String → String → Outcome BadRequest String
param pairs name = elim (Dict.get pairs name) [
  | none ↦ bad (String.◌++◌ "Missing '" (String.◌++◌ name "' parameter"))
  | some v ↦ ok v
]

abbrev pub says_true : Option String → Bool
says_true none = false
says_true (some v) = eq_ignore_ascii_case v "true"

unfoldable pub read_deactivation : HashMap String → Request → Outcome BadRequest Request
read_deactivation pairs req = do
  package_id ← param pairs "npdId"
  device_id ← param pairs "deviceId"
  os_user_id ← param pairs "osUserId"
  ok (record req {
    package_id = package_id;
    device_id = device_id;
    os_user_id = os_user_id;
    is_vdi = says_true (Dict.get pairs "enableVdiMarkerExists");
  })

module _ (w : World) where
  -- The body as a map, empty where it does not parse.
  abbrev pub body_map : Bytes → HashMap Value
  body_map body = elim (w.parse_json body) [ none ↦ [] | some v ↦ object_map v ]

  unfoldable pub from_activation : Parts → Bytes → String → Outcome BadRequest Request
  from_activation parts body now = do
    req ← update_from_headers parts (start activation now)
    if Dict.is_empty (body_map body)
        then bad "Malformed activation request body"
        else read_activation (body_map body) req

  -- `Url::parse(…).expect(…)` panics on a text that is no URL.
  unfoldable pub from_deactivation : Parts → String → Outcome BadRequest Request
  from_deactivation parts now = do
    req ← update_from_headers parts (start deactivation now)
    elim (w.query_pairs (String.◌++◌ "http://placeholder" parts.uri.text)) [
      | none ↦ panic
      | some found ↦ read_deactivation (Dict.collect found) req
    ]

  unfoldable pub from_network : Parts → Bytes → String → Outcome BadRequest Request
  unfolding from_activation from_deactivation
  from_network parts body now =
      let path = parts.uri.path in
      if path == activation_endpoint
      then (if is_post parts.method
          then from_activation parts body now
          else bad "Activation method must be POST")
      else if path == deactivation_endpoint
      then (if is_delete parts.method
          then from_deactivation parts now
          else bad "Deactivation method must be DELETE")
      else bad (String.◌++◌ "Unknown endpoint path: " path)
