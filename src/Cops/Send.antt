-- ===== src/Cops/Send.antt =====
-- cops.rs: `Request::to_network` and `Response::to_network`. A builder's `expect` panics where the
-- crate refuses the URI or a header.
use Prim.Native.String
use frl_online_proxy.Prelude.{
  String, Bool, true, false, ◌&&◌, Option, none, some, List, [], ◌∷◌, if◌then◌else◌,
}
use frl_online_proxy.Outcome.{Outcome, ok, panic}
use frl_online_proxy.Http.{
  World, post, delete, HRequest, HResponse, utf8, whole, Value, string, bool, object, end, field,
}
use frl_online_proxy.Cops.{
  Kind, activation, deactivation, Request, Response, activation_endpoint, deactivation_endpoint,
}

-- `Display` of a `bool`
abbrev pub show_bool : Bool → String
show_bool true = "true"
show_bool false = "false"

abbrev pub is_some : {A : Type 0} → Option A → Bool
is_some none = false
is_some (some _) = true

abbrev pub origin : String → String → String → String
origin scheme host rest = String.◌++◌ scheme (String.◌++◌ "://" (String.◌++◌ host rest))

-- The JSON body of an activation.
unfoldable pub activation_json : Request → Value
activation_json self = object (
    field "npdId" (string self.package_id) (
      field "asnpTemplateId" (string self.asnp_id) (
        field "appDetails"
          (object (
            field "nglAppId" (string self.app_id) (
              field "nglAppVersion" (string self.app_version)
                (field "nglLibVersion" (string self.ngl_version) end))))
          (field "deviceDetails"
            (object (
              field "currentDate" (string self.device_date) (
                field "deviceId" (string self.device_id) (
                  field "enableVdiMarkerExists" (bool self.is_vdi) (
                    field "isOsUserAccountInDomain" (bool self.is_domain_user) (
                      field "isVirtualEnvironment" (bool self.is_virtual) (
                        field "osName" (string self.os_name) (
                          field "osUserId" (string self.os_user_id)
                            (field "osVersion" (string self.os_version) end)))))))))
            end))))

-- The path and the query of a deactivation; its values are not escaped.
abbrev pub deactivation_target : Request → String
deactivation_target self = String.◌++◌ deactivation_endpoint (
    String.◌++◌ "?npdId=" (
      String.◌++◌ self.package_id (
        String.◌++◌ "&deviceId=" (
          String.◌++◌ self.device_id (
            String.◌++◌ "&osUserId=" (
              String.◌++◌ self.os_user_id
                (String.◌++◌ "&enableVdiMarkerExists=" (show_bool self.is_vdi))))))))

unfoldable pub deactivation_uri : Request → String → String → String
deactivation_uri self scheme host = origin scheme host (deactivation_target self)

module _ (w : World) where
  abbrev pub valid_headers : List (String × String) → Bool
  valid_headers [] = true
  valid_headers ((k, v) ∷ hs) = w.valid_header v && valid_headers hs

  abbrev pub build_request : {E : Type 0} → HRequest → Outcome E HRequest
  build_request r = if is_some (w.parse_uri r.uri) && valid_headers r.headers then ok r else panic

  abbrev pub activation_request : Request → String → String → HRequest
  activation_request self scheme host = record {
    method = post;
    uri = origin scheme host activation_endpoint;
    headers =
        ("host", host)
        ∷ ("x-api-key", self.api_key)
        ∷ ("x-session-id", self.session_id)
        ∷ ("x-request-id", self.request_id)
        ∷ ("content-type", "application/json")
        ∷ ("accept", "application/json")
        ∷ ("user-agent", w.agent)
        ∷ [];
    body = utf8 (w.print_json (activation_json self));
  }

  unfoldable pub to_activation : {E : Type 0} → Request → String → String → Outcome E HRequest
  to_activation self scheme host = build_request (activation_request self scheme host)

  abbrev pub deactivation_request : Request → String → String → HRequest
  deactivation_request self scheme host = record {
    method = delete;
    uri = deactivation_uri self scheme host;
    headers =
        ("host", host)
        ∷ ("x-api-key", self.api_key)
        ∷ ("x-request-id", self.request_id)
        ∷ ("accept", "application/json")
        ∷ ("user-agent", w.agent)
        ∷ [];
    body = utf8 "";
  }

  unfoldable pub to_deactivation : {E : Type 0} → Request → String → String → Outcome E HRequest
  to_deactivation self scheme host = build_request (deactivation_request self scheme host)

  unfoldable pub by_kind : {E : Type 0} → Kind → Request → String → String → Outcome E HRequest
  by_kind activation self scheme host = to_activation self scheme host
  by_kind deactivation self scheme host = to_deactivation self scheme host

  unfoldable pub to_network : {E : Type 0} → Request → String → String → Outcome E HRequest
  unfolding by_kind to_activation to_deactivation
  to_network self scheme host = by_kind self.kind self scheme host

  abbrev pub response_headers : Response → List (String × String)
  response_headers self =
      ("server", w.agent)
      ∷ ("x-request-id", self.request_id)
      ∷ ("content-type", "application/json;charset=UTF-8")
      ∷ []

  unfoldable pub response_to_network : {E : Type 0} → Response → Outcome E HResponse
  response_to_network self =
      if valid_headers (response_headers self)
      then ok (record { status = 200; headers = response_headers self; body = whole self.body })
      else panic
