-- ===== src/Cops.antt =====
-- cops.rs: the data of a COPS request and of its response.
pub mod Receive
pub mod Send
use frl_online_proxy.Prelude.{String, Bool, false}
use frl_online_proxy.Http.{Bytes}

pub data Kind : Type 0 where
  activation deactivation : Kind

pub record Request : Type 0 where
  pub kind : Kind
  pub api_key : String
  pub request_id : String
  pub session_id : String
  pub package_id : String
  pub asnp_id : String
  pub device_id : String
  pub device_date : String
  pub is_vdi : Bool
  pub is_virtual : Bool
  pub os_name : String
  pub os_version : String
  pub os_user_id : String
  pub is_domain_user : Bool
  pub app_id : String
  pub app_version : String
  pub ngl_version : String
  pub timestamp : String

-- `Request::default()`
abbrev pub default : Request
default = record {
  kind = activation;
  api_key = "";
  request_id = "";
  session_id = "";
  package_id = "";
  asnp_id = "";
  device_id = "";
  device_date = "";
  is_vdi = false;
  is_virtual = false;
  os_name = "";
  os_version = "";
  os_user_id = "";
  is_domain_user = false;
  app_id = "";
  app_version = "";
  ngl_version = "";
  timestamp = "";
}

pub record Response : Type 0 where
  pub kind : Kind
  pub request_id : String
  pub body : Bytes
  pub timestamp : String

pub record BadRequest : Type 0 where
  pub reason : String

abbrev pub activation_endpoint : String
activation_endpoint = "/asnp/frl_connected/values/v2"

abbrev pub deactivation_endpoint : String
deactivation_endpoint = "/asnp/frl_connected/v1"

-- `Response::from_network`, at the time `now`
abbrev pub response_from_network : Request → Bytes → String → Response
response_from_network request body now = record {
  kind = request.kind;
  request_id = request.request_id;
  body = body;
  timestamp = now;
}
