-- ===== src/Tests/Samples.antt =====
-- The concrete values that the tests share: an activation and a deactivation of one device, a
-- network that always answers, one that always fails, a configuration, and an empty cache.
use frl_online_proxy.Prelude.{true, false, none, some, [], ◌∷◌}
use frl_online_proxy.Http.{World, Parts, Uri, HResponse, utf8, whole, post, delete, answered}
use frl_online_proxy.Settings.{Settings, ProxyMode, console, LogLevel}
use frl_online_proxy.Cops.{
  Request, Response, activation, deactivation, default, activation_endpoint, deactivation_endpoint,
}
use frl_online_proxy.Cops.Send.{activation_json}
use frl_online_proxy.Cache.Tables.{Tables, empty}
use frl_online_proxy.Cache.Engine.{Conn}
use frl_online_proxy.Cache.Open.{Cache}

abbrev pub activate : Request
activate = record default {
  kind = activation;
  api_key = "key";
  request_id = "q1";
  session_id = "s1";
  package_id = "p";
  asnp_id = "t";
  device_id = "d";
  device_date = "2021";
  os_name = "mac";
  os_version = "11";
  os_user_id = "u";
  app_id = "a";
  app_version = "1";
  ngl_version = "2";
  timestamp = "2021-03-01T00:00:10.000+0000";
}

abbrev pub revoke : Request
revoke = record default {
  kind = deactivation;
  api_key = "key";
  request_id = "q2";
  package_id = "p";
  device_id = "d";
  os_user_id = "u";
  timestamp = "2021-03-01T00:00:20.000+0000";
}

abbrev pub license : Response
license = record {
  kind = activation;
  request_id = "q1";
  body = utf8 "license";
  timestamp = "2021-03-01T00:00:11.000+0000";
}

abbrev pub released : Response
released = record {
  kind = deactivation;
  request_id = "q2";
  body = utf8 "ok";
  timestamp = "2021-03-01T00:00:21.000+0000";
}

abbrev pub granted : HResponse
granted = record { status = 200; headers = []; body = whole (utf8 "license") }

abbrev pub refused : HResponse
refused = record { status = 500; headers = []; body = whole (utf8 "down") }

abbrev pub cops_uri : Uri
cops_uri = record {
  scheme = some "https";
  host = some "lcs";
  port = none;
  path = "";
  text = "https://lcs";
}

-- The network answers every request with `resp`, and every body that parses is the activation's.
abbrev pub world : HResponse → World
world resp = record {
  agent = "proxy";
  parse_json = λ _. some (activation_json activate);
  print_json = λ _. "{}";
  parse_uri = λ _. some cops_uri;
  query_pairs = λ _. some (("npdId", "p") ∷ ("deviceId", "d") ∷ ("osUserId", "u") ∷ []);
  valid_header = λ _. true;
  connector_error = λ _. none;
  proxy_headers = λ _ _. [];
  send = λ _ _. answered resp;
}

abbrev pub activate_parts : Parts
activate_parts = record {
  method = post;
  uri = record cops_uri { path = activation_endpoint };
  headers =
      ("x-api-key", some "key") ∷ ("x-session-id", some "s1") ∷ ("x-request-id", some "q1") ∷ [];
}

abbrev pub revoke_parts : Parts
revoke_parts = record {
  method = delete;
  uri = record cops_uri { path = deactivation_endpoint };
  headers = ("x-api-key", some "key") ∷ ("x-request-id", some "q2") ∷ [];
}

abbrev pub conf_in : ProxyMode → Settings
conf_in mode = record {
  proxy = record {
    mode = mode;
    host = "0.0.0.0";
    port = "8080";
    ssl_port = "8443";
    remote_host = "https://lcs";
    ssl = false;
  };
  ssl = record { cert_path = ""; cert_password = "" };
  logging = record { level = LogLevel.info; destination = console; file_path = "" };
  cache = record { db_path = "cache.sqlite" };
  network = record {
    use_proxy = false;
    proxy_host = "";
    proxy_port = "";
    use_basic_auth = false;
    proxy_username = "";
    proxy_password = "";
  };
}

abbrev pub conn_on : Tables → Conn
conn_on t = record { tables = t; closed = false; faults = [] }

abbrev pub fresh : Conn
fresh = conn_on empty

abbrev pub open_in : ProxyMode → Cache
open_in mode = record { enabled = true; mode = mode; db_pool = some fresh }
