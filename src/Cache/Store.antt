-- ===== src/Cache/Store.antt =====
-- cache.rs: the functions that store requests and responses, each in one transaction.
pub mod Atomic
use frl_online_proxy.Prelude.{String, Option, none, some}
use frl_online_proxy.Outcome.{Outcome, ok, panic, Report}
use frl_online_proxy.Exec.{Exec, pure, lift, ◌>>=◌, ◌>>◌}
use frl_online_proxy.Http.{from_utf8}
use frl_online_proxy.Settings.{ProxyMode, forward}
use frl_online_proxy.Cops.{Request, Response}
use frl_online_proxy.Cache.Keys.{activation_id, deactivation_id}
use frl_online_proxy.Cache.Tables.{
  ActivationRequestRow, ActivationResponseRow, DeactivationRequestRow, DeactivationResponseRow,
  Tables, insert_or_replace, delete_where,
}
use frl_online_proxy.Cache.Engine.{Db, execute, transaction}

-- The values that are bound to the columns.
unfoldable pub activation_request_row : Request → ActivationRequestRow
activation_request_row req = record {
  activation_key = activation_id req;
  deactivation_key = deactivation_id req;
  api_key = req.api_key;
  request_id = req.request_id;
  session_id = req.session_id;
  device_date = req.device_date;
  package_id = req.package_id;
  asnp_id = req.asnp_id;
  device_id = req.device_id;
  os_user_id = req.os_user_id;
  is_vdi = req.is_vdi;
  is_domain_user = req.is_domain_user;
  is_virtual = req.is_virtual;
  os_name = req.os_name;
  os_version = req.os_version;
  app_id = req.app_id;
  app_version = req.app_version;
  ngl_version = req.ngl_version;
  timestamp = req.timestamp;
}

unfoldable pub deactivation_request_row : Request → DeactivationRequestRow
deactivation_request_row req = record {
  deactivation_key = deactivation_id req;
  api_key = req.api_key;
  request_id = req.request_id;
  package_id = req.package_id;
  device_id = req.device_id;
  os_user_id = req.os_user_id;
  is_vdi = req.is_vdi;
  is_domain_user = req.is_domain_user;
  is_virtual = req.is_virtual;
  timestamp = req.timestamp;
}

abbrev pub activation_response_row : Request → String → ActivationResponseRow
activation_response_row req body = record {
  activation_key = activation_id req;
  deactivation_key = deactivation_id req;
  body = body;
  timestamp = req.timestamp;
}

abbrev pub deactivation_response_row : Request → String → DeactivationResponseRow
deactivation_response_row req body = record {
  deactivation_key = deactivation_id req;
  body = body;
  timestamp = req.timestamp;
}

-- The statements of the store functions.
abbrev pub insert_activation_request : ActivationRequestRow → Tables → Tables
insert_activation_request row t = record t {
  activation_requests = insert_or_replace (λ r. r.activation_key) row t.activation_requests;
}

abbrev pub insert_deactivation_request : DeactivationRequestRow → Tables → Tables
insert_deactivation_request row t = record t {
  deactivation_requests = insert_or_replace (λ r. r.deactivation_key) row t.deactivation_requests;
}

abbrev pub insert_activation_response : ActivationResponseRow → Tables → Tables
insert_activation_response row t = record t {
  activation_responses = insert_or_replace (λ r. r.activation_key) row t.activation_responses;
}

abbrev pub insert_deactivation_response : DeactivationResponseRow → Tables → Tables
insert_deactivation_response row t = record t {
  deactivation_responses = insert_or_replace (λ r. r.deactivation_key) row t.deactivation_responses;
}

abbrev pub delete_activation_requests : String → Tables → Tables
delete_activation_requests key t = record t {
  activation_requests = delete_where (λ r. r.deactivation_key) key t.activation_requests;
}

abbrev pub delete_activation_responses : String → Tables → Tables
delete_activation_responses key t = record t {
  activation_responses = delete_where (λ r. r.deactivation_key) key t.activation_responses;
}

abbrev pub delete_deactivation_requests : String → Tables → Tables
delete_deactivation_requests key t = record t {
  deactivation_requests = delete_where (λ r. r.deactivation_key) key t.deactivation_requests;
}

abbrev pub delete_deactivation_responses : String → Tables → Tables
delete_deactivation_responses key t = record t {
  deactivation_responses = delete_where (λ r. r.deactivation_key) key t.deactivation_responses;
}

-- `.unwrap()` of an option or of a result whose error does not matter
abbrev pub unwrap : {A : Type 0} → Option A → Outcome Report A
unwrap none = panic
unwrap (some a) = ok a

unfoldable pub store_activation_request : Request → Db (Unit {0})
store_activation_request req =
    transaction (execute (insert_activation_request (activation_request_row req)))

unfoldable pub store_deactivation_request : Request → Db (Unit {0})
store_deactivation_request req =
    transaction (execute (insert_deactivation_request (deactivation_request_row req)))

-- Outside forward mode, what is stored about the deactivation becomes invalid.
abbrev after_activation : ProxyMode → Request → Db (Unit {0})
after_activation forward req = pure tt
after_activation _ req = do
  execute (delete_deactivation_requests (deactivation_id req))
  execute (delete_deactivation_responses (deactivation_id req))

unfoldable pub store_activation_response : ProxyMode → Request → Response → Db (Unit {0})
store_activation_response mode req resp = transaction do
  body ← lift (unwrap (from_utf8 resp.body))
  execute (insert_activation_response (activation_response_row req body))
  after_activation mode req

-- In forward mode the response is kept; otherwise all that is stored for the key is removed.
abbrev record_deactivation : ProxyMode → Request → Response → Db (Unit {0})
record_deactivation forward req resp = do
  body ← lift (unwrap (from_utf8 resp.body))
  execute (insert_deactivation_response (deactivation_response_row req body))
record_deactivation _ req resp = do
  execute (delete_activation_requests (deactivation_id req))
  execute (delete_activation_responses (deactivation_id req))
  execute (delete_deactivation_requests (deactivation_id req))
  execute (delete_deactivation_responses (deactivation_id req))

unfoldable pub store_deactivation_response : ProxyMode → Request → Response → Db (Unit {0})
store_deactivation_response mode req resp = transaction (record_deactivation mode req resp)
