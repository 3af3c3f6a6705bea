-- ===== src/Cache/Fetch.antt =====
-- cache.rs: the functions that read responses, unanswered requests and forwarded pairs.
pub mod Forwarded
pub mod Answers
pub mod Unanswered
pub mod Covered
use frl_online_proxy.Prelude.{
  String, Bool, not, ◌&&◌, Option, none, some, List, [], ◌∷◌, ◌++◌, ◌==◌, map, keep, any, text_leb,
  sort_by, if◌then◌else◌,
}
use frl_online_proxy.Prelude.Dict
use frl_online_proxy.Prelude.Dict.{HashMap}
use frl_online_proxy.Outcome.{Outcome, ok, Report}
use frl_online_proxy.Exec.{Exec, pure, lift, ◌>>=◌}
use frl_online_proxy.Http.{utf8}
use frl_online_proxy.Cops.{Request, Response, default, activation, deactivation}
use frl_online_proxy.Cache.Keys.{activation_id}
use frl_online_proxy.Cache.Tables.{
  ActivationRequestRow, ActivationResponseRow, DeactivationRequestRow, DeactivationResponseRow,
  Tables, select_where,
}
use frl_online_proxy.Cache.Engine.{Db, query}
use frl_online_proxy.Cache.Store.{unwrap}

-- A row of a statement that names its columns; `row.get(column)` panics on a column that is not
-- among them.
abbrev Columns : Type 0
Columns = HashMap String

abbrev column : Columns → String → Outcome Report String
column row name = unwrap (Dict.get row name)

abbrev pub respond : Request → String → String → Response
respond req timestamp body = record {
  kind = req.kind;
  request_id = req.request_id;
  timestamp = timestamp;
  body = utf8 body;
}

-- The handling of the optional row, the same in both functions.
read_response : Request → Option Columns → Db (Option Response)
read_response req none = pure none
read_response req (some row) = do
  body ← lift (column row "body")
  timestamp ← lift (column row "timestamp")
  pure (some (respond req timestamp body))

-- `select body, timestamp from activation_responses where activation_key = ?`
abbrev select_body_timestamp : String → Tables → Option Columns
select_body_timestamp key t =
    elim (select_where (λ r. r.activation_key) key t.activation_responses) [
      | none ↦ none
      | some r ↦ some (("body", r.body) ∷ ("timestamp", r.timestamp) ∷ [])
    ]

-- `select body from activation_responses where activation_key = ?`
abbrev select_body : String → Tables → Option Columns
select_body key t = elim (select_where (λ r. r.activation_key) key t.activation_responses) [
  | none ↦ none
  | some r ↦ some (("body", r.body) ∷ [])
]

unfoldable pub fetch_activation_response : Request → Db (Option Response)
unfolding read_response
fetch_activation_response req = do
  result ← query (select_body_timestamp (activation_id req))
  read_response req result

unfoldable pub fetch_deactivation_response : Request → Db (Option Response)
unfolding read_response
fetch_deactivation_response req = do
  result ← query (select_body (activation_id req))
  read_response req result

unfoldable pub request_from_activation_row : ActivationRequestRow → Request
request_from_activation_row row = record {
  kind = activation;
  api_key = row.api_key;
  request_id = row.request_id;
  session_id = row.session_id;
  package_id = row.package_id;
  asnp_id = row.asnp_id;
  device_id = row.device_id;
  device_date = row.device_date;
  is_vdi = row.is_vdi;
  is_virtual = row.is_virtual;
  os_name = row.os_name;
  os_version = row.os_version;
  os_user_id = row.os_user_id;
  is_domain_user = row.is_domain_user;
  app_id = row.app_id;
  app_version = row.app_version;
  ngl_version = row.ngl_version;
  timestamp = row.timestamp;
}

unfoldable pub request_from_deactivation_row : DeactivationRequestRow → Request
request_from_deactivation_row row = record default {
  kind = deactivation;
  api_key = row.api_key;
  request_id = row.request_id;
  package_id = row.package_id;
  device_id = row.device_id;
  is_vdi = row.is_vdi;
  is_virtual = row.is_virtual;
  os_user_id = row.os_user_id;
  is_domain_user = row.is_domain_user;
  timestamp = row.timestamp;
}

-- The subquery of `where not exists`.
abbrev pub is_answered : Tables → ActivationRequestRow → Bool
is_answered t req =
    any (λ r. r.activation_key == req.activation_key && text_leb req.timestamp r.timestamp)
      t.activation_responses

unfoldable pub fetch_unanswered_activations : Db (List Request)
fetch_unanswered_activations = do
  rows ← query (λ t. keep (λ r. not (is_answered t r)) t.activation_requests)
  pure (map request_from_activation_row rows)

unfoldable pub fetch_unanswered_deactivations : Db (List Request)
fetch_unanswered_deactivations = do
  rows ← query (λ t. t.deactivation_requests)
  pure (map request_from_deactivation_row rows)

unfoldable pub fetch_unanswered_requests : Db (List Request)
fetch_unanswered_requests = do
  activations ← fetch_unanswered_activations
  deactivations ← fetch_unanswered_deactivations
  pure (sort_by (λ r. r.timestamp) (activations ++ deactivations))

-- `a inner join b on …`: each row of `a` with each row of `b` that it agrees with.
module _ {A B : Type 0} (agree : A → B → Bool) where
  abbrev pub matches : A → List B → List (A × B)
  matches a bs = map (λ b. (a, b)) (keep (agree a) bs)

  unfoldable pub inner_join : List A → List B → List (A × B)
  inner_join [] bs = []
  inner_join (a ∷ others) bs = matches a bs ++ inner_join others bs

-- The joined row has the columns of the request and the body of the response, so the response's time
-- is that of the request.
unfoldable pub response_from_activation_row :
    ActivationRequestRow × ActivationResponseRow → Response
response_from_activation_row (req, resp) = record {
  kind = activation;
  request_id = req.request_id;
  body = utf8 resp.body;
  timestamp = req.timestamp;
}

unfoldable pub response_from_deactivation_row :
    DeactivationRequestRow × DeactivationResponseRow → Response
response_from_deactivation_row (req, resp) = record {
  kind = deactivation;
  request_id = req.request_id;
  body = utf8 resp.body;
  timestamp = req.timestamp;
}

abbrev pub activation_pair : ActivationRequestRow × ActivationResponseRow → Request × Response
activation_pair row = (request_from_activation_row row.0, response_from_activation_row row)

abbrev pub deactivation_pair : DeactivationRequestRow × DeactivationResponseRow → Request × Response
deactivation_pair row = (request_from_deactivation_row row.0, response_from_deactivation_row row)

unfoldable pub fetch_forwarded_activations : Db (List (Request × Response))
fetch_forwarded_activations = do
  rows ← query λ t.
      inner_join (λ a b. a.activation_key == b.activation_key) t.activation_requests
        t.activation_responses
  pure (map activation_pair rows)

unfoldable pub fetch_forwarded_deactivations : Db (List (Request × Response))
fetch_forwarded_deactivations = do
  rows ← query λ t.
      inner_join (λ a b. a.deactivation_key == b.deactivation_key) t.deactivation_requests
        t.deactivation_responses
  pure (map deactivation_pair rows)

unfoldable pub fetch_forwarded_pairs : Db (List (Request × Response))
fetch_forwarded_pairs = do
  activations ← fetch_forwarded_activations
  deactivations ← fetch_forwarded_deactivations
  pure (sort_by (λ p. p.0.timestamp) (activations ++ deactivations))
