-- ===== src/Cache/Invariant.antt =====
-- The invariant of the tables: keys are unique, and a row's two keys are those of one request.
pub mod Effects
pub mod Histories
pub mod Revocation
pub mod Clean
use frl_online_proxy.Prelude.{◌≡◌, String, ◌≢◌, refl, List, [], ◌∷◌, ◌++◌, All, arith}
use frl_online_proxy.Exec.{Exec}
use frl_online_proxy.Http.{Bytes, utf8, invalid}
use frl_online_proxy.Settings.{ProxyMode, cache, store, forward, passthrough}
use frl_online_proxy.Cops.{Request, Response}
use frl_online_proxy.Cache.Keys.{activation_id, deactivation_id, IsPlain}
use frl_online_proxy.Cache.Tables.{
  ActivationRequestRow, ActivationResponseRow, DeactivationRequestRow, Tables, empty,
}
use frl_online_proxy.Cache.Tables.Laws.{
  Unique, delete-All, insert-All, delete-Unique, insert-Unique,
}
use frl_online_proxy.Cache.Engine.{Conn, Db, step, transaction}
use frl_online_proxy.Cache.Engine.Laws.{Keeps, Keeps-Writes}
use frl_online_proxy.Cache.Store.{
  activation_request_row, deactivation_request_row, activation_response_row,
  deactivation_response_row, insert_activation_request, insert_deactivation_request,
  insert_activation_response, insert_deactivation_response, store_activation_request,
  store_deactivation_request, store_activation_response, store_deactivation_response,
}
use frl_online_proxy.Cache.Store.Atomic.{
  answered_activation, answered_deactivation, store_activation_request-Writes,
  store_deactivation_request-Writes, store_activation_response-Writes,
  store_deactivation_response-Writes,
}
use frl_online_proxy.Cache.Fetch.{request_from_activation_row, request_from_deactivation_row}

-- The keys are those of a request whose application id and library version have no `|`.
abbrev pub IsKeyed : String → String → Type 0
IsKeyed activation_key deactivation_key =
    (r : Request) × IsPlain r
    × (activation_key ≡ activation_id r)
    × (deactivation_key ≡ deactivation_id r)

-- A row that is written back as it was read.
abbrev pub IsStored : ActivationRequestRow → Type 0
IsStored row = row ≡ activation_request_row (request_from_activation_row row)

abbrev pub IsStoredDeactivation : DeactivationRequestRow → Type 0
IsStoredDeactivation row = row ≡ deactivation_request_row (request_from_deactivation_row row)

pub record IsWellFormed (t : Tables) : Type 0 where
  pub activation_requests : Unique (λ r. r.activation_key) t.activation_requests
  pub deactivation_requests : Unique (λ r. r.deactivation_key) t.deactivation_requests
  pub activation_responses : Unique (λ r. r.activation_key) t.activation_responses
  pub deactivation_responses : Unique (λ r. r.deactivation_key) t.deactivation_responses
  pub stored : All IsStored t.activation_requests
  pub stored_deactivations : All IsStoredDeactivation t.deactivation_requests
  pub keyed : All (λ r. IsKeyed r.activation_key r.deactivation_key) t.activation_responses

pub empty-IsWellFormed : IsWellFormed empty
empty-IsWellFormed = record {
  activation_requests = tt;
  deactivation_requests = tt;
  activation_responses = tt;
  deactivation_responses = tt;
  stored = tt;
  stored_deactivations = tt;
  keyed = tt;
}

pub IsStored-row : (req : Request) → IsStored (activation_request_row req)
unfolding activation_request_row request_from_activation_row activation_id deactivation_id
IsStored-row req = refl

pub IsStoredDeactivation-row : (req : Request) → IsStoredDeactivation (deactivation_request_row req)
unfolding deactivation_request_row request_from_deactivation_row deactivation_id
IsStoredDeactivation-row req = refl
