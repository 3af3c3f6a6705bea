-- ===== src/Cache/Invariant/Effects.antt =====
-- Each change of the tables by a store function keeps the invariant.
use frl_online_proxy.Prelude.{String, refl}
use frl_online_proxy.Settings.{ProxyMode, forward}
use frl_online_proxy.Cops.{Request}
use frl_online_proxy.Cache.Keys.{IsPlain}
use frl_online_proxy.Cache.Tables.{Tables}
use frl_online_proxy.Cache.Tables.Laws.{delete-All, insert-All, delete-Unique, insert-Unique}
use frl_online_proxy.Cache.Store.{
  activation_request_row, deactivation_request_row, activation_response_row,
  deactivation_response_row, insert_activation_request, insert_deactivation_request,
  insert_activation_response, insert_deactivation_response, delete_activation_requests,
  delete_activation_responses, delete_deactivation_requests, delete_deactivation_responses,
}
use frl_online_proxy.Cache.Store.Atomic.{answered_activation, answered_deactivation}
use frl_online_proxy.Cache.Invariant.{
  IsKeyed, IsStored, IsStoredDeactivation, IsWellFormed, IsStored-row, IsStoredDeactivation-row,
}

pub activation_request-IsWellFormed :
    (req : Request) (t : Tables)
    → IsWellFormed t
    → IsWellFormed (insert_activation_request (activation_request_row req) t)
activation_request-IsWellFormed req t w = record {
  activation_requests = insert-Unique _ _ _ w.activation_requests;
  deactivation_requests = w.deactivation_requests;
  activation_responses = w.activation_responses;
  deactivation_responses = w.deactivation_responses;
  stored = insert-All _ IsStored _ _ (IsStored-row req) w.stored;
  stored_deactivations = w.stored_deactivations;
  keyed = w.keyed;
}

pub deactivation_request-IsWellFormed :
    (req : Request) (t : Tables)
    → IsWellFormed t
    → IsWellFormed (insert_deactivation_request (deactivation_request_row req) t)
deactivation_request-IsWellFormed req t w = record {
  activation_requests = w.activation_requests;
  deactivation_requests = insert-Unique _ _ _ w.deactivation_requests;
  activation_responses = w.activation_responses;
  deactivation_responses = w.deactivation_responses;
  stored = w.stored;
  stored_deactivations =
      insert-All _ IsStoredDeactivation _ _ (IsStoredDeactivation-row req) w.stored_deactivations;
  keyed = w.keyed;
}

insert_response-IsWellFormed :
    (req : Request) (body : String) (t : Tables)
    → IsPlain req
    → IsWellFormed t
    → IsWellFormed (insert_activation_response (activation_response_row req body) t)
insert_response-IsWellFormed req body t p w = record {
  activation_requests = w.activation_requests;
  deactivation_requests = w.deactivation_requests;
  activation_responses = insert-Unique _ _ _ w.activation_responses;
  deactivation_responses = w.deactivation_responses;
  stored = w.stored;
  stored_deactivations = w.stored_deactivations;
  keyed =
      insert-All _ (λ r. IsKeyed r.activation_key r.deactivation_key) _ _ (req, p, refl, refl)
        w.keyed;
}

delete_activation_requests-IsWellFormed :
    (k : String) (t : Tables) → IsWellFormed t → IsWellFormed (delete_activation_requests k t)
delete_activation_requests-IsWellFormed k t w = record {
  activation_requests = delete-Unique _ _ _ _ w.activation_requests;
  deactivation_requests = w.deactivation_requests;
  activation_responses = w.activation_responses;
  deactivation_responses = w.deactivation_responses;
  stored = delete-All _ IsStored _ _ w.stored;
  stored_deactivations = w.stored_deactivations;
  keyed = w.keyed;
}

delete_deactivation_requests-IsWellFormed :
    (k : String) (t : Tables) → IsWellFormed t → IsWellFormed (delete_deactivation_requests k t)
delete_deactivation_requests-IsWellFormed k t w = record {
  activation_requests = w.activation_requests;
  deactivation_requests = delete-Unique _ _ _ _ w.deactivation_requests;
  activation_responses = w.activation_responses;
  deactivation_responses = w.deactivation_responses;
  stored = w.stored;
  stored_deactivations = delete-All _ IsStoredDeactivation _ _ w.stored_deactivations;
  keyed = w.keyed;
}

delete_activation_responses-IsWellFormed :
    (k : String) (t : Tables) → IsWellFormed t → IsWellFormed (delete_activation_responses k t)
delete_activation_responses-IsWellFormed k t w = record {
  activation_requests = w.activation_requests;
  deactivation_requests = w.deactivation_requests;
  activation_responses = delete-Unique _ _ _ _ w.activation_responses;
  deactivation_responses = w.deactivation_responses;
  stored = w.stored;
  stored_deactivations = w.stored_deactivations;
  keyed = delete-All _ (λ r. IsKeyed r.activation_key r.deactivation_key) _ _ w.keyed;
}

delete_deactivation_responses-IsWellFormed :
    (k : String) (t : Tables) → IsWellFormed t → IsWellFormed (delete_deactivation_responses k t)
delete_deactivation_responses-IsWellFormed k t w = record {
  activation_requests = w.activation_requests;
  deactivation_requests = w.deactivation_requests;
  activation_responses = w.activation_responses;
  deactivation_responses = delete-Unique _ _ _ _ w.deactivation_responses;
  stored = w.stored;
  stored_deactivations = w.stored_deactivations;
  keyed = w.keyed;
}

insert_deactivation_response-IsWellFormed :
    (req : Request) (body : String) (t : Tables)
    → IsWellFormed t
    → IsWellFormed (insert_deactivation_response (deactivation_response_row req body) t)
insert_deactivation_response-IsWellFormed req body t w = record {
  activation_requests = w.activation_requests;
  deactivation_requests = w.deactivation_requests;
  activation_responses = w.activation_responses;
  deactivation_responses = insert-Unique _ _ _ w.deactivation_responses;
  stored = w.stored;
  stored_deactivations = w.stored_deactivations;
  keyed = w.keyed;
}

pub answered_activation-IsWellFormed :
    (mode : ProxyMode) (req : Request) (body : String) (t : Tables)
    → IsPlain req
    → IsWellFormed t
    → IsWellFormed (answered_activation mode req body t)
answered_activation-IsWellFormed forward req body t p w =
    insert_response-IsWellFormed req body t p w
answered_activation-IsWellFormed _ req body t p w =
    delete_deactivation_responses-IsWellFormed _ _
      (delete_deactivation_requests-IsWellFormed _ _ (insert_response-IsWellFormed req body t p w))

pub answered_deactivation-IsWellFormed :
    (mode : ProxyMode) (req : Request) (body : String) (t : Tables)
    → IsWellFormed t
    → IsWellFormed (answered_deactivation mode req body t)
answered_deactivation-IsWellFormed forward req body t w =
    insert_deactivation_response-IsWellFormed req body t w
answered_deactivation-IsWellFormed _ req body t w = delete_deactivation_responses-IsWellFormed _ _ (
    delete_deactivation_requests-IsWellFormed _ _ (
      delete_activation_responses-IsWellFormed _ _ (delete_activation_requests-IsWellFormed _ _ w)))
