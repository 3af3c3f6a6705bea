-- ===== src/Cache/Contract.antt =====
-- cache.rs: what the cache promises its callers, with no tables and no SQL: for each request the answer
-- that it would be given, and how each operation changes that.
pub mod Steps
pub mod Refines
pub mod Sound
pub mod Complete
use frl_online_proxy.Prelude.{Option, none, some, List, [], ◌∷◌, ◌==◌, if◌then◌else◌}
use frl_online_proxy.Outcome.{Outcome, ok, err, panic, Report}
use frl_online_proxy.Settings.{ProxyMode, forward}
use frl_online_proxy.Cops.{Request, Response}
use frl_online_proxy.Cache.Keys.{activation_id, deactivation_id}
use frl_online_proxy.Cache.Engine.{Conn}
use frl_online_proxy.Cache.Invariant.Histories.{
  Op, activation_request, deactivation_request, activation_response, deactivation_response, lookup,
  run,
}

-- The answer that an activation would be given, if COPS failed now.
abbrev pub View : Type 0
View = Request → Option Response

-- The answer to `req`, given to `r`.
abbrev pub readdressed : Request → Response → Request → Response
readdressed req resp r = record {
  kind = r.kind;
  request_id = r.request_id;
  body = resp.body;
  timestamp = req.timestamp;
}

-- An answer serves every request with its activation key. A deactivation takes back the answers of
-- its device, and in forward mode none. Requests and lookups change no answer.
abbrev pub meaning : Op → View → View
meaning (activation_response mode req resp) v =
    λ r. if activation_id req == activation_id r then some (readdressed req resp r) else v r
meaning (deactivation_response forward req resp) v = v
meaning (deactivation_response _ req resp) v =
    λ r. if deactivation_id req == deactivation_id r then none else v r
meaning (activation_request req) v = v
meaning (deactivation_request req) v = v
meaning (lookup kind req) v = v

abbrev pub replay : List Op → View → View
replay [] v = v
replay (op ∷ ops) v = replay ops (meaning op v)

abbrev if_accepted : Outcome Report (Unit {0}) → Op → List Op → List Op
if_accepted (ok a) op ops = op ∷ ops
if_accepted (err e) op ops = ops
if_accepted panic op ops = ops

-- The operations of a history that returned.
unfoldable pub accepted : List Op → Conn → List Op
accepted [] c = []
accepted (op ∷ ops) c = if_accepted (run op c).0 op (accepted ops (run op c).1)
