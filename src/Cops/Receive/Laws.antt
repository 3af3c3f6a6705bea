-- ===== src/Cops/Receive/Laws.antt =====
-- What an accepted network request gives: which endpoint it came to, and its header fields.
use Prim.Native.String
use frl_online_proxy.Prelude.{
  String, ◌≡◌, refl, true, false, Option, none, some, List, [], ◌∷◌, is_empty, ◌==◌, eq_iff, arith,
  ap, ◌∙◌, Option-cases, Bool-cases, inl, inr,
}
use frl_online_proxy.Outcome.{ok, >>=-eq-ok}
use frl_online_proxy.Http.{World, Value, Parts, Bytes, is_post, is_delete}
use frl_online_proxy.Prelude.Dict
use frl_online_proxy.Cops.{
  Kind, activation, deactivation, Request, activation_endpoint, deactivation_endpoint,
}
use frl_online_proxy.Cops.Receive.{
  start, take_header, take_headers, update_from_headers, read_activation, read_deactivation,
  from_activation, from_deactivation, from_network, body_map,
}

take_headers-kind :
    (req : Request) (hs : List (String × Option String))
    → ((take_headers req hs).kind ≡ req.kind) × ((take_headers req hs).timestamp ≡ req.timestamp)
take_headers-kind req [] = (refl, refl)
take_headers-kind req ((k, none) ∷ hs) = take_headers-kind req hs
take_headers-kind req ((k, some v) ∷ hs) =
    ground (arith, take_headers-kind (take_header req (k, some v)) hs)

-- The header fields that a kind needs are not empty.
pub record HasHeaders (kind : Kind) (r : Request) : Type 0 where
  pub of_kind : r.kind ≡ kind
  pub api_key : is_empty r.api_key ≡ false
  pub request_id : is_empty r.request_id ≡ false
  pub session_id : kind ≡ activation → is_empty r.session_id ≡ false

update_from_headers-HasHeaders :
    (parts : Parts) (kind : Kind) (now : String) (r : Request)
    → update_from_headers parts (start kind now) ≡ ok r
    → HasHeaders kind r × (r.timestamp ≡ now)
unfolding update_from_headers
update_from_headers-HasHeaders parts activation now r h =
    ground (arith, take_headers-kind (start activation now) parts.headers)
update_from_headers-HasHeaders parts deactivation now r h =
    ground (arith, take_headers-kind (start deactivation now) parts.headers)

-- Reading a body leaves the kind, the time and the header fields alone.
pub record SameHeaders (req r : Request) : Type 0 where
  pub kind : r.kind ≡ req.kind
  pub timestamp : r.timestamp ≡ req.timestamp
  pub api_key : r.api_key ≡ req.api_key
  pub request_id : r.request_id ≡ req.request_id
  pub session_id : r.session_id ≡ req.session_id

read_activation-SameHeaders :
    (map : Dict.HashMap Value) (req : Request) {r : Request}
    → read_activation map req ≡ ok r
    → SameHeaders req r
unfolding read_activation
read_activation-SameHeaders map req h = ground arith

read_deactivation-SameHeaders :
    (pairs : Dict.HashMap String) (req : Request) {r : Request}
    → read_deactivation pairs req ≡ ok r
    → SameHeaders req r
unfolding read_deactivation
read_deactivation-SameHeaders pairs req h = ground arith

HasHeaders-SameHeaders :
    {kind : Kind} {req r : Request} → HasHeaders kind req → SameHeaders req r → HasHeaders kind r
HasHeaders-SameHeaders h s = record {
  of_kind = s.kind ∙ h.of_kind;
  api_key = ap is_empty s.api_key ∙ h.api_key;
  request_id = ap is_empty s.request_id ∙ h.request_id;
  session_id = λ k. ap is_empty s.session_id ∙ h.session_id k;
}

module _ (w : World) where
  from_activation-HasHeaders :
      (parts : Parts) (body : Bytes) (now : String) {r : Request}
      → from_activation w parts body now ≡ ok r
      → HasHeaders activation r × (r.timestamp ≡ now)
  unfolding from_activation
  from_activation-HasHeaders parts body now h =
      let (req, rest, updated) = >>=-eq-ok _ (update_from_headers parts (start activation now)) h in
      let (headers, time) = update_from_headers-HasHeaders parts activation now req updated in
      let same = read_activation-SameHeaders (body_map w body) req (ground arith) in
      (HasHeaders-SameHeaders headers same, same.timestamp ∙ time)

  from_deactivation-HasHeaders :
      (parts : Parts) (now : String) {r : Request}
      → from_deactivation w parts now ≡ ok r
      → HasHeaders deactivation r × (r.timestamp ≡ now)
  unfolding from_deactivation
  from_deactivation-HasHeaders parts now h =
      let (req, rest, updated) =
        >>=-eq-ok _ (update_from_headers parts (start deactivation now)) h in
      let (headers, time) = update_from_headers-HasHeaders parts deactivation now req updated in
      elim (Option-cases (w.query_pairs (String.◌++◌ "http://placeholder" parts.uri.text))) [
        | inl bad_url ↦ absurd (ground arith)
        | inr (found, parsed) ↦
            let same = read_deactivation-SameHeaders (Dict.collect found) req (ground arith) in
            (HasHeaders-SameHeaders headers same, same.timestamp ∙ time)
      ]

-- What an accepted request came with.
pub data IsAccepted (parts : Parts) (now : String) (r : Request) : Type 0 where
  an_activation :
      parts.uri.path ≡ activation_endpoint
      → is_post parts.method ≡ true
      → HasHeaders activation r × (r.timestamp ≡ now)
      → IsAccepted parts now r
  a_deactivation :
      parts.uri.path ≡ deactivation_endpoint
      → is_delete parts.method ≡ true
      → HasHeaders deactivation r × (r.timestamp ≡ now)
      → IsAccepted parts now r

-- A request that is accepted came to the endpoint of its kind by that endpoint's method, carries
-- the time of its arrival, and has the header fields of its kind, none of them empty.
pub from_network-IsAccepted :
    (w : World) (parts : Parts) (body : Bytes) (now : String) (r : Request)
    → from_network w parts body now ≡ ok r
    → IsAccepted parts now r
unfolding from_network
from_network-IsAccepted w parts body now r h =
    elim (Bool-cases (parts.uri.path == activation_endpoint)) [
      | inl act ↦ elim (Bool-cases (is_post parts.method)) [
        | inl is ↦
            an_activation ((eq_iff _ _).0 act) is
              (from_activation-HasHeaders w parts body now (rw (act, is) at h))
        | inr isnt ↦ absurd (ground arith)
      ]
      | inr other ↦ elim (Bool-cases (parts.uri.path == deactivation_endpoint)) [
        | inl deact ↦ elim (Bool-cases (is_delete parts.method)) [
          | inl is ↦
              a_deactivation ((eq_iff _ _).0 deact) is
                (from_deactivation-HasHeaders w parts now (ground arith))
          | inr isnt ↦ absurd (ground arith)
        ]
        | inr unknown ↦ absurd (ground arith)
      ]
    ]
