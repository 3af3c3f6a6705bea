-- ===== src/Cache/Fetch/Covered.antt =====
-- Which stored activations a list of requests covers, and what answering the requests leaves of them.
pub mod Waiting
use frl_online_proxy.Prelude.{
  String, ◌≡◌, ◌≢◌, refl, sym, ap, ◌∙◌, Bool, true, false, not, List, [], ◌∷◌, ◌++◌, map, keep, any,
  arith, ◌==◌, eq_iff, eq_refl, ◌&&◌, ◌||◌, All, All-both, any-append, any-sort_by, sort_by,
  text_leb, text_leb_refl, if◌then◌else◌,
}
use frl_online_proxy.Settings.{forward}
use frl_online_proxy.Cops.{Kind, activation, deactivation, Request}
use frl_online_proxy.Cache.Keys.{activation_id}
use frl_online_proxy.Cache.Tables.{
  ActivationRequestRow, ActivationResponseRow, DeactivationRequestRow, Tables, delete_where,
  insert_or_replace,
}
use frl_online_proxy.Cache.Tables.Laws.{Unique}
use frl_online_proxy.Cache.Store.{activation_request_row, activation_response_row}
use frl_online_proxy.Cache.Fetch.{
  is_answered, request_from_activation_row, request_from_deactivation_row,
}
use frl_online_proxy.Cache.Fetch.Unanswered.{waiting}
use frl_online_proxy.Cache.Invariant.{IsStored, IsWellFormed}
use frl_online_proxy.Cache.Methods.Laws.{answered}

abbrev pub is_activation : Kind → Bool
is_activation activation = true
is_activation deactivation = false

-- Whether one of the requests is an activation with the key.
abbrev pub covers : String → List Request → Bool
covers key reqs = any (λ q. is_activation q.kind && activation_id q == key) reqs

-- Every stored activation has an answer or is covered.
abbrev pub Covered : Tables → List Request → Type 0
Covered t reqs =
    All (λ r. (is_answered t r || covers r.activation_key reqs) ≡ true) t.activation_requests

-- An activation is as new as each stored one with its key.
abbrev pub IsFresh : List ActivationRequestRow → Request → Type 0
IsFresh rows req =
    req.kind ≡ activation
    → All (λ r. r.activation_key ≡ activation_id req → text_leb r.timestamp req.timestamp ≡ true)
        rows

module _ (k time : String) where
  abbrev answers_it : ActivationResponseRow → Bool
  answers_it r = r.activation_key == k && text_leb time r.timestamp

  answers-delete :
      (j : String) (rows : List ActivationResponseRow)
      → any answers_it (delete_where (λ r. r.activation_key) j rows)
        ≡ (if j == k then false else any answers_it rows)
  unfolding delete_where
  answers-delete j [] = ground arith
  answers-delete j (x ∷ xs) =
      ground (
        arith,
        answers-delete j xs,
        eq_iff j k,
        eq_iff x.activation_key j,
        eq_iff x.activation_key k,
      )

  answers-insert :
      (row : ActivationResponseRow) (rows : List ActivationResponseRow)
      → any answers_it (insert_or_replace (λ r. r.activation_key) row rows)
        ≡ (if row.activation_key == k then text_leb time row.timestamp else any answers_it rows)
  unfolding insert_or_replace
  answers-insert row rows =
      any-append answers_it (delete_where (λ r. r.activation_key) row.activation_key rows)
        (row ∷ [])
      ∙ ground (arith, answers-delete row.activation_key rows)

module _ (t : Tables) (req : Request) (rest : List Request) (text : String) where
  -- A row that is covered stays so, or is answered, when the first request is answered.
  answered-row :
      (kind : Kind) (r : ActivationRequestRow)
      → req.kind ≡ kind
      → (kind ≡ activation
          → r.activation_key ≡ activation_id req
          → text_leb r.timestamp req.timestamp ≡ true)
      → (is_answered t r || covers r.activation_key (req ∷ rest)) ≡ true
      → (is_answered (answered kind forward req text t) r || covers r.activation_key rest) ≡ true
  answered-row activation r e fresh h = ground (
    arith,
    answers-insert r.activation_key r.timestamp (activation_response_row req text)
        t.activation_responses,
    eq_iff (activation_id req) r.activation_key,
    fresh,
  )
  answered-row deactivation r e fresh h = ground arith

  pub answered-Covered :
      IsFresh t.activation_requests req
      → Covered t (req ∷ rest)
      → Covered (answered req.kind forward req text t) rest
  answered-Covered fresh h = go req.kind refl
    where
      go : (kind : Kind) → req.kind ≡ kind → Covered (answered kind forward req text t) rest
      go activation e =
          All-both t.activation_requests (λ r f. answered-row activation r e λ k. f) (fresh e) h
      go deactivation e =
          All-both t.activation_requests (λ r f c. answered-row deactivation r e (λ k. cc) c) h h
