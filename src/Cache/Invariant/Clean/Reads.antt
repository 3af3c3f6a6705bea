-- ===== src/Cache/Invariant/Clean/Reads.antt =====
-- What is read from a clean database is plain.
use mathlib.Core.Path.{subst}
use frl_online_proxy.Prelude.{
  ◌≡◌, Bool, List, [], ◌∷◌, keep, All, All-append, All-keep, All-map, All-sort_by, sort_by, arith,
}
use frl_online_proxy.Outcome.{ok}
use frl_online_proxy.Cops.{Request, Response}
use frl_online_proxy.Cache.Keys.{IsPlain}
use frl_online_proxy.Cache.Tables.{DeactivationRequestRow, Tables}
use frl_online_proxy.Cache.Engine.{Conn, step, query}
use frl_online_proxy.Cache.Fetch.{
  inner_join, matches, request_from_activation_row, request_from_deactivation_row,
  fetch_unanswered_activations, fetch_unanswered_deactivations, fetch_unanswered_requests,
  activation_pair, deactivation_pair, fetch_forwarded_activations, fetch_forwarded_deactivations,
  fetch_forwarded_pairs,
}
use frl_online_proxy.Cache.Fetch.Unanswered.{waiting}
use frl_online_proxy.Cache.Fetch.Forwarded.{joined}
use frl_online_proxy.Cache.Invariant.Clean.{IsClean}

deactivation_row-IsPlain :
    (row : DeactivationRequestRow) → IsPlain (request_from_deactivation_row row)
unfolding request_from_deactivation_row
deactivation_row-IsPlain row = record { app_id = tt; ngl_version = tt }

deactivations-IsPlain :
    (rows : List DeactivationRequestRow)
    → All (λ row. IsPlain (request_from_deactivation_row row)) rows
deactivations-IsPlain [] = tt
deactivations-IsPlain (row ∷ rows) = (deactivation_row-IsPlain row, deactivations-IsPlain rows)

waiting-IsPlain : (t : Tables) → IsClean t → All IsPlain (waiting t)
waiting-IsPlain t c =
    All-append IsPlain _ _ (All-map IsPlain request_from_activation_row _ (All-keep _ _ _ c.plain))
      (All-map IsPlain request_from_deactivation_row _
        (deactivations-IsPlain t.deactivation_requests))

fetch_unanswered_requests-ok :
    (c : Conn) (reqs : List Request)
    → (fetch_unanswered_requests c).0 ≡ ok reqs
    → sort_by (λ r. r.timestamp) (waiting c.tables) ≡ reqs
unfolding fetch_unanswered_requests fetch_unanswered_activations fetch_unanswered_deactivations
    query step
fetch_unanswered_requests-ok c reqs h = ground arith

-- The requests to forward or to export are plain.
pub fetch_unanswered_requests-IsPlain :
    (c : Conn) (reqs : List Request)
    → IsClean c.tables
    → (fetch_unanswered_requests c).0 ≡ ok reqs
    → All IsPlain reqs
fetch_unanswered_requests-IsPlain c reqs clean h =
    subst (All IsPlain) (fetch_unanswered_requests-ok c reqs h)
      (All-sort_by (λ r. r.timestamp) IsPlain (waiting c.tables) (waiting-IsPlain c.tables clean))

module _ {A B : Type 0} (P : A → Type 0) (agree : A → B → Bool) where
  inner_join-All :
      (xs : List A) (ys : List B) → All P xs → All (λ p. P p.0) (inner_join agree xs ys)
  unfolding inner_join
  inner_join-All [] ys h = tt
  inner_join-All (x ∷ xs) ys (p, h) =
      All-append (λ p. P p.0) (matches agree x ys) _
        (All-map (λ p. P p.0) (λ y. (x, y)) (keep (agree x) ys) (each (keep (agree x) ys)))
        (inner_join-All xs ys h)
    where
      each : (zs : List B) → All (λ z. P x) zs
      each [] = tt
      each (z ∷ zs) = (p, each zs)

abbrev IsPlainPair : Request × Response → Type 0
IsPlainPair p = IsPlain p.0

joined-IsPlain : (t : Tables) → IsClean t → All IsPlainPair (joined t)
joined-IsPlain t c =
    All-append IsPlainPair _ _
      (All-map IsPlainPair activation_pair _
        (inner_join-All (λ row. IsPlain (request_from_activation_row row)) _ _ _ c.plain))
      (All-map IsPlainPair deactivation_pair _ (
        inner_join-All (λ row. IsPlain (request_from_deactivation_row row)) _ _ _
          (deactivations-IsPlain t.deactivation_requests)))

fetch_forwarded_pairs-ok :
    (c : Conn) (pairs : List (Request × Response))
    → (fetch_forwarded_pairs c).0 ≡ ok pairs
    → sort_by (λ p. p.0.timestamp) (joined c.tables) ≡ pairs
unfolding fetch_forwarded_pairs fetch_forwarded_activations fetch_forwarded_deactivations query step
fetch_forwarded_pairs-ok c pairs h = ground arith

-- The requests of the pairs of an import are plain.
pub fetch_forwarded_pairs-IsPlain :
    (c : Conn) (pairs : List (Request × Response))
    → IsClean c.tables
    → (fetch_forwarded_pairs c).0 ≡ ok pairs
    → All (λ p. IsPlain p.0) pairs
fetch_forwarded_pairs-IsPlain c pairs clean h =
    subst (All IsPlainPair) (fetch_forwarded_pairs-ok c pairs h) (
      All-sort_by (λ p. p.0.timestamp) IsPlainPair (joined c.tables)
        (joined-IsPlain c.tables clean))
