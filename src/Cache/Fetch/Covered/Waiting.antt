-- ===== src/Cache/Fetch/Covered/Waiting.antt =====
-- The requests that wait for an answer are as new as the stored ones with their keys, and cover all that
-- have none.
use frl_online_proxy.Prelude.{
  ◌≡◌, ◌≢◌, refl, sym, ap, ◌∙◌, Bool, true, false, not, List, [], ◌∷◌, ◌++◌, map, keep, arith, ◌==◌,
  eq_refl, ◌&&◌, ◌||◌, All, All-append, All-keep, All-map, All-sort_by, All-both, any-append,
  any-sort_by, sort_by, text_leb, text_leb_refl,
}
use frl_online_proxy.Cops.{Request}
use frl_online_proxy.Cache.Keys.{activation_id}
use frl_online_proxy.Cache.Tables.{ActivationRequestRow, DeactivationRequestRow, Tables}
use frl_online_proxy.Cache.Tables.Laws.{Unique}
use frl_online_proxy.Cache.Store.{activation_request_row}
use frl_online_proxy.Cache.Fetch.{
  is_answered, request_from_activation_row, request_from_deactivation_row,
}
use frl_online_proxy.Cache.Fetch.Unanswered.{waiting}
use frl_online_proxy.Cache.Invariant.{IsStored, IsWellFormed}
use frl_online_proxy.Cache.Fetch.Covered.{is_activation, covers, Covered, IsFresh}

-- The rows of a table with unique keys are as new as the others with their keys.
Unique-fresh :
    (rows : List ActivationRequestRow)
    → Unique (λ r. r.activation_key) rows
    → All
        (λ x.
          All
            (λ r. r.activation_key ≡ x.activation_key → text_leb r.timestamp x.timestamp ≡ true)
            rows)
        rows
Unique-fresh [] u = tt
Unique-fresh (x ∷ xs) (h, u) = (
  (
    (λ e. text_leb_refl x.timestamp),
    All-both {P = λ y. y.activation_key ≢ x.activation_key}
        {Q = λ y. y.activation_key ≢ x.activation_key} xs (λ r n m e. absurd (n e)) h h,
  ),
  All-both xs (λ y n fresh. ((λ e. absurd (n (sym e))), fresh)) h (Unique-fresh xs u),
)

-- The request of a stored row has the row's key and time.
pub row-key :
    (x : ActivationRequestRow)
    → IsStored x
    → activation_id (request_from_activation_row x) ≡ x.activation_key
unfolding activation_request_row
row-key x stored = sym (ap (λ r. r.activation_key) stored)

row-IsFresh :
    (rows : List ActivationRequestRow) (x : ActivationRequestRow)
    → IsStored x
    → All (λ r. r.activation_key ≡ x.activation_key → text_leb r.timestamp x.timestamp ≡ true) rows
    → IsFresh rows (request_from_activation_row x)
unfolding request_from_activation_row
row-IsFresh rows x stored h e = All-both rows (λ r f g k. f (k ∙ row-key x stored)) h h

deactivation_row-IsFresh :
    (rows : List ActivationRequestRow) (x : DeactivationRequestRow)
    → IsFresh rows (request_from_deactivation_row x)
unfolding request_from_deactivation_row
deactivation_row-IsFresh rows x e = cc

module _ (t : Tables) (w : IsWellFormed t) where
  pub waiting-IsFresh : All (IsFresh t.activation_requests) (sort_by (λ r. r.timestamp) (waiting t))
  waiting-IsFresh =
      All-sort_by (λ r. r.timestamp) (IsFresh t.activation_requests) (waiting t)
        (All-append (IsFresh t.activation_requests) _ _
          (All-map (IsFresh t.activation_requests) request_from_activation_row _ (
            All-keep (λ x. IsFresh t.activation_requests (request_from_activation_row x)) _ _
              (All-both t.activation_requests (row-IsFresh t.activation_requests) w.stored
                (Unique-fresh t.activation_requests w.activation_requests))))
          (All-map (IsFresh t.activation_requests) request_from_deactivation_row _
            (deactivations t.deactivation_requests)))
    where
      deactivations :
          (rows : List DeactivationRequestRow)
          → All (λ x. IsFresh t.activation_requests (request_from_deactivation_row x)) rows
      deactivations [] = tt
      deactivations (x ∷ xs) = (deactivation_row-IsFresh t.activation_requests x, deactivations xs)

  row-covers :
      (x : ActivationRequestRow)
      → IsStored x
      → (is_activation (request_from_activation_row x).kind
          && activation_id (request_from_activation_row x) == x.activation_key)
        ≡ true
  unfolding request_from_activation_row
  row-covers x stored =
      ap (λ k. k == x.activation_key) (row-key x stored) ∙ eq_refl x.activation_key

  -- The requests of those of the rows that have no answer.
  abbrev unanswered : List ActivationRequestRow → List Request
  unanswered rows = map request_from_activation_row (keep (λ r. not (is_answered t r)) rows)

  head-Covered :
      (x : ActivationRequestRow) (xs : List ActivationRequestRow)
      → IsStored x
      → (is_answered t x || covers x.activation_key (unanswered (x ∷ xs))) ≡ true
  head-Covered x xs stored = ground (arith, row-covers x stored)

  tail-Covered :
      (x r : ActivationRequestRow) (xs : List ActivationRequestRow)
      → (is_answered t r || covers r.activation_key (unanswered xs)) ≡ true
      → (is_answered t r || covers r.activation_key (unanswered (x ∷ xs))) ≡ true
  tail-Covered x r xs h = ground arith

  rows-Covered :
      (rows : List ActivationRequestRow)
      → All IsStored rows
      → All (λ r. (is_answered t r || covers r.activation_key (unanswered rows)) ≡ true) rows
  rows-Covered [] h = tt
  rows-Covered (x ∷ xs) (stored, h) =
      (head-Covered x xs stored, All-both xs (λ r e f. tail-Covered x r xs e) (rows-Covered xs h) h)

  pub waiting-Covered : Covered t (sort_by (λ r. r.timestamp) (waiting t))
  waiting-Covered =
      All-both t.activation_requests (λ r e f. sorted r e)
        (rows-Covered t.activation_requests w.stored) w.stored
    where
      sorted :
          (r : ActivationRequestRow)
          → (is_answered t r || covers r.activation_key (unanswered t.activation_requests)) ≡ true
          → (is_answered t r || covers r.activation_key (sort_by (λ q. q.timestamp) (waiting t)))
            ≡ true
      sorted r e =
          let p : Request → Bool =
            λ q. is_activation q.kind && activation_id q == r.activation_key in
          ground (
            arith,
            any-sort_by (λ q. q.timestamp) p (waiting t),
            any-append p (unanswered t.activation_requests)
                (map request_from_deactivation_row t.deactivation_requests),
          )

keep-none :
    {A : Type 0} (p : A → Bool) (xs : List A)
    → All (λ x. (p x || false) ≡ true) xs
    → keep (λ x. not (p x)) xs ≡ []
keep-none p [] h = refl
keep-none p (x ∷ xs) (e, h) = ground (arith, keep-none p xs h)

-- Where no request has to cover an activation, only deactivations wait.
pub Covered-waiting :
    (t : Tables)
    → Covered t []
    → waiting t ≡ map request_from_deactivation_row t.deactivation_requests
Covered-waiting t h =
    ap
      (λ rows.
        map request_from_activation_row rows
        ++ map request_from_deactivation_row t.deactivation_requests)
      (keep-none (is_answered t) t.activation_requests h)
