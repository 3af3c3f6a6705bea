-- ===== src/Cache/Exchange/Exported/Written.antt =====
-- The tables that an export of the waiting requests leaves.
use frl_online_proxy.Prelude.{
  ◌≡◌, ◌≢◌, refl, sym, ap, ◌∙◌, Bool, true, false, not, String, List, [], ◌∷◌, ◌++◌, map, keep, All,
  All-both, All-keep, All-map, All-append, All-sort_by, Perm, Pairwise, sort_by, sort_by-perm,
  sort_by-Pairwise, Pairwise-append, if◌then◌else◌,
}
use mathlib.Core.List.{append-nil}
use mathlib.Core.List.Perm
use mathlib.Core.Path.{subst}
use frl_online_proxy.Cops.{Kind, activation, deactivation, Request}
use frl_online_proxy.Cache.Keys.{deactivation_id}
use frl_online_proxy.Cache.Tables.{ActivationRequestRow, DeactivationRequestRow, Tables, empty}
use frl_online_proxy.Cache.Tables.Laws.{Unique}
use frl_online_proxy.Cache.Store.{deactivation_request_row}
use frl_online_proxy.Cache.Fetch.{
  is_answered, request_from_activation_row, request_from_deactivation_row,
}
use frl_online_proxy.Cache.Fetch.Unanswered.{waiting}
use frl_online_proxy.Cache.Fetch.Covered.Waiting.{row-key}
use frl_online_proxy.Cache.Invariant.{IsStored, IsStoredDeactivation, IsWellFormed}
use frl_online_proxy.Cache.Methods.Laws.{requested}
use frl_online_proxy.Cache.Exchange.Exported.{
  Apart, stored, IsRead, IsNew, exported, stored-exported,
}

requested-responses :
    (kind : Kind) (req : Request) (t : Tables)
    → (requested kind req t).activation_responses ≡ t.activation_responses
requested-responses activation req t = refl
requested-responses deactivation req t = refl

exported-responses :
    (reqs : List Request) (t : Tables)
    → (exported reqs t).activation_responses ≡ t.activation_responses
exported-responses [] t = refl
exported-responses (req ∷ reqs) t =
    exported-responses reqs (requested req.kind req t) ∙ requested-responses req.kind req t

-- Where there is no response, all stored requests wait.
keep-all : {A : Type 0} (xs : List A) → keep (λ x. true) xs ≡ xs
keep-all [] = refl
keep-all (x ∷ xs) = ap (λ l. x ∷ l) (keep-all xs)

waiting-stored : (t : Tables) → t.activation_responses ≡ [] → waiting t ≡ stored t
waiting-stored t e = rw e (
    ap
      (λ rows.
        map request_from_activation_row rows
        ++ map request_from_deactivation_row t.deactivation_requests)
      (keep-all t.activation_requests))

-- The requests of distinct rows are apart.
activations-Apart :
    (rows : List ActivationRequestRow)
    → Unique (λ r. r.activation_key) rows
    → All IsStored rows
    → Pairwise Apart (map request_from_activation_row rows)
unfolding request_from_activation_row
activations-Apart [] u h = tt
activations-Apart (x ∷ xs) (n, u) (s, h) = (
  All-map (Apart (request_from_activation_row x)) request_from_activation_row xs (
      All-both xs (λ y differs stored e p. differs (sym (sym (row-key x s) ∙ p ∙ row-key y stored)))
        n h),
  activations-Apart xs u h,
)

deactivation_row-key :
    (x : DeactivationRequestRow)
    → IsStoredDeactivation x
    → deactivation_id (request_from_deactivation_row x) ≡ x.deactivation_key
unfolding deactivation_request_row
deactivation_row-key x s = sym (ap (λ r. r.deactivation_key) s)

deactivations-Apart :
    (rows : List DeactivationRequestRow)
    → Unique (λ r. r.deactivation_key) rows
    → All IsStoredDeactivation rows
    → Pairwise Apart (map request_from_deactivation_row rows)
unfolding request_from_deactivation_row
deactivations-Apart [] u h = tt
deactivations-Apart (x ∷ xs) (n, u) (s, h) = (
  All-map (Apart (request_from_deactivation_row x)) request_from_deactivation_row xs (
      All-both xs
        (λ y differs stored e p.
          differs (sym (sym (deactivation_row-key x s) ∙ p ∙ deactivation_row-key y stored)))
        n h),
  deactivations-Apart xs u h,
)

Unique-keep :
    {R : Type 0} (col : R → String) (p : R → Bool) (rows : List R)
    → Unique col rows
    → Unique col (keep p rows)
Unique-keep col p [] u = tt
Unique-keep col p (x ∷ xs) (n, u) = go (p x) (Unique-keep col p xs u)
  where
    go : (b : Bool) → Unique col (keep p xs) → Unique col (if b then x ∷ keep p xs else keep p xs)
    go true rest = (All-keep (λ y. col y ≢ col x) p xs n, rest)
    go false rest = rest

kinds-Apart :
    (x : ActivationRequestRow) (y : DeactivationRequestRow)
    → Apart (request_from_activation_row x) (request_from_deactivation_row y)
unfolding request_from_activation_row request_from_deactivation_row
kinds-Apart x y e = cc

module _ (t : Tables) (w : IsWellFormed t) where
  -- The stored activations that wait.
  abbrev unanswered : List ActivationRequestRow
  unanswered = keep (λ r. not (is_answered t r)) t.activation_requests

  pub waiting-Apart : Pairwise Apart (sort_by (λ r. r.timestamp) (waiting t))
  waiting-Apart =
      sort_by-Pairwise Apart (λ r. r.timestamp) (λ x y apart e p. apart (sym e) (sym p)) (waiting t)
        (Pairwise-append Apart _ _
          (activations-Apart unanswered
            (Unique-keep (λ r. r.activation_key) _ t.activation_requests w.activation_requests)
            (All-keep IsStored _ t.activation_requests w.stored))
          (deactivations-Apart t.deactivation_requests w.deactivation_requests
            w.stored_deactivations)
          (All-map (λ q. All (Apart q) (map request_from_deactivation_row t.deactivation_requests))
            request_from_activation_row unanswered (across unanswered)))
    where
      others :
          (x : ActivationRequestRow) (ys : List DeactivationRequestRow)
          → All (Apart (request_from_activation_row x)) (map request_from_deactivation_row ys)
      others x [] = tt
      others x (y ∷ ys) = (kinds-Apart x y, others x ys)

      across :
          (xs : List ActivationRequestRow)
          → All
              (λ x.
                All
                  (Apart (request_from_activation_row x))
                  (map request_from_deactivation_row t.deactivation_requests))
              xs
      across [] = tt
      across (x ∷ xs) = (others x t.deactivation_requests, across xs)

  abbrev IsReadAgain : Request → Type 0
  IsReadAgain q = IsRead q.kind q

  waiting-IsRead : All IsReadAgain (sort_by (λ r. r.timestamp) (waiting t))
  unfolding request_from_activation_row request_from_deactivation_row
  waiting-IsRead =
      All-sort_by (λ r. r.timestamp) IsReadAgain (waiting t)
        (All-append IsReadAgain _ _
          (All-map IsReadAgain request_from_activation_row unanswered (
            All-both unanswered (λ x s same. ap request_from_activation_row (sym s))
              (All-keep IsStored _ t.activation_requests w.stored)
              (All-keep IsStored _ t.activation_requests w.stored)))
          (All-map IsReadAgain request_from_deactivation_row t.deactivation_requests (
            All-both t.deactivation_requests (λ x s same. ap request_from_deactivation_row (sym s))
              w.stored_deactivations w.stored_deactivations)))

IsNew-empty : (reqs : List Request) → All (λ q. IsNew q.kind empty q) reqs
IsNew-empty [] = tt
IsNew-empty (q ∷ qs) = (go q.kind, IsNew-empty qs)
  where
    go : (k : Kind) → IsNew k empty q
    go activation = tt
    go deactivation = tt

-- The requests that wait in them are those that were exported.
pub written-waiting :
    (t : Tables)
    → IsWellFormed t
    → Perm (waiting (exported (sort_by (λ r. r.timestamp) (waiting t)) empty)) (waiting t)
written-waiting t w =
    let reqs = sort_by (λ r. r.timestamp) (waiting t) in
    rw (waiting-stored (exported reqs empty) (exported-responses reqs empty)) (
      Perm.trans
        (subst (Perm (stored (exported reqs empty))) (append-nil reqs)
          (stored-exported reqs empty (waiting-IsRead t w) (waiting-Apart t w) (IsNew-empty reqs)))
        (sort_by-perm (λ r. r.timestamp) (waiting t)))
