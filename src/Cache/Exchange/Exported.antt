-- ===== src/Cache/Exchange/Exported.antt =====
-- What an export writes, request by request.
pub mod Written
pub mod Complete
use frl_online_proxy.Prelude.{
  ◌≡◌, ◌≢◌, refl, sym, ap, ◌∙◌, String, not, List, [], ◌∷◌, ◌++◌, map, keep, All, All-both, arith,
  ◌==◌, eq_iff, Perm, Pairwise,
}
use mathlib.Core.Path.{subst}
use mathlib.Core.List.{append_assoc, append-nil, perm_middle}
use mathlib.Core.List.Perm
use frl_online_proxy.Cops.{Kind, activation, deactivation, Request}
use frl_online_proxy.Cache.Keys.{activation_id, deactivation_id}
use frl_online_proxy.Cache.Tables.{Tables, delete_where, insert_or_replace}
use frl_online_proxy.Cache.Tables.Laws.{insert-All}
use frl_online_proxy.Cache.Store.{activation_request_row, deactivation_request_row}
use frl_online_proxy.Cache.Fetch.{request_from_activation_row, request_from_deactivation_row}
use frl_online_proxy.Cache.Methods.Laws.{requested}

-- The key of the row in which a request is stored.
abbrev pub row_key : Kind → Request → String
row_key activation req = activation_id req
row_key deactivation req = deactivation_id req

-- Two requests are not stored in one row.
abbrev pub Apart : Request → Request → Type 0
Apart x y = x.kind ≡ y.kind → row_key x.kind x ≢ row_key y.kind y

-- All requests of the tables.
abbrev pub stored : Tables → List Request
stored t =
    map request_from_activation_row t.activation_requests
    ++ map request_from_deactivation_row t.deactivation_requests

-- A request that is read as it was stored.
abbrev pub IsRead : Kind → Request → Type 0
IsRead activation req = request_from_activation_row (activation_request_row req) ≡ req
IsRead deactivation req = request_from_deactivation_row (deactivation_request_row req) ≡ req

-- No row of the tables is the request's.
abbrev pub IsNew : Kind → Tables → Request → Type 0
IsNew activation t req = All (λ r. r.activation_key ≢ activation_id req) t.activation_requests
IsNew deactivation t req =
    All (λ r. r.deactivation_key ≢ deactivation_id req) t.deactivation_requests

-- The tables after requests have been stored.
abbrev pub exported : List Request → Tables → Tables
exported [] t = t
exported (req ∷ reqs) t = exported reqs (requested req.kind req t)

module _ {R : Type 0} (col : R → String) where
  delete-absent :
      (k : String) (rows : List R) → All (λ r. col r ≢ k) rows → delete_where col k rows ≡ rows
  unfolding delete_where
  delete-absent k [] h = refl
  delete-absent k (x ∷ xs) (n, h) = ground (arith, delete-absent k xs h, eq_iff (col x) k)

  insert-new :
      (row : R) (rows : List R)
      → All (λ r. col r ≢ col row) rows
      → insert_or_replace col row rows ≡ rows ++ row ∷ []
  unfolding insert_or_replace
  insert-new row rows h = ap (λ l. l ++ row ∷ []) (delete-absent (col row) rows h)

map-append : {A B : Type 0} (f : A → B) (xs ys : List A) → map f (xs ++ ys) ≡ map f xs ++ map f ys
map-append f [] ys = refl
map-append f (x ∷ xs) ys = ap (λ l. f x ∷ l) (map-append f xs ys)

module _ {R : Type 0} (read : R → Request) (rows : List R) (row : R) (req : Request)
    (same : read row ≡ req) where
  read-append : map read (rows ++ row ∷ []) ≡ map read rows ++ req ∷ []
  read-append = map-append read rows (row ∷ []) ∙ ap (λ r. map read rows ++ r ∷ []) same

  added_first :
      (others : List Request)
      → Perm (map read (rows ++ row ∷ []) ++ others) (req ∷ (map read rows ++ others))
  added_first others =
      subst (λ l. Perm l (req ∷ (map read rows ++ others)))
        (sym (ap (λ l. l ++ others) read-append ∙ append_assoc (map read rows) (req ∷ []) others))
        (perm_middle (map read rows) others)

  added_last :
      (others : List Request)
      → Perm (others ++ map read (rows ++ row ∷ [])) (req ∷ (others ++ map read rows))
  added_last others =
      subst (λ l. Perm (others ++ l) (req ∷ (others ++ map read rows))) (sym read-append)
        (subst (λ l. Perm l (req ∷ (others ++ map read rows)))
          (append_assoc others (map read rows) (req ∷ []))
          (subst (λ l. Perm ((others ++ map read rows) ++ req ∷ []) (req ∷ l))
            (append-nil (others ++ map read rows)) (perm_middle (others ++ map read rows) [])))

-- A new request is stored beside the others.
stored-requested :
    (kind : Kind) (req : Request) (t : Tables)
    → IsRead kind req
    → IsNew kind t req
    → Perm (stored (requested kind req t)) (req ∷ stored t)
unfolding activation_request_row deactivation_request_row
stored-requested activation req t read new =
    rw (insert-new (λ r. r.activation_key) (activation_request_row req) t.activation_requests new) (
      added_first request_from_activation_row t.activation_requests (activation_request_row req) req
        read _)
stored-requested deactivation req t read new =
    rw
      (insert-new (λ r. r.deactivation_key) (deactivation_request_row req) t.deactivation_requests
        new)
      (added_last request_from_deactivation_row t.deactivation_requests
        (deactivation_request_row req) req read _)

IsNew-requested :
    (kind : Kind) (req y : Request) (t : Tables) (k : Kind)
    → (kind ≡ k → row_key kind req ≢ row_key k y)
    → IsNew k t y
    → IsNew k (requested kind req t) y
unfolding activation_request_row deactivation_request_row
IsNew-requested activation req y t activation apart h =
    insert-All (λ r. r.activation_key) (λ r. r.activation_key ≢ activation_id y) _ _ (apart refl) h
IsNew-requested activation req y t deactivation apart h = h
IsNew-requested deactivation req y t activation apart h = h
IsNew-requested deactivation req y t deactivation apart h =
    insert-All (λ r. r.deactivation_key) (λ r. r.deactivation_key ≢ deactivation_id y) _ _
      (apart refl) h

news :
    (req : Request) (t : Tables) (reqs : List Request)
    → All (Apart req) reqs
    → All (λ y. IsNew y.kind t y) reqs
    → All (λ y. IsNew y.kind (requested req.kind req t) y) reqs
news req t reqs = All-both reqs (λ y apart new. IsNew-requested req.kind req y t y.kind apart new)

-- Requests of which no two share a row, and none has a row yet, are stored beside the others.
pub stored-exported :
    (reqs : List Request) (t : Tables)
    → All (λ y. IsRead y.kind y) reqs
    → Pairwise Apart reqs
    → All (λ y. IsNew y.kind t y) reqs
    → Perm (stored (exported reqs t)) (reqs ++ stored t)
stored-exported [] t read apart new = Perm.refl (stored t)
stored-exported (req ∷ reqs) t (read, reads) (apart, aparts) (new, rest) =
    Perm.trans
      (stored-exported reqs (requested req.kind req t) reads aparts (news req t reqs apart rest))
      (Perm.trans (Perm.append (Perm.refl reqs) (stored-requested req.kind req t read new))
        (perm_middle reqs (stored t)))
