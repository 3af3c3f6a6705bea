-- ===== src/Cache/Fetch/Forwarded.antt =====
-- Which pairs a forwarder's database has for an import.
use mathlib.Core.List.{Mem, Memᴰ}
use mathlib.Core.List.Perm
use mathlib.Core.Logic.{∥∥₁_map}
use mathlib.Core.Path.{subst}
use frl_online_proxy.Prelude.{
  ◌≡◌, refl, sym, ap, ◌∙◌, String, Bool, true, false, if◌then◌else◌, List, [], ◌∷◌, ◌++◌, map, keep,
  arith, ◌==◌, eq_iff, sort_by, sort_by-perm,
}
use frl_online_proxy.Outcome.{ok}
use frl_online_proxy.Http.{utf8}
use frl_online_proxy.Settings.{forward}
use frl_online_proxy.Cops.{activation, Request, Response}
use frl_online_proxy.Cache.Keys.{activation_id}
use frl_online_proxy.Cache.Tables.{Tables, insert_or_replace}
use frl_online_proxy.Cache.Engine.{Conn, IsHealthy, step, query}
use frl_online_proxy.Cache.Store.{
  activation_request_row, activation_response_row, store_activation_response,
}
use frl_online_proxy.Cache.Store.Atomic.{answered_activation, store_activation_response-Writes}
use frl_online_proxy.Cache.Fetch.{
  respond, inner_join, matches, activation_pair, deactivation_pair, request_from_activation_row,
  response_from_activation_row, fetch_forwarded_activations, fetch_forwarded_deactivations,
  fetch_forwarded_pairs,
}

module _ {A : Type 0} where
  append_left-Memᴰ : {a : A} (xs ys : List A) → Memᴰ a xs → Memᴰ a (xs ++ ys)
  append_left-Memᴰ [] ys m = elim m [ ]
  append_left-Memᴰ (x ∷ xs) ys (Memᴰ.head e) = Memᴰ.head e
  append_left-Memᴰ (x ∷ xs) ys (Memᴰ.tail m) = Memᴰ.tail (append_left-Memᴰ xs ys m)

  append_right-Memᴰ : {a : A} (xs ys : List A) → Memᴰ a ys → Memᴰ a (xs ++ ys)
  append_right-Memᴰ [] ys m = m
  append_right-Memᴰ (x ∷ xs) ys m = Memᴰ.tail (append_right-Memᴰ xs ys m)

  keep-Memᴰ : (p : A → Bool) {a : A} (xs : List A) → p a ≡ true → Memᴰ a xs → Memᴰ a (keep p xs)
  keep-Memᴰ p [] h m = elim m [ ]
  keep-Memᴰ p (x ∷ xs) h (Memᴰ.head e) = rw (ap p (sym e) ∙ h) (Memᴰ.head e)
  keep-Memᴰ p (x ∷ xs) h (Memᴰ.tail m) = under (p x) (keep-Memᴰ p xs h m)
    where
      under : {a : A} {ys : List A} (b : Bool) → Memᴰ a ys → Memᴰ a (if b then x ∷ ys else ys)
      under true k = Memᴰ.tail k
      under false k = k

module _ {A B : Type 0} where
  map-Memᴰ : (f : A → B) {a : A} (xs : List A) → Memᴰ a xs → Memᴰ (f a) (map f xs)
  map-Memᴰ f [] m = elim m [ ]
  map-Memᴰ f (x ∷ xs) (Memᴰ.head e) = Memᴰ.head (ap f e)
  map-Memᴰ f (x ∷ xs) (Memᴰ.tail m) = Memᴰ.tail (map-Memᴰ f xs m)

module _ {A B : Type 0} where
  inner_join-Memᴰ :
      (agree : A → B → Bool) {a : A} {b : B} (xs : List A) (bs : List B)
      → agree a b ≡ true
      → Memᴰ a xs
      → Memᴰ b bs
      → Memᴰ (a, b) (inner_join agree xs bs)
  unfolding inner_join
  inner_join-Memᴰ agree [] bs h k m = elim k [ ]
  inner_join-Memᴰ agree {a} {b} (x ∷ xs) bs h (Memᴰ.head e) m = append_left-Memᴰ _ _ (
      subst (λ y. Memᴰ (a, b) (matches agree y bs)) e
        (map-Memᴰ (λ y. (a, y)) _ (keep-Memᴰ (agree a) bs h m)))
  inner_join-Memᴰ agree (x ∷ xs) bs h (Memᴰ.tail k) m =
      append_right-Memᴰ (matches agree x bs) _ (inner_join-Memᴰ agree xs bs h k m)

-- The pairs of a database.
abbrev pub joined : Tables → List (Request × Response)
joined t =
    map activation_pair (
      inner_join (λ a b. a.activation_key == b.activation_key) t.activation_requests
        t.activation_responses)
    ++ map deactivation_pair (
        inner_join (λ a b. a.deactivation_key == b.deactivation_key) t.deactivation_requests
          t.deactivation_responses)

fetch_forwarded_pairs_lem :
    (c : Conn)
    → IsHealthy c
    → (fetch_forwarded_pairs c).0 ≡ ok (sort_by (λ p. p.0.timestamp) (joined c.tables))
unfolding fetch_forwarded_pairs fetch_forwarded_activations fetch_forwarded_deactivations query step
fetch_forwarded_pairs_lem c h = ground arith

collected-joined :
    (req : Request) (body : String) (t : Tables)
    → Memᴰ (activation_request_row req) t.activation_requests
    → Memᴰ
        (activation_pair (activation_request_row req, activation_response_row req body))
        (joined (answered_activation forward req body t))
unfolding insert_or_replace activation_request_row
collected-joined req body t m = append_left-Memᴰ _ _ (
    map-Memᴰ activation_pair _ (
      inner_join-Memᴰ (λ a b. a.activation_key == b.activation_key) _ _
        (ground (arith, (eq_iff (activation_id req) (activation_id req)).1 refl)) m
        (append_right-Memᴰ _ _ (Memᴰ.head refl))))

activation_pair_lem :
    (req : Request) (body : String)
    → req.kind ≡ activation
    → activation_pair (activation_request_row req, activation_response_row req body)
      ≡ (req, respond req req.timestamp body)
unfolding activation_request_row request_from_activation_row response_from_activation_row
activation_pair_lem req body kind = ground arith

-- An activation that is stored, and whose response, in UTF-8, a forwarder has stored, is among the pairs
-- that an import reads, with the body of the response and under the request's own id and time.
pub fetch_forwarded_pairs-Mem :
    (req : Request) (resp : Response) (body : String) (c : Conn)
    → req.kind ≡ activation
    → resp.body ≡ utf8 body
    → Mem (activation_request_row req) c.tables.activation_requests
    → (store_activation_response forward req resp c).0 ≡ ok tt
    → IsHealthy (store_activation_response forward req resp c).1
    → (l : List (Request × Response)) × ((fetch_forwarded_pairs
          (store_activation_response forward req resp c).1).0
        ≡ ok l)
      × Mem (req, respond req req.timestamp body) l
fetch_forwarded_pairs-Mem req resp body c kind text stored returned h =
    let w = store_activation_response-Writes forward req resp body text in
    (
      sort_by (λ p. p.0.timestamp) (joined (store_activation_response forward req resp c).1.tables),
      fetch_forwarded_pairs_lem _ h,
      (Perm.mem_iff (sort_by-perm _ _)).1 (
          rw (w.runs.done c returned) (
            ∥∥₁_map stored λ m.
              subst (λ p. Memᴰ p (joined (answered_activation forward req body c.tables)))
                (activation_pair_lem req body kind) (collected-joined req body c.tables m))),
    )
