-- ===== src/Cache/Invariant/Revocation.antt =====
-- A deactivation that is answered outside forward mode takes back the cached activations.
use frl_online_proxy.Prelude.{
  String, ◌≡◌, ◌≢◌, refl, sym, ap, ◌∙◌, none, List, [], ◌∷◌, All, arith, eq_iff,
}
use frl_online_proxy.Outcome.{ok}
use frl_online_proxy.Settings.{ProxyMode, forward}
use frl_online_proxy.Cops.{Request, Response}
use frl_online_proxy.Cache.Keys.{activation_id, deactivation_id, IsPlain, activation_id-eq_iff}
use frl_online_proxy.Cache.Tables.{ActivationResponseRow, Tables, select_where, delete_where}
use frl_online_proxy.Cache.Engine.{Conn, IsHealthy}
use frl_online_proxy.Cache.Store.{store_deactivation_response}
use frl_online_proxy.Cache.Store.Atomic.{
  answered_deactivation, store_deactivation_response_live-Writes,
}
use frl_online_proxy.Cache.Fetch.{fetch_activation_response}
use frl_online_proxy.Cache.Fetch.Answers.{held, fetch_activation_response_lem}
use frl_online_proxy.Cache.Invariant.{IsKeyed, IsWellFormed}

-- A row under a request's activation key has the request's deactivation key.
pub keyed_row :
    (row : ActivationResponseRow) (r : Request)
    → IsPlain r
    → IsKeyed row.activation_key row.deactivation_key
    → row.activation_key ≡ activation_id r
    → row.deactivation_key ≡ deactivation_id r
keyed_row row r p (s, q, a, d) e = d ∙ ((activation_id-eq_iff s r q p).0 (sym a ∙ e)).2

select-delete_keyed :
    (r : Request) (rows : List ActivationResponseRow)
    → IsPlain r
    → All (λ x. IsKeyed x.activation_key x.deactivation_key) rows
    → select_where
        (λ x. x.activation_key)
        (activation_id r)
        (delete_where (λ x. x.deactivation_key) (deactivation_id r) rows)
      ≡ none
unfolding select_where delete_where
select-delete_keyed r [] p h = refl
select-delete_keyed r (x ∷ xs) p (k, h) = ground (
  arith,
  select-delete_keyed r xs p h,
  keyed_row x r p k,
  eq_iff x.activation_key (activation_id r),
  eq_iff x.deactivation_key (deactivation_id r),
)

pub held-revoked :
    (mode : ProxyMode) (req r : Request) (body : String) (t : Tables)
    → mode ≢ forward
    → IsWellFormed t
    → IsPlain r
    → deactivation_id req ≡ deactivation_id r
    → held (answered_deactivation mode req body t) r ≡ none
held-revoked forward req r body t live w p e = absurd (live refl)
held-revoked _ req r body t live w p e =
    rw e (ground (arith, select-delete_keyed r t.activation_responses p w.keyed))

-- Once a deactivation's response has been stored in a mode other than forward, the cache answers no
-- activation of the same package and device: of well-formed tables, and for requests whose
-- application ids and library versions have no `|`.
pub fetch-store_deactivation_response :
    (mode : ProxyMode) (req r : Request) (resp : Response) (c : Conn)
    → mode ≢ forward
    → IsWellFormed c.tables
    → IsPlain r
    → deactivation_id req ≡ deactivation_id r
    → (store_deactivation_response mode req resp c).0 ≡ ok tt
    → IsHealthy (store_deactivation_response mode req resp c).1
    → (fetch_activation_response r (store_deactivation_response mode req resp c).1).0 ≡ ok none
fetch-store_deactivation_response mode req r resp c live w p e stored h =
    let writes = store_deactivation_response_live-Writes mode req resp "" live in
    fetch_activation_response_lem r _ h
    ∙ ap (λ t. ok (held t r)) (writes.runs.done c stored)
    ∙ ap ok (held-revoked mode req r "" c.tables live w p e)
