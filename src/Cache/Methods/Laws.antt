-- ===== src/Cache/Methods/Laws.antt =====
-- The methods of a cache whose database works, in terms of its tables.
use mathlib.Core.Path.{subst}
use frl_online_proxy.Prelude.{String, ◌≡◌, refl, sym, ap, ◌∙◌, true, some, arith, if◌then◌else◌}
use frl_online_proxy.Outcome.{Outcome, ok, err, panic, Report}
use frl_online_proxy.Http.{utf8}
use frl_online_proxy.Settings.{ProxyMode}
use frl_online_proxy.Cops.{Kind, activation, deactivation, Request, Response}
use frl_online_proxy.Cache.Tables.{Tables}
use frl_online_proxy.Cache.Engine.{Conn, Db, IsHealthy}
use frl_online_proxy.Cache.Engine.Laws.{Writes}
use frl_online_proxy.Cache.Store.{
  activation_request_row, deactivation_request_row, insert_activation_request,
  insert_deactivation_request,
}
use frl_online_proxy.Cache.Store.Atomic.{
  answered_activation, answered_deactivation, store_activation_request-Writes,
  store_deactivation_request-Writes, store_activation_response-Writes,
  store_deactivation_response-Writes,
}
use frl_online_proxy.Cache.Fetch.Answers.{held, fetch_activation_response_lem}
use frl_online_proxy.Cache.Open.{Cache, on_pool}
use frl_online_proxy.Cache.Methods.{
  logged, request_action, response_action, store_request, store_response, fetch_response,
}

-- The cache is enabled on a database that works and holds the tables `t`.
pub record IsLive (self : Cache) (t : Tables) : Type 0 where
  pub on : self.enabled ≡ true
  pub pool : Conn
  pub is_pool : self.db_pool ≡ some pool
  pub healthy : IsHealthy pool
  pub holds : pool.tables ≡ t

-- What storing a request, or its response, does to the tables.
abbrev pub requested : Kind → Request → Tables → Tables
requested activation req = insert_activation_request (activation_request_row req)
requested deactivation req = insert_deactivation_request (deactivation_request_row req)

abbrev pub answered : Kind → ProxyMode → Request → String → Tables → Tables
answered activation = answered_activation
answered deactivation = answered_deactivation

pub request_action-Writes :
    (kind : Kind) (req : Request) → Writes (requested kind req) (request_action kind req)
request_action-Writes activation req = store_activation_request-Writes req
request_action-Writes deactivation req = store_deactivation_request-Writes req

response_action-Writes :
    (kind : Kind) (mode : ProxyMode) (req : Request) (resp : Response) (text : String)
    → resp.body ≡ utf8 text
    → Writes (answered kind mode req text) (response_action kind mode req resp)
response_action-Writes activation mode req resp text e =
    store_activation_response-Writes mode req resp text e
response_action-Writes deactivation mode req resp text e =
    store_deactivation_response-Writes mode req resp text e

-- A call has returned, and left the cache live on tables, in the same mode.
abbrev pub Leaves : Cache → Tables → Outcome Report (Unit {0}) × Cache → Type 0
Leaves self t r = (r.0 ≡ ok tt) × IsLive r.1 t × (r.1.mode ≡ self.mode)

-- A write on the pool of a live cache.
on_pool-live :
    {f : Tables → Tables} {m : Db (Unit {0})} {self : Cache} {t : Tables}
    → Writes f m
    → IsLive self t
    → Leaves self (f t) (on_pool m self)
on_pool-live {f} {m} {self} {t} w l =
    let (returned, healthy) = w.runs.healthy l.pool l.healthy in
    rw l.is_pool (
      returned,
      record {
        on = l.on;
        pool = (m l.pool).1;
        is_pool = refl;
        healthy = healthy;
        holds = w.runs.done l.pool returned ∙ ap f l.holds;
      },
      refl,
    )

logged-ok : {A : Type 0} (d a : A) (r : Outcome Report A × Cache) → r.0 ≡ ok a → logged d r ≡ r
logged-ok d a (ok b, self) e = refl
logged-ok d a (err x, self) e = cc
logged-ok d a (panic, self) e = refl

enabled-if :
    {A : Type 0} (self : Cache) (x y : A)
    → self.enabled ≡ true
    → (if self.enabled then x else y) ≡ x
enabled-if self x y e = ground arith

module _ {self : Cache} {t : Tables} (l : IsLive self t) where
  pub store_request-live :
      (req : Request) → Leaves self (requested req.kind req t) (store_request req self)
  unfolding store_request
  store_request-live req =
      let done = on_pool-live (request_action-Writes req.kind req) l in
      subst (Leaves self (requested req.kind req t))
        (sym (enabled-if self _ _ l.on ∙ logged-ok tt tt _ done.0)) done

  pub store_response-live :
      (req : Request) (resp : Response) (text : String)
      → resp.body ≡ utf8 text
      → Leaves self (answered req.kind self.mode req text t) (store_response req resp self)
  unfolding store_response
  store_response-live req resp text e =
      let done = on_pool-live (response_action-Writes req.kind self.mode req resp text e) l in
      subst (Leaves self (answered req.kind self.mode req text t))
        (sym (enabled-if self _ _ l.on ∙ logged-ok tt tt _ done.0)) done

  pub fetch_response-live :
      (req : Request) → req.kind ≡ activation → (fetch_response req self).0 ≡ ok (held t req)
  unfolding fetch_response
  fetch_response-live req kind =
      let fetched =
        fetch_activation_response_lem req l.pool l.healthy ∙ ap (λ t. ok (held t req)) l.holds in
      ground (arith, fetched, l.on, l.is_pool)

-- Storing a request does not change what the cache answers.
pub held-requested :
    (kind : Kind) (req r : Request) (t : Tables) → held (requested kind req t) r ≡ held t r
held-requested activation req r t = refl
held-requested deactivation req r t = refl
