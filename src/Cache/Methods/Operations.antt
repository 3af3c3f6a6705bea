-- ===== src/Cache/Methods/Operations.antt =====
-- The methods of the cache as operations on its connection, with the faults that these meet.
use mathlib.Core.Path.{subst}
use frl_online_proxy.Prelude.{
  ◌≡◌, refl, sym, ap, ◌∙◌, Bool, true, false, none, some, arith, if◌then◌else◌,
}
use frl_online_proxy.Outcome.{ok}
use frl_online_proxy.Settings.{ProxyMode}
use frl_online_proxy.Cops.{Kind, activation, deactivation, Request, Response}
use frl_online_proxy.Cache.Engine.{Conn, Db}
use frl_online_proxy.Cache.Invariant.Histories.{
  Op, activation_request, deactivation_request, activation_response, deactivation_response, lookup,
  run,
}
use frl_online_proxy.Cache.Open.{Cache, on_pool}
use frl_online_proxy.Cache.Methods.{
  logged, request_action, response_action, fetch_action, store_request, store_response,
  fetch_response,
}
use frl_online_proxy.Cache.Methods.Keeping.{logged-state}

abbrev pub request_op : Kind → Request → Op
request_op activation req = activation_request req
request_op deactivation req = deactivation_request req

abbrev pub response_op : Kind → ProxyMode → Request → Response → Op
response_op activation mode req resp = activation_response mode req resp
response_op deactivation mode req resp = deactivation_response mode req resp

-- The cache is enabled in a mode, on a connection.
pub record IsOn (self : Cache) (c : Conn) (mode : ProxyMode) : Type 0 where
  pub enabled : self.enabled ≡ true
  pub pool : self.db_pool ≡ some c
  pub in_mode : self.mode ≡ mode

on_pool-IsOn :
    {A : Type 0} (m : Db A) {self : Cache} {c : Conn} {mode : ProxyMode}
    → IsOn self c mode
    → IsOn (on_pool m self).1 (m c).1 mode
on_pool-IsOn m {self} {c} o = record {
  enabled = ground (arith, o.pool);
  pool = ground (arith, o.pool);
  in_mode = ground (arith, o.pool);
}

method-IsOn :
    {A : Type 0} (d : A) (m : Db A) {self : Cache} {c : Conn} {mode : ProxyMode}
    → IsOn self c mode
    → IsOn (if self.enabled then logged d (on_pool m self) else (ok d, self)).1 (m c).1 mode
method-IsOn d m {self} {c} {mode} o = go self.enabled o.enabled
  where
    go :
        (b : Bool)
        → b ≡ true
        → IsOn (if b then logged d (on_pool m self) else (ok d, self)).1 (m c).1 mode
    go true e =
        subst (λ x. IsOn x (m c).1 mode) (sym (logged-state d (on_pool m self))) (on_pool-IsOn m o)
    go false e = absurd (ground arith)

request_action-run :
    (kind : Kind) (req : Request) → request_action kind req ≡ run (request_op kind req)
unfolding run
request_action-run activation req = refl
request_action-run deactivation req = refl

response_action-run :
    (kind : Kind) (mode : ProxyMode) (req : Request) (resp : Response)
    → response_action kind mode req resp ≡ run (response_op kind mode req resp)
unfolding run
response_action-run activation mode req resp = refl
response_action-run deactivation mode req resp = refl

fetch_action-run :
    (kind : Kind) (req : Request) (c : Conn)
    → (fetch_action kind req c).1 ≡ (run (lookup kind req) c).1
unfolding run
fetch_action-run activation req c = ground arith
fetch_action-run deactivation req c = ground arith

module _ {self : Cache} {c : Conn} {mode : ProxyMode} (o : IsOn self c mode) where
  pub store_request-IsOn :
      (req : Request) → IsOn (store_request req self).1 (run (request_op req.kind req) c).1 mode
  unfolding store_request
  store_request-IsOn req =
      subst (λ (m : Db (Unit {0})). IsOn (store_request req self).1 (m c).1 mode)
        (request_action-run req.kind req) (method-IsOn tt (request_action req.kind req) o)

  pub store_response-IsOn :
      (req : Request) (resp : Response)
      → IsOn (store_response req resp self).1 (run (response_op req.kind mode req resp) c).1 mode
  unfolding store_response
  store_response-IsOn req resp =
      subst (λ (m : Db (Unit {0})). IsOn (store_response req resp self).1 (m c).1 mode)
        (ap (λ k. response_action req.kind k req resp) o.in_mode
          ∙ response_action-run req.kind mode req resp)
        (method-IsOn tt (response_action req.kind self.mode req resp) o)

  pub fetch_response-IsOn :
      (req : Request) → IsOn (fetch_response req self).1 (run (lookup req.kind req) c).1 mode
  unfolding fetch_response
  fetch_response-IsOn req =
      subst (λ d. IsOn (fetch_response req self).1 d mode) (fetch_action-run req.kind req c)
        (method-IsOn none (fetch_action req.kind req) o)
