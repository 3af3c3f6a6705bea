-- ===== src/Cache/Methods/Keeping.antt =====
-- The methods of the cache keep what every operation on the tables keeps, whatever fails.
use mathlib.Core.Path.{subst}
use frl_online_proxy.Prelude.{
  ◌≡◌, refl, sym, Bool, true, false, Option, none, some, [], arith, if◌then◌else◌,
}
use frl_online_proxy.Outcome.{Outcome, ok, err, panic, Report}
use frl_online_proxy.Exec.{Keeps}
use frl_online_proxy.Settings.{ProxyMode}
use frl_online_proxy.Cops.{Kind, activation, deactivation, Request, Response}
use frl_online_proxy.Cache.Keys.{IsPlain}
use frl_online_proxy.Cache.Engine.{Conn, Db, step, query}
use frl_online_proxy.Cache.Tables.{Tables}
use frl_online_proxy.Cache.Invariant.{IsWellFormed}
use frl_online_proxy.Cache.Invariant.Clean.{IsClean, IsPlainOp, IsPlainOp-HasPlain, run-IsClean}
use frl_online_proxy.Cache.Invariant.Histories.{
  Op, activation_request, deactivation_request, activation_response, deactivation_response, run,
  run-Keeps,
}
use frl_online_proxy.Cache.Fetch.{
  fetch_unanswered_activations, fetch_unanswered_deactivations, fetch_unanswered_requests,
}
use frl_online_proxy.Cache.Fetch.Answers.{
  fetch_activation_response-tables, fetch_deactivation_response-tables,
}
use frl_online_proxy.Cache.Open.{Cache, on_pool}
use frl_online_proxy.Cache.Methods.{
  logged, request_action, response_action, fetch_action, store_request, store_response,
  fetch_response, fetch_forwarding_requests,
}

-- A predicate of the tables that every operation with plain requests keeps.
pub record IsKept (P : Tables → Type 0) : Type 0 where
  pub run : (op : Op) → IsPlainOp op → (c : Conn) → P c.tables → P (run op c).1.tables

-- The tables of the pool, if there is one, obey `P`.
abbrev InPool : (Tables → Type 0) → Option Conn → Type 0
InPool P none = Unit
InPool P (some c) = P c.tables

abbrev pub Holds : (Tables → Type 0) → Cache → Type 0
Holds P self = InPool P self.db_pool

-- The tables of the pool, if there is one, are well formed.
abbrev pub HasWellFormed : Cache → Type 0
HasWellFormed = Holds IsWellFormed

pub logged-state : {A : Type 0} (d : A) (r : Outcome Report A × Cache) → (logged d r).1 ≡ r.1
logged-state d (ok a, self) = refl
logged-state d (err e, self) = refl
logged-state d (panic, self) = refl

-- What the methods of the cache keep.
pub record KeptByMethods (P : Cache → Type 0) : Type 0 where
  pub store_request : (req : Request) → IsPlain req → Keeps P (store_request req)
  pub store_response :
      (req : Request) (resp : Response) → IsPlain req → Keeps P (store_response req resp)
  pub fetch_response : (req : Request) → Keeps P (fetch_response req)
  pub fetch_forwarding_requests : Keeps P fetch_forwarding_requests

pub unanswered-tables : (c : Conn) → (fetch_unanswered_requests c).1.tables ≡ c.tables
unfolding fetch_unanswered_requests fetch_unanswered_activations fetch_unanswered_deactivations
    query step
unanswered-tables c = ground arith

module _ (P : Tables → Type 0) where
  -- A function of the database keeps `P`.
  abbrev pub KeepsTables : {A : Type 0} → Db A → Type 0
  KeepsTables m = (c : Conn) → P c.tables → P (m c).1.tables

  pub on_pool-Holds :
      {A : Type 0} (m : Db A) (self : Cache)
      → KeepsTables m
      → Holds P self
      → Holds P (on_pool m self).1
  on_pool-Holds m self k h = go self.db_pool refl h
    where
      go : (o : Option Conn) → self.db_pool ≡ o → InPool P o → Holds P (on_pool m self).1
      go none e p =
          let same : (on_pool m self).1.db_pool ≡ none = ground arith in
          subst (InPool P) (sym same) tt
      go (some c) e p =
          let after : (on_pool m self).1.db_pool ≡ some (m c).1 = ground arith in
          subst (InPool P) (sym after) (k c p)

  method-Holds :
      {A : Type 0} (d : A) (m : Db A) (self : Cache)
      → KeepsTables m
      → Holds P self
      → Holds P (if self.enabled then logged d (on_pool m self) else (ok d, self)).1
  method-Holds d m self k h = go self.enabled
    where
      go : (b : Bool) → Holds P (if b then logged d (on_pool m self) else (ok d, self)).1
      go true = subst (Holds P) (sym (logged-state d (on_pool m self))) (on_pool-Holds m self k h)
      go false = h

  fetch_action-Holds : (kind : Kind) (req : Request) → KeepsTables (fetch_action kind req)
  fetch_action-Holds activation req c w = subst P (sym (fetch_activation_response-tables req c)) w
  fetch_action-Holds deactivation req c w =
      subst P (sym (fetch_deactivation_response-tables req c)) w

  module _ (kept : IsKept P) where
    pub request_action-Holds :
        (kind : Kind) (req : Request) → IsPlain req → KeepsTables (request_action kind req)
    unfolding run
    request_action-Holds activation req p = kept.run (activation_request req) p
    request_action-Holds deactivation req p = kept.run (deactivation_request req) tt

    pub response_action-Holds :
        (kind : Kind) (mode : ProxyMode) (req : Request) (resp : Response)
        → IsPlain req
        → KeepsTables (response_action kind mode req resp)
    unfolding run
    response_action-Holds activation mode req resp p =
        kept.run (activation_response mode req resp) p
    response_action-Holds deactivation mode req resp p =
        kept.run (deactivation_response mode req resp) tt

    -- What the operations keep, the methods keep.
    pub Holds-KeptByMethods : KeptByMethods (Holds P)
    unfolding store_request store_response fetch_response fetch_forwarding_requests
    Holds-KeptByMethods = record {
      store_request = λ req p. record {
        at = λ self h. method-Holds tt _ self (request_action-Holds req.kind req p) h;
      };
      store_response = λ req resp p. record {
        at = λ self h.
            method-Holds tt _ self (response_action-Holds req.kind self.mode req resp p) h;
      };
      fetch_response = λ req. record {
        at = λ self h. method-Holds none _ self (fetch_action-Holds req.kind req) h;
      };
      fetch_forwarding_requests = record {
        at = λ self h. method-Holds [] _ self (λ c w. subst P (sym (unanswered-tables c)) w) h;
      };
    }

pub IsWellFormed-IsKept : IsKept IsWellFormed
IsWellFormed-IsKept = record { run = λ op p. (run-Keeps op (IsPlainOp-HasPlain op p)).at }

pub IsClean-IsKept : IsKept IsClean
IsClean-IsKept = record { run = λ op p. (run-IsClean op p).at }
