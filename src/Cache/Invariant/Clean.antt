-- ===== src/Cache/Invariant/Clean.antt =====
-- The invariant of a database whose requests have no `|` in their application ids and library
-- versions, and the histories that keep it.
pub mod Reads
use mathlib.Core.Path.{subst}
use frl_online_proxy.Prelude.{
  String, ◌≡◌, refl, sym, ◌∙◌, ap, ℕ, List, [], ◌∷◌, ◌++◌, map, keep, All, All-append, All-keep,
  All-sort_by, arith,
}
use frl_online_proxy.Http.{Bytes, utf8, invalid}
use frl_online_proxy.Settings.{ProxyMode, cache, store, forward, passthrough}
use frl_online_proxy.Cops.{Kind, activation, deactivation, Request, Response}
use frl_online_proxy.Cache.Keys.{IsPlain}
use frl_online_proxy.Cache.Tables.{ActivationRequestRow, DeactivationRequestRow, Tables, empty}
use frl_online_proxy.Cache.Tables.Laws.{delete-All, insert-All}
use frl_online_proxy.Cache.Engine.{Conn, Db}
use frl_online_proxy.Cache.Engine.Laws.{Keeps, Keeps-Writes}
use frl_online_proxy.Cache.Store.{
  activation_request_row, store_activation_response, store_deactivation_response,
}
use frl_online_proxy.Cache.Store.Atomic.{
  answered_activation, answered_deactivation, store_activation_request-Writes,
  store_deactivation_request-Writes, store_activation_response-Writes,
  store_deactivation_response-Writes, store_deactivation_response_live-Writes,
}
use frl_online_proxy.Cache.Fetch.{
  request_from_activation_row, fetch_activation_response, fetch_deactivation_response,
}
use frl_online_proxy.Cache.Fetch.Answers.{
  fetch_activation_response-tables, fetch_deactivation_response-tables,
}
use frl_online_proxy.Cache.Invariant.{IsWellFormed, empty-IsWellFormed}
use frl_online_proxy.Cache.Invariant.Histories.{
  Op, activation_request, deactivation_request, activation_response, deactivation_response, lookup,
  run, history, HasPlain, run-Keeps, look-tables, Keeps-activation_response,
  Keeps-deactivation_response,
}

abbrev pub HasPlainRows : Tables → Type 0
HasPlainRows t = All (λ row. IsPlain (request_from_activation_row row)) t.activation_requests

-- The tables of a database that has been given plain requests only.
pub record IsClean (t : Tables) : Type 0 where
  pub well_formed : IsWellFormed t
  pub plain : HasPlainRows t

pub empty-IsClean : IsClean empty
empty-IsClean = record { well_formed = empty-IsWellFormed; plain = tt }

-- The requests of an operation are plain.
abbrev pub IsPlainOp : Op → Type 0
IsPlainOp (activation_request req) = IsPlain req
IsPlainOp (activation_response mode req resp) = IsPlain req
IsPlainOp _ = Unit

pub IsPlainOp-HasPlain : (op : Op) → IsPlainOp op → HasPlain op
IsPlainOp-HasPlain (activation_response mode req resp) p = p
IsPlainOp-HasPlain (activation_request req) p = tt
IsPlainOp-HasPlain (deactivation_request req) p = tt
IsPlainOp-HasPlain (deactivation_response mode req resp) p = tt
IsPlainOp-HasPlain (lookup kind req) p = tt

row-IsPlain :
    (req : Request)
    → IsPlain req
    → IsPlain (request_from_activation_row (activation_request_row req))
unfolding activation_request_row request_from_activation_row
row-IsPlain req p = record { app_id = p.app_id; ngl_version = p.ngl_version }

answered_activation-HasPlainRows :
    (mode : ProxyMode) (req : Request) (body : String) (t : Tables)
    → HasPlainRows t
    → HasPlainRows (answered_activation mode req body t)
answered_activation-HasPlainRows forward req body t p = p
answered_activation-HasPlainRows _ req body t p = p

answered_deactivation-HasPlainRows :
    (mode : ProxyMode) (req : Request) (body : String) (t : Tables)
    → HasPlainRows t
    → HasPlainRows (answered_deactivation mode req body t)
answered_deactivation-HasPlainRows forward req body t p = p
answered_deactivation-HasPlainRows _ req body t p = delete-All _ _ _ _ p

run-HasPlainRows : (op : Op) → IsPlainOp op → Keeps HasPlainRows (run op)
unfolding run
run-HasPlainRows (activation_request req) p =
    Keeps-Writes (store_activation_request-Writes req) λ t w.
      insert-All _ (λ row. IsPlain (request_from_activation_row row)) _ _ (row-IsPlain req p) w
run-HasPlainRows (deactivation_request req) p =
    Keeps-Writes (store_deactivation_request-Writes req) λ t w. w
run-HasPlainRows (activation_response mode req resp) p =
    Keeps-activation_response mode req resp (answered_activation-HasPlainRows mode req)
run-HasPlainRows (deactivation_response mode req resp) p =
    Keeps-deactivation_response req resp mode (answered_deactivation-HasPlainRows mode req)
run-HasPlainRows (lookup kind req) p = record {
  at = λ c w. subst HasPlainRows (sym (look-tables kind req c)) w;
}

pub run-IsClean : (op : Op) → IsPlainOp op → Keeps IsClean (run op)
run-IsClean op p = record {
  at = λ c w. record {
    well_formed = (run-Keeps op (IsPlainOp-HasPlain op p)).at c w.well_formed;
    plain = (run-HasPlainRows op p).at c w.plain;
  };
}
