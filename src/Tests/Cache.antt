-- ===== src/Tests/Cache.antt =====
-- The theorems on the cache, at concrete tables.
use frl_online_proxy.Prelude.{◌≡◌, refl, arith, none, some, [], ◌∷◌, if◌then◌else◌, ◌==◌}
use frl_online_proxy.Outcome.{ok, panic}
use frl_online_proxy.Settings.{cache}
use frl_online_proxy.Cache.Keys.{activation_id, deactivation_id, IsPlain}
use frl_online_proxy.Cache.Tables.{empty, select_where}
use frl_online_proxy.Cache.Engine.{Conn, IsHealthy, step, execute, transaction}
use frl_online_proxy.Cache.Engine.Laws.{Writes}
use frl_online_proxy.Cache.Store.{store_activation_response, store_deactivation_response}
use frl_online_proxy.Cache.Store.Atomic.{
  answered_activation, answered_deactivation, store_activation_response-Writes,
  store_deactivation_response-Writes,
}
use frl_online_proxy.Cache.Fetch.{respond, fetch_activation_response, fetch_deactivation_response}
use frl_online_proxy.Cache.Fetch.Answers.{
  held, fetch-store_activation_response, fetch_deactivation_response-panic_iff,
}
use frl_online_proxy.Cache.Invariant.{IsWellFormed, empty-IsWellFormed}
use frl_online_proxy.Cache.Invariant.Histories.{
  activation_request, activation_response, deactivation_response, history, history-IsWellFormed,
  store_activation_response-Keeps,
}
use frl_online_proxy.Cache.Invariant.Revocation.{fetch-store_deactivation_response}
use frl_online_proxy.Tests.Samples.{activate, revoke, license, released, fresh}

pub plain : IsPlain activate
plain = record { app_id = (λ p. omega arith, tt); ngl_version = (λ p. omega arith, tt) }

pub working : IsHealthy fresh
working = record { opened = refl; faultless = refl }

history-IsWellFormed_example :
    IsWellFormed
      (history
        (activation_request activate
          ∷ activation_response cache activate license
          ∷ deactivation_response cache revoke released
          ∷ [])
        fresh).tables
history-IsWellFormed_example =
    history-IsWellFormed
      (activation_request activate
        ∷ activation_response cache activate license
        ∷ deactivation_response cache revoke released
        ∷ [])
      fresh (tt, (plain, (tt, tt))) empty-IsWellFormed

store_activation_response-Writes_example :
    Writes
      (answered_activation cache activate "license")
      (store_activation_response cache activate license)
store_activation_response-Writes_example =
    store_activation_response-Writes cache activate license "license" refl

store_deactivation_response-Writes_example :
    Writes
      (answered_deactivation cache revoke "ok")
      (store_deactivation_response cache revoke released)
store_deactivation_response-Writes_example =
    store_deactivation_response-Writes cache revoke released "ok" refl

stored : (store_activation_response cache activate license fresh).0 ≡ ok tt
unfolding store_activation_response transaction execute step
stored = refl

working_after : IsHealthy (store_activation_response cache activate license fresh).1
unfolding store_activation_response transaction execute step
working_after = record { opened = refl; faultless = refl }

fetch-store_activation_response_example :
    (fetch_activation_response activate
      (store_activation_response cache activate license fresh).1).0
    ≡ ok (
        if activation_id activate == activation_id activate
        then some (respond activate "2021-03-01T00:00:10.000+0000" "license")
        else held empty activate)
fetch-store_activation_response_example =
    fetch-store_activation_response cache activate activate license "license" fresh refl stored
      working_after

-- The connection after an activation has been answered, and then its deactivation.
abbrev answered_once : Conn
answered_once = (store_activation_response cache activate license fresh).1

well_formed : IsWellFormed answered_once.tables
well_formed =
    (store_activation_response-Keeps cache activate license plain).at fresh empty-IsWellFormed

revoked : (store_deactivation_response cache revoke released answered_once).0 ≡ ok tt
unfolding store_activation_response store_deactivation_response transaction execute step
revoked = refl

working_revoked : IsHealthy (store_deactivation_response cache revoke released answered_once).1
unfolding store_activation_response store_deactivation_response transaction execute step
working_revoked = record { opened = refl; faultless = refl }

fetch-store_deactivation_response_example :
    (fetch_activation_response activate
      (store_deactivation_response cache revoke released answered_once).1).0
    ≡ ok none
unfolding deactivation_id
fetch-store_deactivation_response_example =
    fetch-store_deactivation_response cache revoke activate released answered_once (λ p. cc)
      well_formed plain refl revoked working_revoked

fetch_deactivation_response-panic_iff_example :
    (fetch_deactivation_response activate answered_once).0
    ≡ (elim (select_where
        (λ r. r.activation_key)
        (activation_id activate)
        answered_once.tables.activation_responses) [ none ↦ ok none | some r ↦ panic ])
fetch_deactivation_response-panic_iff_example =
    fetch_deactivation_response-panic_iff activate answered_once working_after
