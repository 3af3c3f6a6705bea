-- ===== src/Tests/Contract.antt =====
-- The contract of the cache, on a history with an activation that is answered, looked up and revoked.
use frl_online_proxy.Prelude.{◌≡◌, refl, some, List, [], ◌∷◌}
use frl_online_proxy.Outcome.{ok}
use frl_online_proxy.Settings.{cache}
use frl_online_proxy.Cops.{activation}
use frl_online_proxy.Cache.Tables.{select_where, insert_or_replace, delete_where}
use frl_online_proxy.Cache.Keys.{activation_id, deactivation_id}
use frl_online_proxy.Cache.Engine.{IsHealthy, step, execute, query, transaction}
use frl_online_proxy.Cache.Store.{store_activation_response, store_deactivation_response}
use frl_online_proxy.Cache.Fetch.{fetch_activation_response}
use frl_online_proxy.Cache.Invariant.{empty-IsWellFormed}
use frl_online_proxy.Cache.Invariant.Histories.{
  Op, activation_response, deactivation_response, lookup, run, history,
}
use frl_online_proxy.Cache.Contract.{accepted, readdressed}
use frl_online_proxy.Cache.Contract.Refines.{history-refines}
use frl_online_proxy.Cache.Contract.Sound.{Source, history_sound}
use frl_online_proxy.Tests.Samples.{activate, revoke, license, released, fresh}
use frl_online_proxy.Tests.Cache.{plain}

-- The answer comes after its revocation, and is looked up.
abbrev revoked_first : List Op
revoked_first =
    deactivation_response cache revoke released
    ∷ activation_response cache activate license
    ∷ lookup activation activate
    ∷ []

working_then : IsHealthy (history revoked_first fresh)
unfolding history run store_activation_response store_deactivation_response
    fetch_activation_response transaction execute query step select_where insert_or_replace
    delete_where activation_id deactivation_id
working_then = record { opened = refl; faultless = refl }

fetched :
    (fetch_activation_response activate (history revoked_first fresh)).0
    ≡ ok (some (readdressed activate license activate))
unfolding history run store_activation_response store_deactivation_response
    fetch_activation_response transaction execute query step select_where insert_or_replace
    delete_where activation_id deactivation_id
fetched = refl

history-refines_example :
    (fetch_activation_response activate (history revoked_first fresh)).0
    ≡ ok (some (readdressed activate license activate))
unfolding accepted run store_activation_response store_deactivation_response transaction execute
    fetch_activation_response query step select_where insert_or_replace delete_where activation_id
    deactivation_id
history-refines_example =
    history-refines revoked_first fresh activate (tt, (plain, (tt, tt))) empty-IsWellFormed plain
      working_then

history_sound_example :
    Source activate (readdressed activate license activate) (accepted revoked_first fresh)
unfolding select_where
history_sound_example =
    history_sound revoked_first fresh activate (readdressed activate license activate)
      (tt, (plain, (tt, tt))) empty-IsWellFormed plain working_then refl fetched
