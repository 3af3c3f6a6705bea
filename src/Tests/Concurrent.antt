-- ===== src/Tests/Concurrent.antt =====
-- The theorems on concurrent requests, on a server whose COPS answers once and then fails.
use frl_online_proxy.Prelude.{◌≡◌, ◌⊎◌, refl, List, [], ◌∷◌}
use frl_online_proxy.Outcome.{ok}
use frl_online_proxy.Settings.{cache}
use frl_online_proxy.Http.{utf8, whole}
use frl_online_proxy.Logging.{debug_body}
use frl_online_proxy.Cops.{Response}
use frl_online_proxy.Cops.Send.{response_headers, response_to_network}
use frl_online_proxy.Cache.Tables.{select_where}
use frl_online_proxy.Cache.Engine.{IsHealthy, step, execute, transaction}
use frl_online_proxy.Cache.Store.{
  store_activation_request, store_activation_response, store_deactivation_request,
  store_deactivation_response,
}
use frl_online_proxy.Cache.Invariant.{empty-IsWellFormed}
use frl_online_proxy.Cache.Invariant.Histories.{history, run}
use frl_online_proxy.Cache.Methods.{store_request}
use frl_online_proxy.Cache.Methods.Keeping.{HasWellFormed}
use frl_online_proxy.Cache.Methods.Operations.{IsOn}
use frl_online_proxy.Cache.Contract.{accepted, readdressed}
use frl_online_proxy.Cache.Contract.Sound.{Source, given, further}
use frl_online_proxy.Cache.Contract.Complete.{TakenBack, taken, since}
use frl_online_proxy.Proxy.Serve.{resume}
use frl_online_proxy.Proxy.Serve.Live.{Fails}
use frl_online_proxy.Proxy.Concurrent.{
  Server, Event, arrived, replied, dropped, arrive, reply, cancel, Reach, here, next,
}
use frl_online_proxy.Proxy.Concurrent.Log.{log}
use frl_online_proxy.Proxy.Concurrent.Answers.{resume_cached, resume_revoked}
use frl_online_proxy.Proxy.Concurrent.Sound.{Reach-IsWellFormed, resume_sound}
use frl_online_proxy.Tests.Samples.{
  activate, revoke, license, granted, refused, world, conf_in, fresh, open_in,
}
use frl_online_proxy.Cache.Keys.{IsPlain, deactivation_id}
use frl_online_proxy.Tests.Cache.{plain}

abbrev idle : Server
idle = record { self = open_in cache; waiting = [] }

-- Two clients send the activation, before COPS grants it to one of them.
abbrev trace : List Event
trace =
    arrived activate
    ∷ arrived activate
    ∷ replied activate (ok granted) "2021-03-01T00:00:11.000+0000"
    ∷ []

abbrev busy : Server
busy = record {
  self = (store_request activate (store_request activate (open_in cache)).1).1;
  waiting = activate ∷ activate ∷ [];
}

abbrev served : Server
served = record {
  self =
      (resume (world granted) (conf_in cache) (ok granted) activate "2021-03-01T00:00:11.000+0000"
        busy.self).1;
  waiting = activate ∷ [];
}

reached : Reach (world granted) (conf_in cache) idle trace served
reached =
    next _ _ (next _ _ (next _ _ here (arrive idle activate)) (arrive _ activate))
      (reply busy activate (ok granted) "2021-03-01T00:00:11.000+0000" [] (activate ∷ []) refl)

on : IsOn (open_in cache) fresh cache
on = record { enabled = refl; pool = refl; in_mode = refl }

Reach-IsWellFormed_example : HasWellFormed served.self
Reach-IsWellFormed_example =
    Reach-IsWellFormed (world granted) (conf_in cache) cache idle served fresh trace on
      empty-IsWellFormed (tt, (tt, (plain, tt))) reached

fails : Fails (ok refused) refused (utf8 "down")
fails = record { got_it = refl; status = refl; body = refl }

working_then : IsHealthy (history (log (conf_in cache) cache trace) fresh)
unfolding history debug_body run store_activation_request store_activation_response transaction step
    execute
working_then = record { opened = refl; faultless = refl }

revoke-IsPlain : IsPlain revoke
revoke-IsPlain = record { app_id = tt; ngl_version = tt }

-- The other client is refused by COPS.
resume_sound_example :
    ((resume
        (world granted)
        (conf_in cache)
        (ok refused)
        activate
        "2021-03-01T00:00:12.000+0000"
        served.self).0
      ≡ ok refused)
    ⊎ ((x : Response) × ((resume
            (world granted)
            (conf_in cache)
            (ok refused)
            activate
            "2021-03-01T00:00:12.000+0000"
            served.self).0
          ≡ response_to_network (world granted) x)
        × Source activate x (accepted (log (conf_in cache) cache trace) fresh))
unfolding select_where
resume_sound_example =
    resume_sound (world granted) (conf_in cache) cache idle served fresh trace activate
      "2021-03-01T00:00:12.000+0000" "down" (ok refused) refused on empty-IsWellFormed refl
      (tt, (tt, (plain, tt))) reached working_then refl plain fails

-- The source of the other client's answer is the grant, the last of the events.
sourced :
    Source activate
      (readdressed activate license activate)
      (accepted (log (conf_in cache) cache trace) fresh)
unfolding accepted history debug_body run store_activation_request store_activation_response
    transaction step execute
sourced = further _ _ (further _ _ (given _ _ (refl, refl) tt))

resume_cached_example :
    (resume
      (world granted)
      (conf_in cache)
      (ok refused)
      activate
      "2021-03-01T00:00:12.000+0000"
      served.self).0
    ≡ ok (record {
      status = 200;
      headers = response_headers (world granted) (readdressed activate license activate);
      body = whole (utf8 "license");
    })
resume_cached_example =
    resume_cached (world granted) (conf_in cache) cache idle served fresh trace activate
      "2021-03-01T00:00:12.000+0000" "down" (ok refused) refused
      (readdressed activate license activate) on empty-IsWellFormed (tt, (tt, (plain, tt))) reached
      working_then refl plain sourced fails refl

-- The activation is granted, its client leaves, and the device is deactivated.
abbrev revoking : List Event
revoking =
    arrived activate
    ∷ arrived activate
    ∷ replied activate (ok granted) "2021-03-01T00:00:11.000+0000"
    ∷ dropped activate
    ∷ arrived revoke
    ∷ replied revoke (ok granted) "2021-03-01T00:00:21.000+0000"
    ∷ []

abbrev before_release : Server
before_release = record { self = (store_request revoke served.self).1; waiting = revoke ∷ [] }

abbrev after_release : Server
after_release = record {
  self =
      (resume (world granted) (conf_in cache) (ok granted) revoke "2021-03-01T00:00:21.000+0000"
        before_release.self).1;
  waiting = [];
}

revoked_there : Reach (world granted) (conf_in cache) idle revoking after_release
revoked_there =
    next _ _
      (next _ _ (next _ _ reached (cancel served activate [] [] refl))
        (arrive (record { self = served.self; waiting = [] }) revoke))
      (reply before_release revoke (ok granted) "2021-03-01T00:00:21.000+0000" [] [] refl)

working_after_release : IsHealthy (history (log (conf_in cache) cache revoking) fresh)
unfolding history debug_body run store_activation_request store_activation_response
    store_deactivation_request store_deactivation_response transaction step execute
working_after_release = record { opened = refl; faultless = refl }

taken_back : TakenBack activate (accepted (log (conf_in cache) cache revoking) fresh)
unfolding accepted history debug_body run store_activation_request store_activation_response
    store_deactivation_request store_deactivation_response transaction step execute deactivation_id
taken_back = since _ _ (since _ _ (since _ _ (since _ _ (taken _ _ refl tt))))

resume_revoked_example :
    (resume
      (world granted)
      (conf_in cache)
      (ok refused)
      activate
      "2021-03-01T00:00:32.000+0000"
      after_release.self).0
    ≡ ok refused
resume_revoked_example =
    resume_revoked (world granted) (conf_in cache) cache idle after_release fresh revoking activate
      "2021-03-01T00:00:32.000+0000" "down" (ok refused) refused on empty-IsWellFormed
      (tt, (tt, (plain, (tt, (tt, (revoke-IsPlain, tt)))))) revoked_there working_after_release refl
      plain taken_back fails
