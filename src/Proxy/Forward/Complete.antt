-- ===== src/Proxy/Forward/Complete.antt =====
-- What a run of `forward_stored_requests` leaves to be forwarded when COPS has granted all requests.
use frl_online_proxy.Prelude.{◌≡◌, ap, ◌∙◌, String, map, All, sort_by, arith}
use frl_online_proxy.Outcome.{ok}
use frl_online_proxy.Http.{World}
use frl_online_proxy.Settings.{Settings, forward}
use frl_online_proxy.Cache.Tables.{Tables}
use frl_online_proxy.Cache.Fetch.{request_from_deactivation_row}
use frl_online_proxy.Cache.Fetch.Unanswered.{waiting, fetch_unanswered_requests-same}
use frl_online_proxy.Cache.Fetch.Covered.Waiting.{waiting-IsFresh, waiting-Covered, Covered-waiting}
use frl_online_proxy.Cache.Invariant.{IsWellFormed}
use frl_online_proxy.Cache.Open.{Cache}
use frl_online_proxy.Cache.Methods.{fetch_forwarding_requests}
use frl_online_proxy.Cache.Methods.Laws.{IsLive}
use frl_online_proxy.Proxy.Forward.{Tally, forward_stored_requests}
use frl_online_proxy.Proxy.Forward.Granted.{
  Granted, collected, forward_all-Returns, collected-requests, collected-Covered,
}
use frl_online_proxy.Proxy.Forward.Held.{FetchedAnswers, live-FetchedAnswers, collected-HeldAnswers}
use frl_online_proxy.Cache.Exchange.Exported.Written.{waiting-Apart}

-- The fetch changes nothing on a live cache.
fetch_forwarding_requests-live :
    {self : Cache} {t : Tables}
    → IsLive self t
    → fetch_forwarding_requests self ≡ (ok (sort_by (λ r. r.timestamp) (waiting t)), self)
unfolding fetch_forwarding_requests
fetch_forwarding_requests-live {self} {t} l =
    let fetched =
      fetch_unanswered_requests-same l.pool l.healthy
      ∙ ap (λ t. (ok (sort_by (λ r. r.timestamp) (waiting t)), l.pool)) l.holds in
    ground (arith, fetched, l.on, l.is_pool)

-- When COPS grants every request that waits, on a working database in forward mode, a run of the
-- forwarding returns. Then a fetch for each activation that waited returns the text of its grant, and
-- no activation is left to be forwarded: what the next run would forward are the stored deactivations,
-- in the order of their timestamps, again. The tables were well formed.
pub forward_stored_requests_complete :
    (w : World) (conf : Settings) (now : String) (self : Cache) (t : Tables)
    (g : All (Granted w conf) (sort_by (λ r. r.timestamp) (waiting t)))
    → IsLive self t
    → self.mode ≡ forward
    → IsWellFormed t
    → ((tally : Tally) × ((forward_stored_requests w conf now self).0 ≡ ok tally))
      × FetchedAnswers w conf
          (forward_stored_requests w conf now self).1
          (sort_by (λ r. r.timestamp) (waiting t))
          g
      × ((fetch_forwarding_requests (forward_stored_requests w conf now self).1).0
          ≡ ok (
              sort_by
                (λ r. r.timestamp)
                (map request_from_deactivation_row t.deactivation_requests)))
unfolding forward_stored_requests
forward_stored_requests_complete w conf now self t g l m wf =
    let reqs = sort_by (λ r. r.timestamp) (waiting t) in
    let after = collected w conf now reqs g t in
    let (returned, live, mode) =
      forward_all-Returns w conf now reqs g (record { successes = 0; failures = 0 }) l m in
    let left =
      Covered-waiting after
        (collected-Covered w conf now reqs g t (waiting-IsFresh t wf) (waiting-Covered t wf))
      ∙ ap (λ rows. map request_from_deactivation_row rows)
          (collected-requests w conf now reqs g t) in
    let answers = collected-HeldAnswers w conf now reqs g t (waiting-Apart t wf) in
    rw (fetch_forwarding_requests-live l) (
      returned,
      live-FetchedAnswers w conf live reqs g answers,
      ap (λ r. r.0) (fetch_forwarding_requests-live live)
          ∙ ap (λ l. ok (sort_by (λ r. r.timestamp) l)) left,
    )
