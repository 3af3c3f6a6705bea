-- ===== src/Cache/Fetch/Unanswered.antt =====
-- Which requests `fetch_unanswered_requests` returns.
use frl_online_proxy.Prelude.{◌≡◌, List, ◌++◌, map, keep, arith, sort_by, not}
use frl_online_proxy.Outcome.{ok}
use frl_online_proxy.Cops.{Request}
use frl_online_proxy.Cache.Tables.{Tables}
use frl_online_proxy.Cache.Engine.{Conn, IsHealthy, step, query}
use frl_online_proxy.Cache.Fetch.{
  is_answered, request_from_activation_row, request_from_deactivation_row,
  fetch_unanswered_activations, fetch_unanswered_deactivations, fetch_unanswered_requests,
}

-- The requests that wait for an answer: every stored activation with no answer as new as itself, and
-- every stored deactivation.
abbrev pub waiting : Tables → List Request
waiting t =
    map request_from_activation_row (keep (λ r. not (is_answered t r)) t.activation_requests)
    ++ map request_from_deactivation_row t.deactivation_requests

-- On a healthy connection the fetch returns the waiting requests, and changes nothing.
pub fetch_unanswered_requests-same :
    (c : Conn)
    → IsHealthy c
    → fetch_unanswered_requests c ≡ (ok (sort_by (λ r. r.timestamp) (waiting c.tables)), c)
unfolding fetch_unanswered_requests fetch_unanswered_activations fetch_unanswered_deactivations
    query step
fetch_unanswered_requests-same c h = ground arith
