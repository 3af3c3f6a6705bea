-- ===== src/Proxy/Forward.antt =====
-- proxy.rs: `forward_stored_requests`.
pub mod Laws
pub mod Keeping
pub mod Complete
pub mod Granted
pub mod Held
use frl_online_proxy.Prelude.{ℕ, ◌+◌, ◌%◌, ◌^◌, String, List, [], ◌∷◌, if◌then◌else◌}
use frl_online_proxy.Outcome.{Outcome, ok, err, panic, Report}
use frl_online_proxy.Exec.{Exec, pure, lift, ◌>>=◌, ◌>>◌}
use frl_online_proxy.Http.{World, Bytes, Body, whole, broken, to_bytes, HResponse, is_success}
use frl_online_proxy.Settings.{Settings}
use frl_online_proxy.Logging.{debug_body}
use frl_online_proxy.Cops.{Request, response_from_network}
use frl_online_proxy.Cache.Open.{Cache}
use frl_online_proxy.Cache.Methods.{store_response, fetch_forwarding_requests}
use frl_online_proxy.Proxy.Call.{call_cops}

-- A u64, and `+= 1` on it, which wraps around in a release build.
abbrev pub u64_mod : ℕ
u64_mod = 2 ^ 64

abbrev pub bump : ℕ → ℕ
bump n = (n + 1) % u64_mod

-- The two counters; a request to which no response came counts in neither.
pub record Tally : Type 0 where
  pub successes : ℕ
  pub failures : ℕ

-- `to_bytes(body).await.unwrap()`
abbrev read_body : Body → Outcome Report Bytes
read_body (whole b) = ok b
read_body (broken e) = panic

module _ (w : World) (conf : Settings) (now : String) where
  received : Request → Tally → HResponse → Exec Cache Tally
  received req tally net_resp = do
    body ← lift (read_body net_resp.body)
    lift (debug_body conf body)
    if is_success net_resp.status
        then (do
          store_response req (response_from_network req body now)
          pure (record tally { successes = bump tally.successes }))
        else pure (record tally { failures = bump tally.failures })

  abbrev answer : Request → Tally → Outcome Report HResponse → Exec Cache Tally
  answer req tally (ok net_resp) = received req tally net_resp
  answer req tally (err e) = pure tally
  answer req tally panic = λ self. (panic, self)

  -- The loop over the requests.
  unfoldable pub forward_all : List Request → Tally → Exec Cache Tally
  unfolding received
  forward_all [] tally = pure tally
  forward_all (req ∷ reqs) tally = do
    tally' ← answer req tally (call_cops w conf req)
    forward_all reqs tally'

  unfoldable pub forward_stored_requests : Exec Cache Tally
  forward_stored_requests = do
    requests ← fetch_forwarding_requests
    forward_all requests (record { successes = 0; failures = 0 })
