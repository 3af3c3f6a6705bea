-- ===== src/Proxy/Forward/Laws.antt =====
-- What a run of `forward_stored_requests` has done when it returns.
use frl_online_proxy.Prelude.{ℕ, ◌+◌, ◌<◌, ◌≤◌, length, String, ◌≡◌, List, [], ◌∷◌, arith}
use frl_online_proxy.Outcome.{Outcome, ok, err, panic, Report}
use frl_online_proxy.Exec.{>>=-eq-ok}
use frl_online_proxy.Http.{World, HResponse}
use frl_online_proxy.Settings.{Settings}
use frl_online_proxy.Cops.{Request}
use frl_online_proxy.Cache.Open.{Cache}
use frl_online_proxy.Proxy.Call.{call_cops}
use frl_online_proxy.Proxy.Forward.{u64_mod, Tally, received, answer, forward_all}

-- The requests to which a response came.
abbrev pub responses : World → Settings → List Request → ℕ
responses w conf [] = 0
responses w conf (req ∷ reqs) = elim (call_cops w conf req) [
  | ok resp ↦ 1 + responses w conf reqs
  | err e ↦ responses w conf reqs
  | panic ↦ responses w conf reqs
]

-- How many responses an outcome of the network is.
abbrev came : Outcome Report HResponse → ℕ
came (ok resp) = 1
came (err e) = 0
came panic = 0

came-bound : (o : Outcome Report HResponse) → came o ≤ 1
came-bound o = ground arith

responses-le-length :
    (w : World) (conf : Settings) (reqs : List Request) → responses w conf reqs ≤ length reqs
responses-le-length w conf [] = omega arith
responses-le-length w conf (req ∷ reqs) = ground (arith, responses-le-length w conf reqs)

module _ (w : World) (conf : Settings) (now : String) where
  answer-tally :
      (req : Request) (tally tally' : Tally) (self : Cache) (o : Outcome Report HResponse)
      → tally.successes + tally.failures + 1 < u64_mod
      → (answer w conf now req tally o self).0 ≡ ok tally'
      → tally'.successes + tally'.failures ≡ tally.successes + tally.failures + came o
  unfolding received
  answer-tally req tally tally' self (ok resp) room h = ground arith
  answer-tally req tally tally' self (err e) room h = ground arith
  answer-tally req tally tally' self panic room h = cc

  forward_all-tally :
      (reqs : List Request) (tally tally' : Tally) (self : Cache)
      → tally.successes + tally.failures + length reqs < u64_mod
      → (forward_all w conf now reqs tally self).0 ≡ ok tally'
      → tally'.successes + tally'.failures
        ≡ tally.successes + tally.failures + responses w conf reqs
  unfolding forward_all
  forward_all-tally [] tally tally' self room h = ground arith
  forward_all-tally (req ∷ reqs) tally tally' self room h =
      let (first, here, later) =
        >>=-eq-ok (answer w conf now req tally (call_cops w conf req)) _ self h in
      let counted = answer-tally req tally first self (call_cops w conf req) (omega arith) here in
      let left : first.successes + first.failures + length reqs < u64_mod =
        omega (arith, counted, came-bound (call_cops w conf req)) in
      ground (arith, counted, forward_all-tally reqs first tally' _ left later)

-- When the forwarding of fewer than 2 ^ 64 requests returns, its two 64-bit counters have not wrapped
-- around: together they are the number of requests to which COPS responded, and no more than the
-- number of requests. Those with no response are counted in neither.
pub forward_all-responses :
    (w : World) (conf : Settings) (now : String) (reqs : List Request) (self : Cache)
    (tally : Tally)
    → length reqs < u64_mod
    → (forward_all w conf now reqs (record { successes = 0; failures = 0 }) self).0 ≡ ok tally
    → (tally.successes + tally.failures ≡ responses w conf reqs)
      × (tally.successes + tally.failures ≤ length reqs)
forward_all-responses w conf now reqs self tally room h =
    let counted =
      forward_all-tally w conf now reqs (record { successes = 0; failures = 0 }) tally self
        (omega arith) h in
    (omega (arith, counted), omega (arith, counted, responses-le-length w conf reqs))
