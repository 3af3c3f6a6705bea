-- ===== src/Proxy/Forward/Granted.antt =====
-- A run of the forwarding in which COPS grants every request.
use mathlib.Core.Path.{subst}
use frl_online_proxy.Prelude.{◌≡◌, refl, sym, ◌∙◌, String, List, [], ◌∷◌, All, arith}
use frl_online_proxy.Outcome.{Outcome, ok, Report}
use frl_online_proxy.Http.{World, HResponse, utf8}
use frl_online_proxy.Settings.{Settings, forward}
use frl_online_proxy.Cops.{Request, Kind, activation, deactivation, response_from_network}
use frl_online_proxy.Cache.Tables.{Tables}
use frl_online_proxy.Cache.Fetch.Covered.{Covered, IsFresh, answered-Covered}
use frl_online_proxy.Cache.Open.{Cache}
use frl_online_proxy.Cache.Methods.{store_response}
use frl_online_proxy.Cache.Methods.Laws.{IsLive, answered, store_response-live}
use frl_online_proxy.Proxy.Call.{call_cops}
use frl_online_proxy.Proxy.Serve.Live.{Succeeds, debug_body-utf8}
use frl_online_proxy.Proxy.Forward.{Tally, bump, received, answer, forward_all}

-- COPS answers a request with success and a text.
pub record Granted (w : World) (conf : Settings) (req : Request) : Type 0 where
  pub resp : HResponse
  pub text : String
  pub succeeds : Succeeds (call_cops w conf req) resp text

module _ (w : World) (conf : Settings) (now : String) where
  received_run :
      (req : Request) (tally : Tally) (self : Cache) (got : Outcome Report HResponse)
      (resp : HResponse) (text : String)
      → Succeeds got resp text
      → (store_response req (response_from_network req (utf8 text) now) self).0 ≡ ok tt
      → answer w conf now req tally got self ≡ (
        ok (record tally { successes = bump tally.successes }),
        (store_response req (response_from_network req (utf8 text) now) self).1,
      )
  unfolding received
  received_run req tally self got resp text s stored = ground (arith, debug_body-utf8 conf text)

  -- The tables after the answers to the requests.
  abbrev pub collected : (reqs : List Request) → All (Granted w conf) reqs → Tables → Tables
  collected [] g t = t
  collected (req ∷ reqs) g t = collected reqs g.1 (answered req.kind forward req g.0.text t)

  -- A run has returned, and left the cache live on tables, in forward mode.
  abbrev Returns : Tables → Outcome Report Tally × Cache → Type 0
  Returns t r = ((tally : Tally) × (r.0 ≡ ok tally)) × IsLive r.1 t × (r.1.mode ≡ forward)

  pub forward_all-Returns :
      (reqs : List Request) (g : All (Granted w conf) reqs) (tally : Tally) {self : Cache}
      {t : Tables}
      → IsLive self t
      → self.mode ≡ forward
      → Returns (collected reqs g t) (forward_all w conf now reqs tally self)
  unfolding forward_all
  forward_all-Returns [] g tally l m = ((tally, refl), l, m)
  forward_all-Returns (req ∷ reqs) (g, gs) tally {self} {t} l m =
      let new = response_from_network req (utf8 g.text) now in
      let (stored, live, mode) = store_response-live l req new g.text refl in
      let run =
        received_run req tally self (call_cops w conf req) g.resp g.text g.succeeds stored in
      let live' =
        subst (λ k. IsLive (store_response req new self).1 (answered req.kind k req g.text t)) m
          live in
      rw run (
        forward_all-Returns reqs gs (record tally { successes = bump tally.successes }) live'
          (mode ∙ m))

  -- In forward mode the stored requests stay as they are.
  answered-requests :
      (kind : Kind) (req : Request) (text : String) (t : Tables)
      → ((answered kind forward req text t).activation_requests ≡ t.activation_requests)
        × ((answered kind forward req text t).deactivation_requests ≡ t.deactivation_requests)
  answered-requests activation req text t = (refl, refl)
  answered-requests deactivation req text t = (refl, refl)

  pub collected-requests :
      (reqs : List Request) (g : All (Granted w conf) reqs) (t : Tables)
      → (collected reqs g t).deactivation_requests ≡ t.deactivation_requests
  collected-requests [] g t = refl
  collected-requests (req ∷ reqs) (g, gs) t =
      collected-requests reqs gs (answered req.kind forward req g.text t)
      ∙ (answered-requests req.kind req g.text t).1

  pub collected-Covered :
      (reqs : List Request) (g : All (Granted w conf) reqs) (t : Tables)
      → All (IsFresh t.activation_requests) reqs
      → Covered t reqs
      → Covered (collected reqs g t) []
  collected-Covered [] g t fresh h = h
  collected-Covered (req ∷ reqs) (g, gs) t (fresh, later) h =
      collected-Covered reqs gs (answered req.kind forward req g.text t)
        (subst (λ rows. All (IsFresh rows) reqs) (sym (answered-requests req.kind req g.text t).0)
          later)
        (answered-Covered t req reqs g.text fresh h)
