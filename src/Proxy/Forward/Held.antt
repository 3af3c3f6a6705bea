-- ===== src/Proxy/Forward/Held.antt =====
-- The answers that a granted run of the forwarding leaves in the cache.
use frl_online_proxy.Prelude.{
  ◌≡◌, ◌≢◌, refl, sym, ap, ◌∙◌, String, some, List, [], ◌∷◌, All, Pairwise, arith, eq_iff, eq_refl,
}
use frl_online_proxy.Outcome.{ok}
use frl_online_proxy.Http.{World}
use frl_online_proxy.Settings.{Settings, forward}
use frl_online_proxy.Cops.{Kind, activation, deactivation, Request}
use frl_online_proxy.Cache.Keys.{activation_id}
use frl_online_proxy.Cache.Tables.{Tables}
use frl_online_proxy.Cache.Fetch.{respond}
use frl_online_proxy.Cache.Fetch.Answers.{held, held-answered}
use frl_online_proxy.Cache.Open.{Cache}
use frl_online_proxy.Cache.Methods.{fetch_response}
use frl_online_proxy.Cache.Methods.Laws.{IsLive, answered, fetch_response-live}
use frl_online_proxy.Cache.Exchange.Exported.{row_key, Apart}
use frl_online_proxy.Proxy.Forward.Granted.{Granted, collected}

module _ (w : World) (conf : Settings) where
  -- The tables hold the text with which COPS granted a request, if it is an activation.
  abbrev pub HeldAnswer : Kind → Tables → (req : Request) → Granted w conf req → Type 0
  HeldAnswer activation t req g = held t req ≡ some (respond req req.timestamp g.text)
  HeldAnswer deactivation t req g = Unit

  abbrev pub HeldAnswers : Tables → (reqs : List Request) → All (Granted w conf) reqs → Type 0
  HeldAnswers t [] g = Unit
  HeldAnswers t (req ∷ reqs) g = HeldAnswer req.kind t req g.0 × HeldAnswers t reqs g.1

  -- A fetch for a request returns that text, if it is an activation.
  abbrev pub FetchedAnswer : Kind → Cache → (req : Request) → Granted w conf req → Type 0
  FetchedAnswer activation self req g =
      (fetch_response req self).0 ≡ ok (some (respond req req.timestamp g.text))
  FetchedAnswer deactivation self req g = Unit

  abbrev pub FetchedAnswers : Cache → (reqs : List Request) → All (Granted w conf) reqs → Type 0
  FetchedAnswers self [] g = Unit
  FetchedAnswers self (req ∷ reqs) g =
      FetchedAnswer req.kind self req g.0 × FetchedAnswers self reqs g.1

  module _ {self : Cache} {t : Tables} (l : IsLive self t) where
    fetched :
        (kind : Kind) (req : Request) (g : Granted w conf req)
        → req.kind ≡ kind
        → HeldAnswer kind t req g
        → FetchedAnswer kind self req g
    fetched activation req g kind h = fetch_response-live l req kind ∙ ap ok h
    fetched deactivation req g kind h = tt

    pub live-FetchedAnswers :
        (reqs : List Request) (g : All (Granted w conf) reqs)
        → HeldAnswers t reqs g
        → FetchedAnswers self reqs g
    live-FetchedAnswers [] g h = tt
    live-FetchedAnswers (req ∷ reqs) (g, gs) (h, hs) =
        (fetched req.kind req g refl h, live-FetchedAnswers reqs gs hs)

module _ (w : World) (conf : Settings) (now : String) where
  held-other :
      (kind : Kind) (other req : Request) (text : String) (t : Tables)
      → (kind ≡ activation → row_key kind other ≢ activation_id req)
      → held (answered kind forward other text t) req ≡ held t req
  held-other activation other req text t apart =
      held-answered forward other req text t
      ∙ ground (arith, eq_iff (activation_id other) (activation_id req), apart refl)
  held-other deactivation other req text t apart = refl

  held-collected :
      (reqs : List Request) (g : All (Granted w conf) reqs) (req : Request) (t : Tables)
      → req.kind ≡ activation
      → All (Apart req) reqs
      → held (collected w conf now reqs g t) req ≡ held t req
  held-collected [] g req t kind apart = refl
  held-collected (other ∷ reqs) (g, gs) req t kind (apart, aparts) =
      held-collected reqs gs req (answered other.kind forward other g.text t) kind aparts
      ∙ held-other other.kind other req g.text t
          (λ k p. apart (kind ∙ sym k) (ap (λ x. row_key x req) kind ∙ sym p))

  held-first :
      (kind : Kind) (req : Request) (g : Granted w conf req) (t : Tables)
      → HeldAnswer w conf kind (answered kind forward req g.text t) req g
  held-first activation req g t =
      held-answered forward req req g.text t ∙ ground (arith, eq_refl (activation_id req))
  held-first deactivation req g t = tt

  held-later :
      (kind : Kind) (req : Request) (g : Granted w conf req) (t : Tables) (reqs : List Request)
      (gs : All (Granted w conf) reqs)
      → req.kind ≡ kind
      → All (Apart req) reqs
      → HeldAnswer w conf kind t req g
      → HeldAnswer w conf kind (collected w conf now reqs gs t) req g
  held-later activation req g t reqs gs kind apart h = held-collected reqs gs req t kind apart ∙ h
  held-later deactivation req g t reqs gs kind apart h = tt

  -- Requests of distinct rows do not overwrite each other's answers.
  pub collected-HeldAnswers :
      (reqs : List Request) (g : All (Granted w conf) reqs) (t : Tables)
      → Pairwise Apart reqs
      → HeldAnswers w conf (collected w conf now reqs g t) reqs g
  collected-HeldAnswers [] g t apart = tt
  collected-HeldAnswers (req ∷ reqs) (g, gs) t (apart, aparts) =
      let t' = answered req.kind forward req g.text t in
      (
        held-later req.kind req g t' reqs gs refl apart (held-first req.kind req g t),
        collected-HeldAnswers reqs gs t' aparts,
      )
