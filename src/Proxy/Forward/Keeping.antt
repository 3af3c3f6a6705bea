-- ===== src/Proxy/Forward/Keeping.antt =====
-- What a run of `forward_stored_requests` keeps.
use mathlib.Core.Path.{subst}
use frl_online_proxy.Prelude.{
  ◌≡◌, String, Bool, Option, true, false, none, some, List, [], ◌∷◌, All,
}
use frl_online_proxy.Outcome.{Outcome, ok, err, panic, Report, ok-injective}
use frl_online_proxy.Exec.{Keeps, Keeps-bind, Keeps-after, Keeps-if, Keeps-lift, lift}
use frl_online_proxy.Http.{World, HResponse, is_success}
use frl_online_proxy.Settings.{Settings}
use frl_online_proxy.Logging.{debug_body}
use frl_online_proxy.Cops.{Request, response_from_network}
use frl_online_proxy.Cache.Keys.{IsPlain}
use frl_online_proxy.Cache.Engine.{Conn}
use frl_online_proxy.Cache.Open.{Cache}
use frl_online_proxy.Cache.Fetch.{fetch_unanswered_requests}
use frl_online_proxy.Cache.Invariant.Clean.{IsClean}
use frl_online_proxy.Cache.Invariant.Clean.Reads.{fetch_unanswered_requests-IsPlain}
use frl_online_proxy.Cache.Methods.{logged, store_response, fetch_forwarding_requests}
use frl_online_proxy.Cache.Methods.Keeping.{
  Holds, KeptByMethods, Holds-KeptByMethods, IsClean-IsKept,
}
use frl_online_proxy.Proxy.Call.{call_cops}
use frl_online_proxy.Proxy.Forward.{
  Tally, read_body, received, answer, forward_all, forward_stored_requests,
}

module _ {P : Cache → Type 0} (kept : KeptByMethods P) (w : World) (conf : Settings)
    (now : String) where
  answer-Keeps :
      (req : Request) (tally : Tally) (o : Outcome Report HResponse)
      → IsPlain req
      → Keeps P (answer w conf now req tally o)
  unfolding received
  answer-Keeps req tally (ok resp) p =
      Keeps-bind (lift (read_body resp.body)) _ (Keeps-lift _) λ body.
        Keeps-bind (lift (debug_body conf body)) _ (Keeps-lift _) λ _.
          Keeps-if (is_success resp.status)
            (Keeps-bind (store_response req (response_from_network req body now)) _
              (kept.store_response req _ p) λ _. Keeps-lift (ok _))
            (Keeps-lift (ok _))
  answer-Keeps req tally (err e) p = Keeps-lift (ok tally)
  answer-Keeps req tally panic p = record { at = λ s h. h }

  pub forward_all-Keeps :
      (reqs : List Request) (tally : Tally)
      → All IsPlain reqs
      → Keeps P (forward_all w conf now reqs tally)
  unfolding forward_all
  forward_all-Keeps [] tally h = Keeps-lift (ok tally)
  forward_all-Keeps (req ∷ reqs) tally (p, h) =
      Keeps-bind (answer w conf now req tally (call_cops w conf req)) _
        (answer-Keeps req tally (call_cops w conf req) p) λ next. forward_all-Keeps reqs next h

logged-IsPlain :
    (got : Outcome Report (List Request)) (self : Cache) (reqs : List Request)
    → (got ≡ ok reqs → All IsPlain reqs)
    → (logged [] (got, self)).0 ≡ ok reqs
    → All IsPlain reqs
logged-IsPlain (ok found) self reqs p e = p e
logged-IsPlain (err x) self reqs p e = subst (All IsPlain) (ok-injective e) tt
logged-IsPlain panic self reqs p e = cc

waiting-IsPlain :
    (self : Cache) (reqs : List Request)
    → Holds IsClean self
    → (fetch_forwarding_requests self).0 ≡ ok reqs
    → All IsPlain reqs
unfolding fetch_forwarding_requests
waiting-IsPlain self reqs = go self.enabled self.db_pool
  where
    go :
        (enabled : Bool) (pool : Option Conn)
        → Holds IsClean (record { enabled = enabled; mode = self.mode; db_pool = pool })
        → (fetch_forwarding_requests
            (record { enabled = enabled; mode = self.mode; db_pool = pool })).0
          ≡ ok reqs
        → All IsPlain reqs
    go false pool h e = subst (All IsPlain) (ok-injective e) tt
    go true none h e = cc
    go true (some c) h e =
        logged-IsPlain (fetch_unanswered_requests c).0 _ reqs
          (fetch_unanswered_requests-IsPlain c reqs h) e

-- Forwarding keeps a clean database clean, whatever COPS answers and whatever fails in the database.
pub forward_stored_requests-Keeps :
    (w : World) (conf : Settings) (now : String)
    → Keeps (Holds IsClean) (forward_stored_requests w conf now)
unfolding forward_stored_requests
forward_stored_requests-Keeps w conf now =
    let kept = Holds-KeptByMethods IsClean IsClean-IsKept in
    Keeps-after (Holds IsClean) fetch_forwarding_requests _ kept.fetch_forwarding_requests
      λ self reqs h got after.
        (forward_all-Keeps kept w conf now reqs _ (waiting-IsPlain self reqs h got)).at _ after
