-- ===== src/Proxy/Concurrent/Keeping.antt =====
-- What the concurrent server keeps, whatever its clients and the network do.
use frl_online_proxy.Prelude.{
  ◌≡◌, refl, ℕ, String, Option, none, some, List, [], ◌∷◌, All, nth, nth-All, without-All,
}
use frl_online_proxy.Outcome.{Outcome, Report}
use frl_online_proxy.Http.{World, HResponse}
use frl_online_proxy.Settings.{Settings}
use frl_online_proxy.Cops.{Request}
use frl_online_proxy.Cache.Keys.{IsPlain}
use frl_online_proxy.Cache.Open.{Cache}
use frl_online_proxy.Cache.Methods.Keeping.{KeptByMethods}
use frl_online_proxy.Proxy.Serve.Keeping.{resume-Keeps}
use frl_online_proxy.Proxy.Concurrent.{Server}
use frl_online_proxy.Proxy.Concurrent.Schedule.{
  Activity, sends, answers, leaves, admitted, take_up, finish_at, settled, perform_all,
}

-- What a client sends is not handled, or is a plain request.
abbrev pub IsPlainActivity : World → Settings → Activity → Type 0
IsPlainActivity w conf (sends parts body now) =
    (req : Request) → admitted w conf parts body now ≡ some req → IsPlain req
IsPlainActivity w conf (answers i got now) = Unit
IsPlainActivity w conf (leaves i) = Unit

-- A server whose cache obeys `P`, and where only plain requests wait.
abbrev pub Serves : (Cache → Type 0) → Server → Type 0
Serves P s = P s.self × All IsPlain s.waiting

module _ {P : Cache → Type 0} (kept : KeptByMethods P) (w : World) (conf : Settings) where
  take_up-Keeps :
      (o : Option Request) (s : Server)
      → ((req : Request) → o ≡ some req → IsPlain req)
      → Serves P s
      → Serves P (take_up w conf o s)
  take_up-Keeps none s p h = h
  take_up-Keeps (some req) s p (h, ps) =
      ((kept.store_request req (p req refl)).at s.self h, (p req refl, ps))

  finish_at-Keeps :
      (i : ℕ) (got : Outcome Report HResponse) (now : String) (o : Option Request) (s : Server)
      → nth s.waiting i ≡ o
      → Serves P s
      → Serves P (finish_at w conf i got now o s)
  finish_at-Keeps i got now none s e h = h
  finish_at-Keeps i got now (some req) s e (h, ps) = (
    (resume-Keeps kept w conf got req now (nth-All IsPlain s.waiting i ps e)).at s.self h,
    without-All IsPlain s.waiting i ps,
  )

  pub perform_all-Keeps :
      (acts : List Activity) (s : Server)
      → All (IsPlainActivity w conf) acts
      → Serves P s
      → Serves P (perform_all w conf acts s)
  unfolding perform_all
  perform_all-Keeps [] s ps h = h
  perform_all-Keeps (sends parts body now ∷ acts) s (p, ps) h =
      perform_all-Keeps acts _ ps (take_up-Keeps (admitted w conf parts body now) s p h)
  perform_all-Keeps (answers i got now ∷ acts) s (p, ps) h =
      perform_all-Keeps acts _ ps
        (finish_at-Keeps i (settled w conf got) now (nth s.waiting i) s refl h)
  perform_all-Keeps (leaves i ∷ acts) s (p, ps) (h, waiting) =
      perform_all-Keeps acts _ ps (h, without-All IsPlain s.waiting i waiting)
