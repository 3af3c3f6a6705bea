-- ===== src/Proxy/Concurrent/Sound.antt =====
-- What a server of concurrent requests keeps, and what its clients get when COPS fails.
use frl_online_proxy.Prelude.{
  ◌≡◌, sym, ap, ◌∙◌, ◌⊎◌, inl, inr, Bool, true, false, String, none, some, List, [], ◌∷◌, arith,
  if◌then◌else◌, All, All-append, Option-cases,
}
use frl_online_proxy.Outcome.{Outcome, ok, err, panic, Report}
use frl_online_proxy.Http.{World, Body, whole, broken, HResponse, is_success, utf8}
use frl_online_proxy.Settings.{Settings, ProxyMode}
use frl_online_proxy.Logging.{debug_body}
use frl_online_proxy.Cops.{Kind, activation, deactivation, Request, Response, response_from_network}
use frl_online_proxy.Cops.Send.{response_to_network}
use frl_online_proxy.Cache.Keys.{IsPlain}
use frl_online_proxy.Cache.Engine.{Conn, IsHealthy}
use frl_online_proxy.Cache.Fetch.Answers.{held, fetch_activation_response_lem}
use frl_online_proxy.Cache.Invariant.{IsWellFormed}
use frl_online_proxy.Cache.Invariant.Histories.{Op, history, HasPlain, history-IsWellFormed}
use frl_online_proxy.Cache.Contract.{accepted}
use frl_online_proxy.Cache.Contract.Refines.{history-held}
use frl_online_proxy.Cache.Contract.Sound.{Source, replay-Source}
use frl_online_proxy.Cache.Open.{Cache}
use frl_online_proxy.Cache.Methods.{fetch_response}
use frl_online_proxy.Cache.Methods.Keeping.{HasWellFormed}
use frl_online_proxy.Cache.Methods.Operations.{request_op, response_op, IsOn}
use frl_online_proxy.Proxy.Serve.{resume}
use frl_online_proxy.Proxy.Serve.Live.{Fails, debug_body-utf8}
use frl_online_proxy.Proxy.Concurrent.{Server, Event, arrived, replied, dropped, Reach}
use frl_online_proxy.Proxy.Concurrent.Log.{unless_panic, reply_ops, event_ops, log, Reach-IsOn}

-- A request that is answered has no `|` in its application id and library version.
abbrev pub IsPlainEvent : Event → Type 0
IsPlainEvent (arrived req) = Unit
IsPlainEvent (replied req got now) = IsPlain req
IsPlainEvent (dropped req) = Unit

response_op-HasPlain :
    (kind : Kind) (mode : ProxyMode) (req : Request) (resp : Response)
    → IsPlain req
    → HasPlain (response_op kind mode req resp)
response_op-HasPlain activation mode req resp p = p
response_op-HasPlain deactivation mode req resp p = tt

request_op-HasPlain : (kind : Kind) (req : Request) → HasPlain (request_op kind req)
request_op-HasPlain activation req = tt
request_op-HasPlain deactivation req = tt

unless_panic-HasPlain :
    (d : Outcome Report (Unit {0})) (op : Op) → HasPlain op → All HasPlain (unless_panic d op)
unless_panic-HasPlain (ok a) op p = (p, tt)
unless_panic-HasPlain (err e) op p = tt
unless_panic-HasPlain panic op p = tt

if-HasPlain :
    (b : Bool) (xs ys : List Op)
    → All HasPlain xs
    → All HasPlain ys
    → All HasPlain (if b then xs else ys)
if-HasPlain true xs ys h k = h
if-HasPlain false xs ys h k = k

module _ (conf : Settings) (mode : ProxyMode) where
  response_ops-HasPlain :
      (req : Request) (now : String) (resp : HResponse) (body : Body)
      → IsPlain req
      → All HasPlain (reply_ops conf mode req (ok (record resp { body = body })) now)
  response_ops-HasPlain req now resp (broken e) p = tt
  response_ops-HasPlain req now resp (whole bytes) p =
      if-HasPlain (is_success resp.status) _ _
        (unless_panic-HasPlain (debug_body conf bytes) _
          (response_op-HasPlain req.kind mode req (response_from_network req bytes now) p))
        (tt, tt)

  event_ops-HasPlain : (e : Event) → IsPlainEvent e → All HasPlain (event_ops conf mode e)
  event_ops-HasPlain (arrived req) p = (request_op-HasPlain req.kind req, tt)
  event_ops-HasPlain (replied req (ok resp) now) p = response_ops-HasPlain req now resp resp.body p
  event_ops-HasPlain (replied req (err e) now) p = tt
  event_ops-HasPlain (replied req panic now) p = tt
  event_ops-HasPlain (dropped req) p = tt

  pub log-HasPlain :
      (trace : List Event) → All IsPlainEvent trace → All HasPlain (log conf mode trace)
  log-HasPlain [] h = tt
  log-HasPlain (e ∷ es) (p, h) =
      All-append HasPlain (event_ops conf mode e) (log conf mode es) (event_ops-HasPlain e p)
        (log-HasPlain es h)

-- However the tasks of concurrent requests interleave, and whatever the network gives them and fails
-- in the database, the cache's tables stay well formed. The answered requests have no `|` in their
-- application ids and library versions.
pub Reach-IsWellFormed :
    (w : World) (conf : Settings) (mode : ProxyMode) (start s : Server) (c : Conn)
    (trace : List Event)
    → IsOn start.self c mode
    → IsWellFormed c.tables
    → All IsPlainEvent trace
    → Reach w conf start trace s
    → HasWellFormed s.self
Reach-IsWellFormed w conf mode start s c trace o wf plain r =
    let on = Reach-IsOn w conf o r in
    rw on.pool
      (history-IsWellFormed (log conf mode trace) c (log-HasPlain conf mode trace plain) wf)

pub fetch_response-IsOn_lem :
    (req : Request) (self : Cache) (c : Conn) (mode : ProxyMode)
    → IsOn self c mode
    → IsHealthy c
    → req.kind ≡ activation
    → (fetch_response req self).0 ≡ ok (held c.tables req)
unfolding fetch_response
fetch_response-IsOn_lem req self c mode o h kind =
    ground (arith, fetch_activation_response_lem req c h, o.enabled, o.pool)

module _ (w : World) (conf : Settings) (req : Request) (now text : String) (self : Cache)
    (got : Outcome Report HResponse) (resp : HResponse) where
  pub resume-failure :
      Fails got resp (utf8 text)
      → (fetch_response req self).0 ≡ ok none
      → (resume w conf got req now self).0 ≡ ok resp
  unfolding resume
  resume-failure f e = ground (arith, debug_body-utf8 conf text)

  pub resume-fallback :
      (x : Response)
      → Fails got resp (utf8 text)
      → (fetch_response req self).0 ≡ ok (some x)
      → (resume w conf got req now self).0 ≡ response_to_network w x
  unfolding resume
  resume-fallback x f e = ground arith

-- On a server of concurrent requests, whose cache at first held no answer for an activation: when the
-- network gives a failure for it, the client gets either that failure as it came, or a response made of
-- an answer whose source is in the log of what has happened so far: the body that COPS sent with a
-- success for a request with the same activation key, neither replaced nor taken back since by an
-- operation that the database accepted. The tasks interleave in any order and steps of the database
-- may have failed, but it works when the client is answered. The tables were well formed at first, the
-- requests have no `|` in their application ids and library versions, and the failure's body is UTF-8.
pub resume_sound :
    (w : World) (conf : Settings) (mode : ProxyMode) (start s : Server) (c : Conn)
    (trace : List Event) (req : Request) (now text : String) (got : Outcome Report HResponse)
    (resp : HResponse)
    → IsOn start.self c mode
    → IsWellFormed c.tables
    → held c.tables req ≡ none
    → All IsPlainEvent trace
    → Reach w conf start trace s
    → IsHealthy (history (log conf mode trace) c)
    → req.kind ≡ activation
    → IsPlain req
    → Fails got resp (utf8 text)
    → ((resume w conf got req now s.self).0 ≡ ok resp)
      ⊎ ((x : Response) × ((resume w conf got req now s.self).0 ≡ response_to_network w x)
          × Source req x (accepted (log conf mode trace) c))
resume_sound w conf mode start s c trace req now text got resp o wf start_none plain r h kind p f =
    let ops = log conf mode trace in
    let fetched =
      fetch_response-IsOn_lem req s.self (history ops c) mode (Reach-IsOn w conf o r) h kind in
    let refined = history-held ops c req (log-HasPlain conf mode trace plain) wf p in
    elim (Option-cases (held (history ops c).tables req)) [
      | inl absent ↦
          inl (resume-failure w conf req now text s.self got resp f (fetched ∙ ap ok absent))
      | inr (x, found) ↦ inr (
        x,
        resume-fallback w conf req now text s.self got resp x f (fetched ∙ ap ok found),
        elim (replay-Source (accepted ops c) (held c.tables) req x (sym refined ∙ found)) [
          | inl (before, _) ↦ absurd (ground arith)
          | inr source ↦ source
        ],
      )
    ]
