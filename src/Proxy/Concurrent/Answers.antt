-- ===== src/Proxy/Concurrent/Answers.antt =====
-- What a client gets when COPS fails, from what the clients before it did.
use frl_online_proxy.Prelude.{◌≡◌, String, ◌∙◌, ap, true, List, All}
use frl_online_proxy.Outcome.{Outcome, ok, Report}
use frl_online_proxy.Http.{World, whole, utf8, HResponse}
use frl_online_proxy.Settings.{Settings, ProxyMode}
use frl_online_proxy.Cops.{activation, Request, Response}
use frl_online_proxy.Cops.Send.{valid_headers, response_headers}
use frl_online_proxy.Cache.Keys.{IsPlain}
use frl_online_proxy.Cache.Engine.{Conn, IsHealthy}
use frl_online_proxy.Cache.Fetch.Answers.{held}
use frl_online_proxy.Cache.Invariant.{IsWellFormed}
use frl_online_proxy.Cache.Invariant.Histories.{history}
use frl_online_proxy.Cache.Contract.{accepted, replay}
use frl_online_proxy.Cache.Contract.Refines.{history-held}
use frl_online_proxy.Cache.Contract.Sound.{Source}
use frl_online_proxy.Cache.Contract.Complete.{TakenBack, Source-replay, TakenBack-replay}
use frl_online_proxy.Cache.Methods.{fetch_response}
use frl_online_proxy.Cache.Methods.Operations.{IsOn}
use frl_online_proxy.Proxy.Serve.{resume}
use frl_online_proxy.Proxy.Serve.Live.{Fails, response_to_network-ok}
use frl_online_proxy.Proxy.Concurrent.{Server, Event, Reach}
use frl_online_proxy.Proxy.Concurrent.Log.{log, Reach-IsOn}
use frl_online_proxy.Proxy.Concurrent.Sound.{
  IsPlainEvent, log-HasPlain, fetch_response-IsOn_lem, resume-failure, resume-fallback,
}

-- A fetch returns what the log of the server makes of the first answers.
fetch_response-Reach :
    (w : World) (conf : Settings) (mode : ProxyMode) (start s : Server) (c : Conn)
    (trace : List Event) (req : Request)
    → IsOn start.self c mode
    → IsWellFormed c.tables
    → All IsPlainEvent trace
    → Reach w conf start trace s
    → IsHealthy (history (log conf mode trace) c)
    → req.kind ≡ activation
    → IsPlain req
    → (fetch_response req s.self).0
      ≡ ok (replay (accepted (log conf mode trace) c) (held c.tables) req)
fetch_response-Reach w conf mode start s c trace req o wf plain r h kind p =
    let ops = log conf mode trace in
    fetch_response-IsOn_lem req s.self (history ops c) mode (Reach-IsOn w conf o r) h kind
    ∙ ap ok (history-held ops c req (log-HasPlain conf mode trace plain) wf p)

-- On a server of concurrent requests, when the network gives a failure for an activation: if the log of
-- what has happened so far has a source for its answer, a body that COPS sent with a success for a
-- request with the same activation key, neither replaced nor taken back since by an operation that the
-- database accepted, then the client gets status 200 and that body, with its own request's id. The
-- tasks interleave in any order, clients may have left, and steps of the database may have failed, but
-- it works when the client is answered. The cache is enabled and its tables were well formed at first;
-- the requests have no `|` in their application ids and library versions; the failure's body is UTF-8,
-- and the HTTP crate accepts the response's headers.
pub resume_cached :
    (w : World) (conf : Settings) (mode : ProxyMode) (start s : Server) (c : Conn)
    (trace : List Event) (req : Request) (now text : String) (got : Outcome Report HResponse)
    (resp : HResponse) (x : Response)
    → IsOn start.self c mode
    → IsWellFormed c.tables
    → All IsPlainEvent trace
    → Reach w conf start trace s
    → IsHealthy (history (log conf mode trace) c)
    → req.kind ≡ activation
    → IsPlain req
    → Source req x (accepted (log conf mode trace) c)
    → Fails got resp (utf8 text)
    → valid_headers w (response_headers w x) ≡ true
    → (resume w conf got req now s.self).0
      ≡ ok (record { status = 200; headers = response_headers w x; body = whole x.body })
resume_cached w conf mode start s c trace req now text got resp x o wf plain r h kind p source f
      valid =
    resume-fallback w conf req now text s.self got resp x f (
      fetch_response-Reach w conf mode start s c trace req o wf plain r h kind p
      ∙ ap ok (Source-replay (held c.tables) source))
    ∙ response_to_network-ok w x valid

-- On a server of concurrent requests, when the network gives a failure for an activation: if in the log
-- of what has happened so far the last operation on its answers that the database accepted is that of a
-- deactivation of its package and device, granted in a mode other than forward, then the client gets
-- the failure as it came. The tasks interleave in any order, clients may have left, and steps of the
-- database may have failed, but it works when the client is answered. The cache is enabled and its
-- tables were well formed at first; the requests have no `|` in their application ids and library
-- versions; the failure's body is UTF-8.
pub resume_revoked :
    (w : World) (conf : Settings) (mode : ProxyMode) (start s : Server) (c : Conn)
    (trace : List Event) (req : Request) (now text : String) (got : Outcome Report HResponse)
    (resp : HResponse)
    → IsOn start.self c mode
    → IsWellFormed c.tables
    → All IsPlainEvent trace
    → Reach w conf start trace s
    → IsHealthy (history (log conf mode trace) c)
    → req.kind ≡ activation
    → IsPlain req
    → TakenBack req (accepted (log conf mode trace) c)
    → Fails got resp (utf8 text)
    → (resume w conf got req now s.self).0 ≡ ok resp
resume_revoked w conf mode start s c trace req now text got resp o wf plain r h kind p revoked f =
    resume-failure w conf req now text s.self got resp f (
      fetch_response-Reach w conf mode start s c trace req o wf plain r h kind p
      ∙ ap ok (TakenBack-replay (held c.tables) revoked))
