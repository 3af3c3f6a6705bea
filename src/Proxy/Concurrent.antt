-- ===== src/Proxy/Concurrent.antt =====
-- Requests that are served at the same time, on one shared cache, as the services that proxy/plain.rs and
-- proxy/secure.rs build are run. How hyper runs their tasks is not code of the program: what is here is
-- `serve_req` of proxy.rs in two parts. A task runs up to its call of COPS, waits there while other tasks
-- run, and then goes on; or its client leaves, and hyper drops the task at that wait.
pub mod Log
pub mod Sound
pub mod Schedule
pub mod Answers
pub mod Keeping
use frl_online_proxy.Prelude.{◌≡◌, String, List, [], ◌∷◌, ◌++◌}
use frl_online_proxy.Outcome.{Outcome, Report}
use frl_online_proxy.Http.{World, HResponse}
use frl_online_proxy.Settings.{Settings}
use frl_online_proxy.Cops.{Request}
use frl_online_proxy.Cache.Open.{Cache}
use frl_online_proxy.Cache.Methods.{store_request}
use frl_online_proxy.Proxy.Serve.{resume}

-- The shared cache, and the requests whose tasks wait for the network.
pub record Server : Type 0 where
  pub self : Cache
  pub waiting : List Request

-- What happens: a request arrives and is stored; the network gives its outcome for one that waits, at
-- a time; or the client of one that waits leaves, and its task is dropped. Each calls the database once
-- at most, so that it is one step.
pub data Event : Type 0 where
  arrived : Request → Event
  replied : Request → Outcome Report HResponse → String → Event
  dropped : Request → Event

module _ (w : World) (conf : Settings) where
  pub data Step : Server → Event → Server → Type 0 where
    arrive :
        (s : Server) (req : Request)
        → Step s
            (arrived req)
            (record { self = (store_request req s.self).1; waiting = req ∷ s.waiting })
    reply :
        (s : Server) (req : Request) (got : Outcome Report HResponse) (now : String)
        (before after : List Request)
        → s.waiting ≡ before ++ req ∷ after
        → Step s
            (replied req got now)
            (record { self = (resume w conf got req now s.self).1; waiting = before ++ after })
    cancel :
        (s : Server) (req : Request) (before after : List Request)
        → s.waiting ≡ before ++ req ∷ after
        → Step s (dropped req) (record s { waiting = before ++ after })

  -- The servers that are reached from `start`, each by the events so far.
  pub data Reach (start : Server) : List Event → Server → Type 0 where
    here : Reach start [] start
    next :
        (trace : List Event) (e : Event) {s t : Server}
        → Reach start trace s
        → Step s e t
        → Reach start (trace ++ e ∷ []) t
