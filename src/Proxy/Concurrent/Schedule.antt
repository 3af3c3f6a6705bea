-- ===== src/Proxy/Concurrent/Schedule.antt =====
-- The concurrent server, run by a list of what the clients and the network do.
pub mod Runs
use frl_online_proxy.Prelude.{
  ℕ, zero, suc, String, Option, none, some, List, [], ◌∷◌, nth, without, if◌then◌else◌,
}
use frl_online_proxy.Outcome.{Outcome, ok, err, panic, Report}
use frl_online_proxy.Http.{World, Parts, Bytes, Body, to_bytes, HResponse}
use frl_online_proxy.Settings.{Settings}
use frl_online_proxy.Logging.{debug_body}
use frl_online_proxy.Cops.{Request, BadRequest}
use frl_online_proxy.Cops.Receive.{from_network}
use frl_online_proxy.Cache.Methods.{store_request}
use frl_online_proxy.Proxy.Call.{proxy_offline_response}
use frl_online_proxy.Proxy.Serve.{is_store, or_failure, resume}
use frl_online_proxy.Proxy.Concurrent.{Server}

-- A client sends a request at a time, or the network gives its outcome for the request at a place
-- among those that wait, at a time; or the client of the request at a place leaves.
pub data Activity : Type 0 where
  sends : Parts → Body → String → Activity
  answers : ℕ → Outcome Report HResponse → String → Activity
  leaves : ℕ → Activity

module _ (w : World) (conf : Settings) where
  abbrev understood : Outcome BadRequest Request → Option Request
  understood (ok req) = some req
  understood (err e) = none
  understood panic = none

  abbrev pub logged_body : Parts → String → Bytes → Outcome Report (Unit {0}) → Option Request
  logged_body parts now bytes (ok a) = understood (from_network w parts bytes now)
  logged_body parts now bytes (err e) = none
  logged_body parts now bytes panic = none

  abbrev taken_body : Parts → String → Outcome Report Bytes → Option Request
  taken_body parts now (ok bytes) = logged_body parts now bytes (debug_body conf bytes)
  taken_body parts now (err e) = none
  taken_body parts now panic = none

  -- The request that is handled, where what the client sends can be read and is understood.
  abbrev pub admitted : Parts → Body → String → Option Request
  admitted parts body now = taken_body parts now (to_bytes body)

  abbrev pub take_up : Option Request → Server → Server
  take_up none s = s
  take_up (some req) s = record { self = (store_request req s.self).1; waiting = req ∷ s.waiting }

  abbrev pub finish_at : ℕ → Outcome Report HResponse → String → Option Request → Server → Server
  finish_at i got now none s = s
  finish_at i got now (some req) s = record {
    self = (resume w conf got req now s.self).1;
    waiting = without s.waiting i;
  }

  -- What a task gets for the outcome of its call; store mode does not call.
  abbrev pub settled : Outcome Report HResponse → Outcome Report HResponse
  settled got = if is_store conf.proxy.mode then proxy_offline_response w else or_failure w conf got

  abbrev pub perform : Activity → Server → Server
  perform (sends parts body now) s = take_up (admitted parts body now) s
  perform (answers i got now) s = finish_at i (settled got) now (nth s.waiting i) s
  perform (leaves i) s = record s { waiting = without s.waiting i }

  unfoldable pub perform_all : List Activity → Server → Server
  perform_all [] s = s
  perform_all (a ∷ rest) s = perform_all rest (perform a s)
