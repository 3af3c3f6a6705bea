-- ===== src/Proxy/Concurrent/Log.antt =====
-- What a server of concurrent requests does to its database is a history of operations.
use mathlib.Core.Path.{subst}
use frl_online_proxy.Prelude.{
  ℕ, ◌≡◌, refl, sym, ap, ◌∙◌, Bool, true, false, String, Option, none, some, List, [], ◌∷◌, ◌++◌,
  if◌then◌else◌,
}
use frl_online_proxy.Outcome.{Outcome, ok, err, panic, Report}
use mathlib.Core.List.{append-nil, append_assoc}
use frl_online_proxy.Exec.{Exec, continue}
use frl_online_proxy.Http.{World, Bytes, Body, whole, broken, HResponse, is_success}
use frl_online_proxy.Settings.{Settings, ProxyMode}
use frl_online_proxy.Logging.{debug_body}
use frl_online_proxy.Cops.{Request, Response, response_from_network}
use frl_online_proxy.Cache.Engine.{Conn}
use frl_online_proxy.Cache.Invariant.Histories.{Op, lookup, run, history, history-append}
use frl_online_proxy.Cache.Open.{Cache}
use frl_online_proxy.Cache.Methods.{store_response, fetch_response}
use frl_online_proxy.Proxy.Serve.{failed, succeeded, finish, resume}
use frl_online_proxy.Cache.Methods.Operations.{
  request_op, response_op, IsOn, store_request-IsOn, store_response-IsOn, fetch_response-IsOn,
}
use frl_online_proxy.Proxy.Concurrent.{
  Server, Event, arrived, replied, dropped, Step, arrive, reply, cancel, Reach, here, next,
}

-- An operation that is reached only where the log line before it does not panic.
abbrev pub unless_panic : Outcome Report (Unit {0}) → Op → List Op
unless_panic (ok a) op = op ∷ []
unless_panic (err e) op = []
unless_panic panic op = []

module _ (conf : Settings) (mode : ProxyMode) where
  -- The operations that follow the network's outcome: a success is stored, a failure looked up.
  abbrev pub reply_ops : Request → Outcome Report HResponse → String → List Op
  reply_ops req (ok resp) now = elim resp.body [
    | whole bytes ↦
        if is_success resp.status
        then unless_panic (debug_body conf bytes)
            (response_op req.kind mode req (response_from_network req bytes now))
        else lookup req.kind req ∷ []
    | broken e ↦ []
  ]
  reply_ops req (err e) now = []
  reply_ops req panic now = []

  abbrev pub event_ops : Event → List Op
  event_ops (arrived req) = request_op req.kind req ∷ []
  event_ops (replied req got now) = reply_ops req got now
  event_ops (dropped req) = []

  abbrev pub log : List Event → List Op
  log [] = []
  log (e ∷ es) = event_ops e ++ log es

continue-state :
    {A B : Type 0} (o : Outcome Report A) (f : A → Outcome Report B) (self : Cache)
    → (continue o (λ a s. (f a, s)) self).1 ≡ self
continue-state (ok a) f self = refl
continue-state (err e) f self = refl
continue-state panic f self = refl

module _ (w : World) (conf : Settings) where
  failed-state :
      (resp : HResponse) (bytes : Bytes) (found : Option Response) (self : Cache)
      → (failed w conf resp bytes found self).1 ≡ self
  unfolding failed
  failed-state resp bytes none self = continue-state (debug_body conf bytes) _ self
  failed-state resp bytes (some x) self = refl

  fallback-state :
      (resp : HResponse) (bytes : Bytes) (o : Outcome Report (Option Response)) (self : Cache)
      → (continue o (failed w conf resp bytes) self).1 ≡ self
  fallback-state resp bytes (ok found) self = failed-state resp bytes found self
  fallback-state resp bytes (err e) self = refl
  fallback-state resp bytes panic self = refl

  module _ {self : Cache} {c : Conn} {mode : ProxyMode} (o : IsOn self c mode) (req : Request)
      (now : String) where
    guarded-IsOn :
        (d : Outcome Report (Unit {0})) (op : Op) (following : Exec Cache HResponse)
        → IsOn (following self).1 (run op c).1 mode
        → IsOn (continue d (λ _. following) self).1 (history (unless_panic d op) c) mode
    unfolding history
    guarded-IsOn (ok a) op following h = h
    guarded-IsOn (err e) op following h = o
    guarded-IsOn panic op following h = o

    succeeded-IsOn :
        (resp : HResponse) (bytes : Bytes)
        → IsOn
            (succeeded w conf req now resp bytes self).1
            (history
              (unless_panic
                (debug_body conf bytes)
                (response_op req.kind mode req (response_from_network req bytes now)))
              c)
            mode
    unfolding succeeded
    succeeded-IsOn resp bytes =
        let new = response_from_network req bytes now in
        let op = response_op req.kind mode req new in
        guarded-IsOn (debug_body conf bytes) op _ (
          subst (λ x. IsOn x (run op c).1 mode)
            (sym (
              continue-state (store_response req new self).0
                (λ _. ok (record resp { body = whole bytes })) (store_response req new self).1))
            (store_response-IsOn o req new))

    fallback-IsOn :
        (resp : HResponse) (bytes : Bytes)
        → IsOn
            (continue
              (fetch_response req self).0
              (failed w conf resp bytes)
              (fetch_response req self).1).1
            (run (lookup req.kind req) c).1
            mode
    fallback-IsOn resp bytes =
        subst (λ x. IsOn x (run (lookup req.kind req) c).1 mode)
          (sym (fallback-state resp bytes (fetch_response req self).0 (fetch_response req self).1))
          (fetch_response-IsOn o req)

    finish-IsOn :
        (status : ℕ) (headers : List (String × String)) (body : Body)
        → IsOn
            (finish w conf req now
              (record { status = status; headers = headers; body = body })
              self).1
            (history
              (reply_ops conf mode req
                (ok (record { status = status; headers = headers; body = body }))
                now)
              c)
            mode
    unfolding finish history
    finish-IsOn status headers (broken e) = o
    finish-IsOn status headers (whole bytes) = go (is_success status)
      where
        resp : HResponse
        resp = record { status = status; headers = headers; body = whole bytes }

        go :
            (b : Bool)
            → IsOn
                ((if b then succeeded w conf req now resp bytes else (λ s.
                    continue
                      (fetch_response req s).0
                      (failed w conf resp bytes)
                      (fetch_response req s).1))
                  self).1
                (history
                  (if b
                    then unless_panic
                        (debug_body conf bytes)
                        (response_op req.kind mode req (response_from_network req bytes now))
                    else lookup req.kind req ∷ [])
                  c)
                mode
        go true = succeeded-IsOn resp bytes
        go false = fallback-IsOn resp bytes

    resume-IsOn :
        (got : Outcome Report HResponse)
        → IsOn (resume w conf got req now self).1 (history (reply_ops conf mode req got now) c) mode
    unfolding resume history
    resume-IsOn (ok resp) = finish-IsOn resp.status resp.headers resp.body
    resume-IsOn (err e) = o
    resume-IsOn panic = o

log-append :
    (conf : Settings) (mode : ProxyMode) (es : List Event) (e : Event)
    → log conf mode (es ++ e ∷ []) ≡ log conf mode es ++ event_ops conf mode e
log-append conf mode [] e = append-nil _
log-append conf mode (x ∷ es) e =
    ap (λ t. event_ops conf mode x ++ t) (log-append conf mode es e)
    ∙ sym (append_assoc (event_ops conf mode x) (log conf mode es) (event_ops conf mode e))

Step-IsOn :
    (w : World) (conf : Settings) {s t : Server} {e : Event} {d : Conn} {mode : ProxyMode}
    → IsOn s.self d mode
    → Step w conf s e t
    → IsOn t.self (history (event_ops conf mode e) d) mode
unfolding history
Step-IsOn w conf on (arrive s req) = store_request-IsOn on req
Step-IsOn w conf on (reply s req got now before after found) = resume-IsOn w conf on req now got
Step-IsOn w conf on (cancel s req before after found) = on

-- Whatever the interleaving, the database has run the log of the events, in their order.
pub Reach-IsOn :
    (w : World) (conf : Settings) {start : Server} {c : Conn} {mode : ProxyMode}
    {trace : List Event} {s : Server}
    → IsOn start.self c mode
    → Reach w conf start trace s
    → IsOn s.self (history (log conf mode trace) c) mode
unfolding history
Reach-IsOn w conf o here = o
Reach-IsOn w conf {start} {c} {mode} o (next trace e {s} {t} r st) =
    subst (λ d. IsOn t.self d mode)
      (sym (
        ap (λ ops. history ops c) (log-append conf mode trace e)
        ∙ history-append (log conf mode trace) (event_ops conf mode e) c))
      (Step-IsOn w conf (Reach-IsOn w conf o r) st)
