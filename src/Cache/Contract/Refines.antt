-- ===== src/Cache/Contract/Refines.antt =====
-- Every history of the tables keeps the contract, whatever steps of the database fail.
use frl_online_proxy.Prelude.{◌≡◌, refl, sym, ap, ◌∙◌, List, [], ◌∷◌, All}
use frl_online_proxy.Outcome.{Outcome, ok, err, panic, Report}
use frl_online_proxy.Settings.{forward}
use frl_online_proxy.Cops.{Request}
use frl_online_proxy.Cache.Keys.{IsPlain}
use frl_online_proxy.Cache.Engine.{Conn, IsHealthy}
use frl_online_proxy.Cache.Fetch.{fetch_activation_response}
use frl_online_proxy.Cache.Fetch.Answers.{held, fetch_activation_response_lem}
use frl_online_proxy.Cache.Invariant.{IsWellFormed}
use frl_online_proxy.Cache.Invariant.Histories.{
  Op, activation_request, deactivation_request, activation_response, deactivation_response, lookup,
  run, HasPlain, history, run-Keeps,
}
use frl_online_proxy.Cache.Contract.{View, meaning, replay, if_accepted, accepted}
use frl_online_proxy.Cache.Contract.Steps.{settled, run-held}

meaning-cong : (op : Op) (u v : View) (r : Request) → u r ≡ v r → meaning op u r ≡ meaning op v r
meaning-cong (activation_request req) u v r e = e
meaning-cong (deactivation_request req) u v r e = e
meaning-cong (lookup kind req) u v r e = e
meaning-cong (activation_response mode req resp) u v r e = rw e
meaning-cong (deactivation_response forward req resp) u v r e = e
meaning-cong (deactivation_response _ req resp) u v r e = rw e

-- The operations read a view at one request only.
pub replay-cong :
    (ops : List Op) (u v : View) (r : Request) → u r ≡ v r → replay ops u r ≡ replay ops v r
replay-cong [] u v r e = e
replay-cong (op ∷ ops) u v r e =
    replay-cong ops (meaning op u) (meaning op v) r (meaning-cong op u v r e)

replay-if_accepted :
    (o : Outcome Report (Unit {0})) (op : Op) (ops : List Op) (v : View)
    → replay (if_accepted o op ops) v ≡ replay ops (settled o op v)
replay-if_accepted (ok a) op ops v = refl
replay-if_accepted (err e) op ops v = refl
replay-if_accepted panic op ops v = refl

pub history-held :
    (ops : List Op) (c : Conn) (r : Request)
    → All HasPlain ops
    → IsWellFormed c.tables
    → IsPlain r
    → held (history ops c).tables r ≡ replay (accepted ops c) (held c.tables) r
unfolding history accepted
history-held [] c r h w p = refl
history-held (op ∷ ops) c r (q, h) w p =
    let later = history-held ops (run op c).1 r h ((run-Keeps op q).at c w) p in
    later
    ∙ replay-cong (accepted ops (run op c).1) _ _ r (run-held c r w p op)
    ∙ sym
        (ap (λ (v : View). v r) (replay-if_accepted (run op c).0 op (accepted ops (run op c).1) _))

-- The cache keeps its contract: after any operations in any order, with any steps of the database
-- failing, a fetch on a connection that works again returns what the operations that had returned
-- make of the first answers, each by its meaning. The tables were well formed, and the answered
-- requests and the one that is asked for have no `|` in their application ids and library versions.
pub history-refines :
    (ops : List Op) (c : Conn) (r : Request)
    → All HasPlain ops
    → IsWellFormed c.tables
    → IsPlain r
    → IsHealthy (history ops c)
    → (fetch_activation_response r (history ops c)).0
      ≡ ok (replay (accepted ops c) (held c.tables) r)
history-refines ops c r h w p healthy =
    fetch_activation_response_lem r (history ops c) healthy ∙ ap ok (history-held ops c r h w p)
