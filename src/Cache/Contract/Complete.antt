-- ===== src/Cache/Contract/Complete.antt =====
-- What COPS has given is what the cache answers, and what it has taken back is not.
use frl_online_proxy.Prelude.{◌≡◌, refl, ◌∙◌, none, some, List, [], ◌∷◌, eq_iff, All, arith}
use frl_online_proxy.Settings.{forward}
use frl_online_proxy.Cops.{Request, Response}
use frl_online_proxy.Cache.Keys.{activation_id, deactivation_id}
use frl_online_proxy.Cache.Invariant.Histories.{
  Op, activation_request, deactivation_request, activation_response, deactivation_response, lookup,
}
use frl_online_proxy.Cache.Contract.{View, meaning, replay}
use frl_online_proxy.Cache.Contract.Sound.{Gives, Affects, Source, given, further}

-- The operation takes back the answers of the device of `r`.
abbrev pub Revokes : Op → Request → Type 0
Revokes (deactivation_response forward req resp) r = ⊥
Revokes (deactivation_response _ req resp) r = deactivation_id req ≡ deactivation_id r
Revokes _ r = ⊥

-- Among the operations, the last that affects `r` takes its answers back.
pub data TakenBack (r : Request) : List Op → Type 0 where
  taken :
      (op : Op) (later : List Op)
      → Revokes op r
      → All (λ o. ¬ Affects o r) later
      → TakenBack r (op ∷ later)
  since : (op : Op) (later : List Op) → TakenBack r later → TakenBack r (op ∷ later)

meaning-unaffected : (op : Op) (v : View) (r : Request) → (¬ Affects op r) → meaning op v r ≡ v r
meaning-unaffected (activation_request req) v r h = refl
meaning-unaffected (deactivation_request req) v r h = refl
meaning-unaffected (lookup kind req) v r h = refl
meaning-unaffected (activation_response mode req resp) v r h =
    ground (arith, eq_iff (activation_id req) (activation_id r))
meaning-unaffected (deactivation_response forward req resp) v r h = refl
meaning-unaffected (deactivation_response _ req resp) v r h =
    ground (arith, eq_iff (deactivation_id req) (deactivation_id r))

meaning-given :
    (op : Op) (v : View) (r : Request) (x : Response) → Gives op r x → meaning op v r ≡ some x
meaning-given (activation_response mode req resp) v r x (same, e) =
    ground (arith, eq_iff (activation_id req) (activation_id r))
meaning-given (activation_request req) v r x g = absurd g
meaning-given (deactivation_request req) v r x g = absurd g
meaning-given (deactivation_response mode req resp) v r x g = absurd g
meaning-given (lookup kind req) v r x g = absurd g

meaning-revoked : (op : Op) (v : View) (r : Request) → Revokes op r → meaning op v r ≡ none
meaning-revoked (deactivation_response forward req resp) v r h = absurd h
meaning-revoked (deactivation_response _ req resp) v r h =
    ground (arith, eq_iff (deactivation_id req) (deactivation_id r))
meaning-revoked (activation_request req) v r h = absurd h
meaning-revoked (deactivation_request req) v r h = absurd h
meaning-revoked (activation_response mode req resp) v r h = absurd h
meaning-revoked (lookup kind req) v r h = absurd h

replay-unaffected :
    (ops : List Op) (v : View) (r : Request) → All (λ o. ¬ Affects o r) ops → replay ops v r ≡ v r
replay-unaffected [] v r h = refl
replay-unaffected (op ∷ ops) v r (k, h) =
    replay-unaffected ops (meaning op v) r h ∙ meaning-unaffected op v r k

-- Whatever the view was before, the last operation that affects a request decides its answer.
pub Source-replay :
    {r : Request} {x : Response} {ops : List Op} (v : View)
    → Source r x ops
    → replay ops v r ≡ some x
Source-replay v (given op later g rest) =
    replay-unaffected later (meaning op v) _ rest ∙ meaning-given op v _ _ g
Source-replay v (further op later s) = Source-replay (meaning op v) s

pub TakenBack-replay :
    {r : Request} {ops : List Op} (v : View) → TakenBack r ops → replay ops v r ≡ none
TakenBack-replay v (taken op later g rest) =
    replay-unaffected later (meaning op v) _ rest ∙ meaning-revoked op v _ g
TakenBack-replay v (since op later s) = TakenBack-replay (meaning op v) s
