-- ===== src/Cache/Contract/Sound.antt =====
-- Every answer of the cache was once given by COPS, and has not been taken back since.
use frl_online_proxy.Prelude.{
  ◌≡◌, ◌⊎◌, inl, inr, none, some, List, [], ◌∷◌, ◌==◌, eq_iff, All, arith, Bool-cases,
}
use frl_online_proxy.Outcome.{ok}
use frl_online_proxy.Settings.{forward}
use frl_online_proxy.Cops.{Request, Response}
use frl_online_proxy.Cache.Keys.{activation_id, deactivation_id, IsPlain}
use frl_online_proxy.Cache.Engine.{Conn, IsHealthy}
use frl_online_proxy.Cache.Fetch.{fetch_activation_response}
use frl_online_proxy.Cache.Fetch.Answers.{held}
use frl_online_proxy.Cache.Invariant.{IsWellFormed}
use frl_online_proxy.Cache.Invariant.Histories.{
  Op, activation_request, deactivation_request, activation_response, deactivation_response, lookup,
  HasPlain, history,
}
use frl_online_proxy.Cache.Contract.{View, readdressed, meaning, replay, accepted}
use frl_online_proxy.Cache.Contract.Refines.{history-refines}

-- The operation gives `r` the answer `x`.
abbrev pub Gives : Op → Request → Response → Type 0
Gives (activation_response mode req resp) r x =
    (activation_id req ≡ activation_id r) × (x ≡ readdressed req resp r)
Gives _ r x = ⊥

-- The operation gives `r` an answer, or takes it back.
abbrev pub Affects : Op → Request → Type 0
Affects (activation_response mode req resp) r = activation_id req ≡ activation_id r
Affects (deactivation_response forward req resp) r = ⊥
Affects (deactivation_response _ req resp) r = deactivation_id req ≡ deactivation_id r
Affects _ r = ⊥

-- Among the operations, the last that affects `r` gives it the answer `x`.
pub data Source (r : Request) (x : Response) : List Op → Type 0 where
  given :
      (op : Op) (later : List Op)
      → Gives op r x
      → All (λ o. ¬ Affects o r) later
      → Source r x (op ∷ later)
  further : (op : Op) (later : List Op) → Source r x later → Source r x (op ∷ later)

meaning-Source :
    (op : Op) (v : View) (r : Request) (x : Response)
    → meaning op v r ≡ some x
    → ((v r ≡ some x) × (¬ Affects op r)) ⊎ Gives op r x
meaning-Source (activation_request req) v r x h = inl (h, λ k. k)
meaning-Source (deactivation_request req) v r x h = inl (h, λ k. k)
meaning-Source (lookup kind req) v r x h = inl (h, λ k. k)
meaning-Source (activation_response mode req resp) v r x h =
    elim (Bool-cases (activation_id req == activation_id r)) [
      | inl same ↦ inr ((eq_iff _ _).0 same, ground arith)
      | inr other ↦ inl (ground arith, λ k. ground (arith, (eq_iff _ _).1 k))
    ]
meaning-Source (deactivation_response forward req resp) v r x h = inl (h, λ k. k)
meaning-Source (deactivation_response _ req resp) v r x h =
    elim (Bool-cases (deactivation_id req == deactivation_id r)) [
      | inl same ↦ absurd (ground arith)
      | inr other ↦ inl (ground arith, λ k. ground (arith, (eq_iff _ _).1 k))
    ]

pub replay-Source :
    (ops : List Op) (v : View) (r : Request) (x : Response)
    → replay ops v r ≡ some x
    → ((v r ≡ some x) × All (λ o. ¬ Affects o r) ops) ⊎ Source r x ops
replay-Source [] v r x h = inl (h, tt)
replay-Source (op ∷ ops) v r x h = elim (replay-Source ops (meaning op v) r x h) [
  | inr s ↦ inr (further op ops s)
  | inl (e, rest) ↦ elim (meaning-Source op v r x e) [
    | inl (before, apart) ↦ inl (before, (apart, rest))
    | inr gives ↦ inr (given op ops gives rest)
  ]
]

-- The cache invents no answer: of a cache that held none for the request at first, whatever a fetch
-- returns is the body with which an operation that returned answered a request with the same
-- activation key, and no later operation that returned has answered that key again or taken its
-- device's answers back. Steps of the database may fail; the tables were well formed, and the answered
-- requests and the one that is asked for have no `|` in their application ids and library versions.
pub history_sound :
    (ops : List Op) (c : Conn) (r : Request) (x : Response)
    → All HasPlain ops
    → IsWellFormed c.tables
    → IsPlain r
    → IsHealthy (history ops c)
    → held c.tables r ≡ none
    → (fetch_activation_response r (history ops c)).0 ≡ ok (some x)
    → Source r x (accepted ops c)
history_sound ops c r x h w p healthy start got =
    let refines = history-refines ops c r h w p healthy in
    elim (replay-Source (accepted ops c) (held c.tables) r x (ground arith)) [
      | inl (e, _) ↦ absurd (ground arith)
      | inr s ↦ s
    ]
