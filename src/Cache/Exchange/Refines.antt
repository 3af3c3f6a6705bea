-- ===== src/Cache/Exchange/Refines.antt =====
-- What an import makes of the answers of the cache: the same as the operations of its pairs.
use frl_online_proxy.Prelude.{true, ◌≡◌, refl, sym, ap, ◌∙◌, some, List, [], ◌∷◌, All, arith}
use frl_online_proxy.Outcome.{ok}
use frl_online_proxy.Settings.{cache}
use frl_online_proxy.Cops.{Kind, activation, deactivation, Request, Response}
use frl_online_proxy.Cache.Keys.{IsPlain}
use frl_online_proxy.Cache.Engine.{Conn, IsHealthy, close}
use frl_online_proxy.Cache.Store.Atomic.{
  store_activation_response-Writes, store_deactivation_response-Writes,
}
use frl_online_proxy.Cache.Fetch.Answers.{held}
use frl_online_proxy.Cache.Invariant.{IsWellFormed}
use frl_online_proxy.Cache.Invariant.Histories.{Op, run, history, HasPlain}
use frl_online_proxy.Cache.Open.{Cache, File}
use frl_online_proxy.Cache.Methods.{response_action}
use frl_online_proxy.Cache.Methods.Operations.{response_op}
use frl_online_proxy.Cache.Contract.{replay, accepted}
use frl_online_proxy.Cache.Contract.Refines.{history-held}
use frl_online_proxy.Cache.Exchange.{store_pairs, import, read_pairs}
use frl_online_proxy.Cache.Exchange.Calm.{HasText, read_pairs-HasText}

-- The operations of the pairs, in their order.
abbrev pub pair_ops : List (Request × Response) → List Op
pair_ops [] = []
pair_ops ((req, resp) ∷ pairs) = response_op req.kind cache req resp ∷ pair_ops pairs

response_action-run :
    (kind : Kind) (req : Request) (resp : Response)
    → response_action kind cache req resp ≡ run (response_op kind cache req resp)
unfolding run
response_action-run activation req resp = refl
response_action-run deactivation req resp = refl

response_op-HasPlain :
    (kind : Kind) (req : Request) (resp : Response)
    → IsPlain req
    → HasPlain (response_op kind cache req resp)
response_op-HasPlain activation req resp p = p
response_op-HasPlain deactivation req resp p = tt

pair_ops-HasPlain :
    (pairs : List (Request × Response))
    → All (λ p. IsPlain p.0) pairs
    → All HasPlain (pair_ops pairs)
pair_ops-HasPlain [] h = tt
pair_ops-HasPlain ((req, resp) ∷ pairs) (p, h) =
    (response_op-HasPlain req.kind req resp p, pair_ops-HasPlain pairs h)

response_action-works :
    (kind : Kind) (req : Request) (resp : Response) (c : Conn)
    → HasText (req, resp)
    → IsHealthy c
    → ((response_action kind cache req resp c).0 ≡ ok tt)
      × IsHealthy (response_action kind cache req resp c).1
response_action-works activation req resp c (text, e) h =
    (store_activation_response-Writes cache req resp text e).runs.healthy c h
response_action-works deactivation req resp c (text, e) h =
    (store_deactivation_response-Writes cache req resp text e).runs.healthy c h

-- On a working database the pairs are written, and every operation returns.
record IsReplayed (pairs : List (Request × Response)) (c : Conn) : Type 0 where
  returned : (store_pairs pairs c).0 ≡ ok tt
  written : (store_pairs pairs c).1 ≡ history (pair_ops pairs) c
  healthy : IsHealthy (store_pairs pairs c).1
  all_accepted : accepted (pair_ops pairs) c ≡ pair_ops pairs

store_pairs-IsReplayed :
    (pairs : List (Request × Response)) (c : Conn)
    → All HasText pairs
    → IsHealthy c
    → IsReplayed pairs c
unfolding store_pairs history accepted
store_pairs-IsReplayed [] c t h = record {
  returned = refl;
  written = refl;
  healthy = h;
  all_accepted = refl;
}
store_pairs-IsReplayed ((req, resp) ∷ pairs) c (p, t) h =
    let (did, fine) = response_action-works req.kind req resp c p h in
    let later = store_pairs-IsReplayed pairs (response_action req.kind cache req resp c).1 t fine in
    let same = ap (λ m. m c) (response_action-run req.kind req resp) in
    let ran = sym (ap (λ x. x.0) same) ∙ did in
    record {
      returned = rw did later.returned;
      written = rw did (later.written ∙ ap (λ x. history (pair_ops pairs) x.1) same);
      healthy = rw did later.healthy;
      all_accepted = rw ran (
          ap (λ ops. response_op req.kind cache req resp ∷ ops)
            (ap (λ x. accepted (pair_ops pairs) x.1) (sym same) ∙ later.all_accepted));
    }

-- On a working database an import of a file whose pairs can be read returns, and makes of the answers
-- of the cache what the pairs mean, in their order: each activation gives its answer to every request
-- with its key, and each deactivation takes back the answers of its device. The tables were well
-- formed, and the requests have no `|` in their application ids and library versions.
pub import-refines :
    (self : Cache) (c : Conn) (f : File) (pairs : List (Request × Response)) (r : Request)
    → self.db_pool ≡ some c
    → IsWellFormed c.tables
    → IsHealthy c
    → read_pairs f ≡ ok pairs
    → All (λ p. IsPlain p.0) pairs
    → IsPlain r
    → ((import f self).0 ≡ ok tt)
      × (d : Conn) × ((import f self).1.db_pool ≡ some d)
      × (held d.tables r ≡ replay (pair_ops pairs) (held c.tables) r)
unfolding import close
import-refines self c f pairs r pool w h got plain p =
    let done = store_pairs-IsReplayed pairs c (read_pairs-HasText f pairs got) h in
    let refined = history-held (pair_ops pairs) c r (pair_ops-HasPlain pairs plain) w p in
    (
      ground (arith, done.returned),
      record (store_pairs pairs c).1 { closed = true },
      ground (arith, done.returned),
      ap (λ d. held d.tables r) done.written
          ∙ refined
          ∙ ap (λ ops. replay ops (held c.tables) r) done.all_accepted,
    )
