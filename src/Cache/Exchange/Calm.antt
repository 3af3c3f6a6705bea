-- ===== src/Cache/Exchange/Calm.antt =====
-- Imports and exports cannot panic: what they write was read as text.
use frl_online_proxy.Prelude.{
  ◌≡◌, ◌≢◌, refl, String, Bool, true, false, some, List, [], ◌∷◌, ◌++◌, map, All, All-append,
  All-sort_by, arith,
}
use frl_online_proxy.Outcome.{Outcome, ok, err, panic, Report}
use frl_online_proxy.Exec.{
  ◌>>◌, Calm, Calm-pure, Calm-bind, Ensures, Ensures-bind, Ensures-pure, Ensures-any,
}
use frl_online_proxy.Http.{utf8}
use frl_online_proxy.Settings.{ProxyMode, cache, forward}
use frl_online_proxy.Cops.{Kind, activation, deactivation, Request, Response}
use frl_online_proxy.Cache.Tables.{
  ActivationRequestRow, ActivationResponseRow, DeactivationRequestRow, DeactivationResponseRow,
}
use frl_online_proxy.Cache.Engine.{Conn, Db, step, execute, query, transaction, close}
use frl_online_proxy.Cache.Store.{
  store_activation_request, store_deactivation_request, store_activation_response,
  store_deactivation_response,
}
use frl_online_proxy.Cache.Fetch.{
  activation_pair, deactivation_pair, fetch_unanswered_activations, fetch_unanswered_deactivations,
  fetch_unanswered_requests, fetch_forwarded_activations, fetch_forwarded_deactivations,
  fetch_forwarded_pairs, response_from_activation_row, response_from_deactivation_row,
}
use frl_online_proxy.Cache.Methods.{request_action, response_action}
use frl_online_proxy.Cache.Exchange.{store_requests, store_pairs}
use frl_online_proxy.Cache.Engine.Calm.{Calm-execute, Calm-query, Calm-transaction}
use frl_online_proxy.Cache.Open.{Cache, File, db_init, on_pool, clear, clear_all, close_cache}
use frl_online_proxy.Cache.Exchange.{import, export, Exchange, read_pairs, write_out}

-- A body that is text.
abbrev pub HasText : Request × Response → Type 0
HasText p = (text : String) × (p.1.body ≡ utf8 text)

store_activation_response-Calm :
    (mode : ProxyMode) (req : Request) (resp : Response) (text : String)
    → resp.body ≡ utf8 text
    → Calm (store_activation_response mode req resp)
unfolding store_activation_response
store_activation_response-Calm forward req resp text e =
    rw e (Calm-transaction _ (Calm-bind _ _ (Calm-execute _) λ a c h. Calm-pure tt))
store_activation_response-Calm _ req resp text e = rw e (
    Calm-transaction _ (
      Calm-bind _ _ (Calm-execute _)
        λ a c h. Calm-bind _ _ (Calm-execute _) (λ b d k. Calm-execute _)))

store_deactivation_response-Calm :
    (mode : ProxyMode) (req : Request) (resp : Response) (text : String)
    → resp.body ≡ utf8 text
    → Calm (store_deactivation_response mode req resp)
unfolding store_deactivation_response
store_deactivation_response-Calm forward req resp text e =
    rw e (Calm-transaction _ (Calm-execute _))
store_deactivation_response-Calm _ req resp text e = Calm-transaction _ (
    Calm-bind _ _ (Calm-execute _) λ a c h.
      Calm-bind _ _ (Calm-execute _)
        λ b d k. Calm-bind _ _ (Calm-execute _) (λ x y z. Calm-execute _))

response_action-Calm :
    (kind : Kind) (req : Request) (resp : Response) (text : String)
    → resp.body ≡ utf8 text
    → Calm (response_action kind cache req resp)
response_action-Calm activation req resp text e =
    store_activation_response-Calm cache req resp text e
response_action-Calm deactivation req resp text e =
    store_deactivation_response-Calm cache req resp text e

store_pairs-Calm :
    (pairs : List (Request × Response)) → All HasText pairs → Calm (store_pairs pairs)
unfolding store_pairs
store_pairs-Calm [] h = Calm-pure tt
store_pairs-Calm ((req, resp) ∷ pairs) ((text, e), h) =
    Calm-bind _ _ (response_action-Calm req.kind req resp text e) λ a c k. store_pairs-Calm pairs h

activation_pairs-HasText :
    (rows : List (ActivationRequestRow × ActivationResponseRow))
    → All HasText (map activation_pair rows)
unfolding response_from_activation_row
activation_pairs-HasText [] = tt
activation_pairs-HasText ((a, b) ∷ rows) = ((b.body, refl), activation_pairs-HasText rows)

deactivation_pairs-HasText :
    (rows : List (DeactivationRequestRow × DeactivationResponseRow))
    → All HasText (map deactivation_pair rows)
unfolding response_from_deactivation_row
deactivation_pairs-HasText [] = tt
deactivation_pairs-HasText ((a, b) ∷ rows) = ((b.body, refl), deactivation_pairs-HasText rows)

fetch_forwarded_pairs-HasText : Ensures (All HasText) fetch_forwarded_pairs
unfolding fetch_forwarded_pairs fetch_forwarded_activations fetch_forwarded_deactivations
fetch_forwarded_pairs-HasText =
    Ensures-bind
      (Ensures-bind (Ensures-any (query _))
        λ rows u. Ensures-pure _ (activation_pairs-HasText rows))
      λ acts h.
        Ensures-bind
          (Ensures-bind (Ensures-any (query _))
            λ rows u. Ensures-pure _ (deactivation_pairs-HasText rows))
          λ ds k.
            Ensures-pure _ (
              All-sort_by (λ p. p.0.timestamp) HasText (acts ++ ds)
                (All-append HasText acts ds h k))

fetch_forwarded_pairs-Calm : Calm fetch_forwarded_pairs
unfolding fetch_forwarded_pairs fetch_forwarded_activations fetch_forwarded_deactivations
fetch_forwarded_pairs-Calm =
    Calm-bind _ _ (Calm-bind _ _ (Calm-query _) λ a c h. Calm-pure _) λ acts c h.
      Calm-bind _ _ (Calm-bind _ _ (Calm-query _) λ a c h. Calm-pure _) λ ds d k. Calm-pure _

fetch_unanswered_requests-Calm : Calm fetch_unanswered_requests
unfolding fetch_unanswered_requests fetch_unanswered_activations fetch_unanswered_deactivations
fetch_unanswered_requests-Calm =
    Calm-bind _ _ (Calm-bind _ _ (Calm-query _) λ a c h. Calm-pure _) λ acts c h.
      Calm-bind _ _ (Calm-bind _ _ (Calm-query _) λ a c h. Calm-pure _) λ ds d k. Calm-pure _

pub request_action-Calm : (kind : Kind) (req : Request) → Calm (request_action kind req)
unfolding store_activation_request store_deactivation_request
request_action-Calm activation req = Calm-transaction _ (Calm-execute _)
request_action-Calm deactivation req = Calm-transaction _ (Calm-execute _)

store_requests-Calm : (reqs : List Request) → Calm (store_requests reqs)
unfolding store_requests
store_requests-Calm [] = Calm-pure tt
store_requests-Calm (req ∷ reqs) =
    Calm-bind _ _ (request_action-Calm req.kind req) λ a c h. store_requests-Calm reqs

pub db_init-ne-panic : (create : Bool) (f : File) → db_init create f ≢ panic
unfolding db_init step
db_init-ne-panic create f h = ground arith

read_pairs-ne-panic : (f : File) → read_pairs f ≢ panic
read_pairs-ne-panic f h = go (db_init false f) refl
  where
    go : (o : Outcome Report Conn) → db_init false f ≡ o → ⊥
    go (ok c) e = fetch_forwarded_pairs-Calm.at c (ground arith)
    go (err x) e = ground arith
    go panic e = db_init-ne-panic false f e

pub read_pairs-HasText :
    (f : File) (pairs : List (Request × Response)) → read_pairs f ≡ ok pairs → All HasText pairs
read_pairs-HasText f pairs h = go (db_init false f) refl
  where
    go : (o : Outcome Report Conn) → db_init false f ≡ o → All HasText pairs
    go (ok c) e = fetch_forwarded_pairs-HasText.at c pairs (ground arith)
    go (err x) e = absurd (ground arith)
    go panic e = absurd (ground arith)

module _ (self : Cache) (c : Conn) (p : self.db_pool ≡ some c) where
  on_pool-ne-panic : {A : Type 0} (m : Db A) → Calm m → (on_pool m self).0 ≢ panic
  on_pool-ne-panic m calm h = calm.at c (ground arith)

  pub clear-ne-panic :
      (sure : Bool) (answer : Outcome Report Bool)
      → answer ≢ panic
      → (clear sure answer self).0 ≢ panic
  unfolding clear close_cache
  clear-ne-panic sure answer a h = ground (
    arith,
    on_pool-ne-panic (transaction (execute clear_all))
        (Calm-transaction _ (Calm-execute clear_all)),
  )

  stored_pairs-ne-panic :
      (pairs : List (Request × Response))
      → All HasText pairs
      → ((on_pool (store_pairs pairs) >> on_pool close) self).0 ≢ panic
  unfolding close
  stored_pairs-ne-panic pairs t h = ground (arith, (store_pairs-Calm pairs t).at c)

  pub import-ne-panic : (f : File) → (import f self).0 ≢ panic
  unfolding import
  import-ne-panic f h = go (read_pairs f) refl
    where
      go : (o : Outcome Report (List (Request × Response))) → read_pairs f ≡ o → ⊥
      go (ok pairs) e = stored_pairs-ne-panic pairs (read_pairs-HasText f pairs e) (ground arith)
      go (err x) e = ground arith
      go panic e = read_pairs-ne-panic f e

  written-ne-panic :
      (reqs : List Request) (x : Exchange) (o : Outcome Report Conn)
      → o ≢ panic
      → (write_out reqs o x).0 ≢ panic
  written-ne-panic reqs x (ok out) n h = (store_requests-Calm reqs).at out h
  written-ne-panic reqs x (err e) n h = cc
  written-ne-panic reqs x panic n h = n refl

  pub export-ne-panic : (f : File) → (export (record { self = self; file = f })).0 ≢ panic
  unfolding export close
  export-ne-panic f h = go (fetch_unanswered_requests c).0 refl
    where
      go : (o : Outcome Report (List Request)) → (fetch_unanswered_requests c).0 ≡ o → ⊥
      go panic e = fetch_unanswered_requests-Calm.at c e
      go (err x) e = ground arith
      go (ok reqs) e = ground (
        arith,
        written-ne-panic reqs
            (record {
              self = record self {
                db_pool = some (record (fetch_unanswered_requests c).1 { closed = true });
              };
              file = f;
            })
            (db_init true f) (db_init-ne-panic true f),
      )
