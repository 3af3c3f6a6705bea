-- ===== src/Cache/Contract/Steps.antt =====
-- One operation on the tables does what the contract says, or nothing, whatever step fails.
use frl_online_proxy.Prelude.{
  String, ◌≡◌, ◌≢◌, refl, ap, ◌∙◌, ℕ, none, List, [], ◌∷◌, ◌==◌, eq_iff, All, arith, if◌then◌else◌,
}
use frl_online_proxy.Outcome.{Outcome, ok, err, panic, Report}
use frl_online_proxy.Http.{Bytes, utf8, invalid}
use frl_online_proxy.Settings.{ProxyMode, cache, store, forward, passthrough}
use frl_online_proxy.Cops.{Kind, Request, Response}
use frl_online_proxy.Cache.Keys.{activation_id, deactivation_id, IsPlain}
use frl_online_proxy.Cache.Tables.{ActivationResponseRow, Tables, select_where, delete_where}
use frl_online_proxy.Cache.Engine.{Conn, Db, transaction}
use frl_online_proxy.Cache.Engine.Laws.{Writes}
use frl_online_proxy.Cache.Store.{store_activation_response, store_deactivation_response}
use frl_online_proxy.Cache.Store.Atomic.{
  answered_deactivation, store_activation_request-Writes, store_deactivation_request-Writes,
  store_activation_response-Writes, store_deactivation_response-Writes,
  store_deactivation_response_live-Writes,
}
use frl_online_proxy.Cache.Fetch.Answers.{held, held-answered}
use frl_online_proxy.Cache.Invariant.{IsKeyed, IsWellFormed}
use frl_online_proxy.Cache.Invariant.Revocation.{keyed_row}
use frl_online_proxy.Cache.Invariant.Histories.{
  Op, activation_request, deactivation_request, activation_response, deactivation_response, run,
  unreadable_activation, lookup, look-tables, unreadable_deactivation,
}
use frl_online_proxy.Cache.Contract.{View, meaning}

-- Deleting by the deactivation key takes the rows of that device, and no other.
select-delete_device :
    (k : String) (r : Request) (rows : List ActivationResponseRow)
    → IsPlain r
    → All (λ x. IsKeyed x.activation_key x.deactivation_key) rows
    → select_where
        (λ x. x.activation_key)
        (activation_id r)
        (delete_where (λ x. x.deactivation_key) k rows)
      ≡ (if k == deactivation_id r
          then none
          else select_where (λ x. x.activation_key) (activation_id r) rows)
unfolding select_where delete_where
select-delete_device k r [] p h = ground arith
select-delete_device k r (x ∷ xs) p (kx, h) = ground (
  arith,
  select-delete_device k r xs p h,
  keyed_row x r p kx,
  eq_iff x.activation_key (activation_id r),
  eq_iff x.deactivation_key k,
  eq_iff k (deactivation_id r),
)

held-deactivated :
    (mode : ProxyMode) (req r : Request) (body : String) (t : Tables)
    → mode ≢ forward
    → IsWellFormed t
    → IsPlain r
    → held (answered_deactivation mode req body t) r
      ≡ (if deactivation_id req == deactivation_id r then none else held t r)
held-deactivated forward req r body t live w p = absurd (live refl)
held-deactivated _ req r body t live w p =
    ground (arith, select-delete_device (deactivation_id req) r t.activation_responses p w.keyed)

-- What an operation that ends so does to the view.
abbrev pub settled : Outcome Report (Unit {0}) → Op → View → View
settled (ok a) op v = meaning op v
settled (err e) op v = v
settled panic op v = v

held-Writes :
    {f : Tables → Tables} {m : Db (Unit {0})} (op : Op) (c : Conn) (r : Request)
    → Writes f m
    → held (f c.tables) r ≡ meaning op (held c.tables) r
    → held (m c).1.tables r ≡ settled (m c).0 op (held c.tables) r
held-Writes {f} {m} op c r w e = go (m c).0 refl
  where
    go :
        (o : Outcome Report (Unit {0}))
        → (m c).0 ≡ o
        → held (m c).1.tables r ≡ settled o op (held c.tables) r
    go (ok tt) h = ap (λ t. held t r) (w.runs.done c h) ∙ e
    go (err x) h = ap (λ t. held t r) (w.undone c (λ k. cc))
    go panic h = ap (λ t. held t r) (w.undone c (λ k. cc))

-- A body that is not UTF-8 ends the operation before it has returned.
held-unread :
    (op : Op) (m : Db (Unit {0})) (c : Conn) (r : Request)
    → (m c).0 ≢ ok tt
    → (m c).1.tables ≡ c.tables
    → held (m c).1.tables r ≡ settled (m c).0 op (held c.tables) r
held-unread op m c r n e = go (m c).0 refl
  where
    go :
        (o : Outcome Report (Unit {0}))
        → (m c).0 ≡ o
        → held (m c).1.tables r ≡ settled o op (held c.tables) r
    go (ok tt) h = absurd (n h)
    go (err x) h = ap (λ t. held t r) e
    go panic h = ap (λ t. held t r) e

run_activation-ne-ok :
    (mode : ProxyMode) (req : Request) (resp : Response) (c : Conn) (bs : List ℕ)
    → resp.body ≡ invalid bs
    → (store_activation_response mode req resp c).0 ≢ ok tt
unfolding store_activation_response transaction
run_activation-ne-ok mode req resp c bs e h = ground arith

run_deactivation-ne-ok :
    (req : Request) (resp : Response) (c : Conn) (bs : List ℕ)
    → resp.body ≡ invalid bs
    → (store_deactivation_response forward req resp c).0 ≢ ok tt
unfolding store_deactivation_response transaction
run_deactivation-ne-ok req resp c bs e h = ground arith

settled-lookup :
    (o : Outcome Report (Unit {0})) (kind : Kind) (req : Request) (v : View)
    → v ≡ settled o (lookup kind req) v
settled-lookup (ok a) kind req v = refl
settled-lookup (err e) kind req v = refl
settled-lookup panic kind req v = refl

module _ (c : Conn) (r : Request) (w : IsWellFormed c.tables) (p : IsPlain r) where
  run_activation-held :
      (mode : ProxyMode) (req : Request) (resp : Response) (b : Bytes)
      → resp.body ≡ b
      → held (store_activation_response mode req resp c).1.tables r
        ≡ settled
            (store_activation_response mode req resp c).0
            (activation_response mode req resp)
            (held c.tables)
            r
  run_activation-held mode req resp (utf8 text) e =
      held-Writes (activation_response mode req resp) c r
        (store_activation_response-Writes mode req resp text e)
        (held-answered mode req r text c.tables ∙ rw e)
  run_activation-held mode req resp (invalid bs) e =
      held-unread (activation_response mode req resp) (store_activation_response mode req resp) c r
        (run_activation-ne-ok mode req resp c bs e) (unreadable_activation mode req resp c bs e)

  run_forward-held :
      (req : Request) (resp : Response) (b : Bytes)
      → resp.body ≡ b
      → held (store_deactivation_response forward req resp c).1.tables r
        ≡ settled
            (store_deactivation_response forward req resp c).0
            (deactivation_response forward req resp)
            (held c.tables)
            r
  run_forward-held req resp (utf8 text) e =
      held-Writes (deactivation_response forward req resp) c r
        (store_deactivation_response-Writes forward req resp text e) refl
  run_forward-held req resp (invalid bs) e =
      held-unread (deactivation_response forward req resp)
        (store_deactivation_response forward req resp) c r (run_deactivation-ne-ok req resp c bs e)
        (unreadable_deactivation req resp c bs e)

  run_deactivation-held :
      (mode : ProxyMode) (req : Request) (resp : Response)
      → held (store_deactivation_response mode req resp c).1.tables r
        ≡ settled
            (store_deactivation_response mode req resp c).0
            (deactivation_response mode req resp)
            (held c.tables)
            r
  run_deactivation-held forward req resp = run_forward-held req resp resp.body refl
  run_deactivation-held cache req resp =
      held-Writes (deactivation_response cache req resp) c r
        (store_deactivation_response_live-Writes cache req resp "" (λ q. cc))
        (held-deactivated cache req r "" c.tables (λ q. cc) w p)
  run_deactivation-held store req resp =
      held-Writes (deactivation_response store req resp) c r
        (store_deactivation_response_live-Writes store req resp "" (λ q. cc))
        (held-deactivated store req r "" c.tables (λ q. cc) w p)
  run_deactivation-held passthrough req resp =
      held-Writes (deactivation_response passthrough req resp) c r
        (store_deactivation_response_live-Writes passthrough req resp "" (λ q. cc))
        (held-deactivated passthrough req r "" c.tables (λ q. cc) w p)

  pub run-held : (op : Op) → held (run op c).1.tables r ≡ settled (run op c).0 op (held c.tables) r
  unfolding run
  run-held (activation_request req) =
      held-Writes (activation_request req) c r (store_activation_request-Writes req) refl
  run-held (deactivation_request req) =
      held-Writes (deactivation_request req) c r (store_deactivation_request-Writes req) refl
  run-held (activation_response mode req resp) = run_activation-held mode req resp resp.body refl
  run-held (deactivation_response mode req resp) = run_deactivation-held mode req resp
  run-held (lookup kind req) =
      ap (λ t. held t r) (look-tables kind req c)
      ∙ ap (λ (v : View). v r) (settled-lookup (run (lookup kind req) c).0 kind req (held c.tables))
