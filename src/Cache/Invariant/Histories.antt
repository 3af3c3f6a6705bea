-- ===== src/Cache/Invariant/Histories.antt =====
-- Every history of store operations, whatever fails in it, keeps the tables well formed.
use mathlib.Core.Path.{subst}
use frl_online_proxy.Prelude.{◌≡◌, refl, sym, String, ℕ, List, [], ◌∷◌, ◌++◌, All, arith}
use frl_online_proxy.Http.{Bytes, utf8, invalid}
use frl_online_proxy.Settings.{ProxyMode, cache, store, forward, passthrough}
use frl_online_proxy.Exec.{pure, ◌>>=◌}
use frl_online_proxy.Cops.{Kind, activation, deactivation, Request, Response}
use frl_online_proxy.Cache.Fetch.{fetch_activation_response, fetch_deactivation_response}
use frl_online_proxy.Cache.Fetch.Answers.{
  fetch_activation_response-tables, fetch_deactivation_response-tables,
}
use frl_online_proxy.Cache.Keys.{IsPlain}
use frl_online_proxy.Cache.Tables.{Tables}
use frl_online_proxy.Cache.Engine.{Conn, Db, transaction}
use frl_online_proxy.Cache.Engine.Laws.{Keeps, Keeps-Writes, step-tables}
use frl_online_proxy.Cache.Store.{
  store_activation_request, store_deactivation_request, store_activation_response,
  store_deactivation_response,
}
use frl_online_proxy.Cache.Store.Atomic.{
  answered_activation, answered_deactivation, store_activation_request-Writes,
  store_deactivation_request-Writes, store_activation_response-Writes,
  store_deactivation_response-Writes, store_deactivation_response_live-Writes,
}
use frl_online_proxy.Cache.Invariant.{IsWellFormed}
use frl_online_proxy.Cache.Invariant.Effects.{
  activation_request-IsWellFormed, deactivation_request-IsWellFormed,
  answered_activation-IsWellFormed, answered_deactivation-IsWellFormed,
}

-- A body that is not UTF-8 never reaches the tables.
pub unreadable_activation :
    (mode : ProxyMode) (req : Request) (resp : Response) (c : Conn) (bs : List ℕ)
    → resp.body ≡ invalid bs
    → (store_activation_response mode req resp c).1.tables ≡ c.tables
unfolding store_activation_response transaction
unreadable_activation mode req resp c bs e = ground (arith, step-tables c)

pub unreadable_deactivation :
    (req : Request) (resp : Response) (c : Conn) (bs : List ℕ)
    → resp.body ≡ invalid bs
    → (store_deactivation_response forward req resp c).1.tables ≡ c.tables
unfolding store_deactivation_response transaction
unreadable_deactivation req resp c bs e = ground (arith, step-tables c)

-- What every answer of an activation, and of a deactivation, keeps.
module _ {P : Tables → Type 0} (mode : ProxyMode) (req : Request) (resp : Response) where
  pub Keeps-activation_response :
      ((body : String) (t : Tables) → P t → P (answered_activation mode req body t))
      → Keeps P (store_activation_response mode req resp)
  Keeps-activation_response h = go resp.body refl
    where
      go : (b : Bytes) → resp.body ≡ b → Keeps P (store_activation_response mode req resp)
      go (utf8 body) e =
          Keeps-Writes (store_activation_response-Writes mode req resp body e) (h body)
      go (invalid bs) e = record {
        at = λ c w. subst P (sym (unreadable_activation mode req resp c bs e)) w;
      }

module _ {P : Tables → Type 0} (req : Request) (resp : Response) where
  pub Keeps-deactivation_response :
      (mode : ProxyMode)
      → ((body : String) (t : Tables) → P t → P (answered_deactivation mode req body t))
      → Keeps P (store_deactivation_response mode req resp)
  Keeps-deactivation_response forward h = go resp.body refl
    where
      go : (b : Bytes) → resp.body ≡ b → Keeps P (store_deactivation_response forward req resp)
      go (utf8 body) e =
          Keeps-Writes (store_deactivation_response-Writes forward req resp body e) (h body)
      go (invalid bs) e = record {
        at = λ c w. subst P (sym (unreadable_deactivation req resp c bs e)) w;
      }
  Keeps-deactivation_response cache h =
      Keeps-Writes (store_deactivation_response_live-Writes cache req resp "" (λ p. cc)) (h "")
  Keeps-deactivation_response store h =
      Keeps-Writes (store_deactivation_response_live-Writes store req resp "" (λ p. cc)) (h "")
  Keeps-deactivation_response passthrough h =
      Keeps-Writes (store_deactivation_response_live-Writes passthrough req resp "" (λ p. cc))
        (h "")

pub store_activation_response-Keeps :
    (mode : ProxyMode) (req : Request) (resp : Response)
    → IsPlain req
    → Keeps IsWellFormed (store_activation_response mode req resp)
store_activation_response-Keeps mode req resp p =
    Keeps-activation_response mode req resp
      λ body t. answered_activation-IsWellFormed mode req body t p

pub store_deactivation_response-Keeps :
    (mode : ProxyMode) (req : Request) (resp : Response)
    → Keeps IsWellFormed (store_deactivation_response mode req resp)
store_deactivation_response-Keeps mode req resp =
    Keeps-deactivation_response req resp mode
      λ body. answered_deactivation-IsWellFormed mode req body

-- An operation on the tables; each is one transaction or one query, and those of concurrent requests
-- come one after another.
pub data Op : Type 0 where
  activation_request deactivation_request : Request → Op
  activation_response deactivation_response : ProxyMode → Request → Response → Op
  lookup : Kind → Request → Op

-- A fetch, for what it does to the connection.
abbrev pub look : Kind → Request → Db (Unit {0})
look activation req = do found ← fetch_activation_response req; pure tt
look deactivation req = do found ← fetch_deactivation_response req; pure tt

unfoldable pub run : Op → Db (Unit {0})
run (activation_request req) = store_activation_request req
run (deactivation_request req) = store_deactivation_request req
run (activation_response mode req resp) = store_activation_response mode req resp
run (deactivation_response mode req resp) = store_deactivation_response mode req resp
run (lookup kind req) = look kind req

abbrev pub HasPlain : Op → Type 0
HasPlain (activation_response mode req resp) = IsPlain req
HasPlain _ = Unit

-- The callers log an error and go on.
unfoldable pub history : List Op → Conn → Conn
history [] c = c
history (op ∷ ops) c = history ops (run op c).1

pub history-append : (xs ys : List Op) (c : Conn) → history (xs ++ ys) c ≡ history ys (history xs c)
unfolding history
history-append [] ys c = refl
history-append (x ∷ xs) ys c = history-append xs ys (run x c).1

pub look-tables : (kind : Kind) (req : Request) (c : Conn) → (look kind req c).1.tables ≡ c.tables
look-tables activation req c = ground (arith, fetch_activation_response-tables req c)
look-tables deactivation req c = ground (arith, fetch_deactivation_response-tables req c)

pub run-Keeps : (op : Op) → HasPlain op → Keeps IsWellFormed (run op)
unfolding run
run-Keeps (activation_request req) p =
    Keeps-Writes (store_activation_request-Writes req) (activation_request-IsWellFormed req)
run-Keeps (deactivation_request req) p =
    Keeps-Writes (store_deactivation_request-Writes req) (deactivation_request-IsWellFormed req)
run-Keeps (activation_response mode req resp) p = store_activation_response-Keeps mode req resp p
run-Keeps (deactivation_response mode req resp) p = store_deactivation_response-Keeps mode req resp
run-Keeps (lookup kind req) p = record {
  at = λ c w. subst IsWellFormed (sym (look-tables kind req c)) w;
}

-- After any operations in any order, with any steps of the database failing, well-formed tables are
-- well formed again: every key is unique in its table, rows are those of requests, and the two keys
-- of an answer are those of one request. The answered requests have no `|` in their application ids
-- and library versions.
pub history-IsWellFormed :
    (ops : List Op) (c : Conn)
    → All HasPlain ops
    → IsWellFormed c.tables
    → IsWellFormed (history ops c).tables
unfolding history
history-IsWellFormed [] c h w = w
history-IsWellFormed (op ∷ ops) c (p, h) w =
    history-IsWellFormed ops (run op c).1 h ((run-Keeps op p).at c w)
