-- ===== src/Proxy/Serve/Keeping.antt =====
-- `serve_req` keeps the tables of the cache well formed.
use frl_online_proxy.Prelude.{◌≡◌, refl, String, Option, none, some}
use frl_online_proxy.Outcome.{Outcome, ok, err, panic, Report}
use frl_online_proxy.Exec.{Keeps, Keeps-bind, Keeps-if, Keeps-lift, lift}
use frl_online_proxy.Http.{World, Parts, Body, Bytes, to_bytes, HResponse, is_success}
use frl_online_proxy.Settings.{Settings}
use frl_online_proxy.Logging.{debug_body}
use frl_online_proxy.Cops.{Request, Response, BadRequest, response_from_network}
use frl_online_proxy.Cops.Receive.{from_network}
use frl_online_proxy.Cache.Keys.{IsPlain}
use frl_online_proxy.Cache.Invariant.{IsWellFormed}
use frl_online_proxy.Cache.Open.{Cache}
use frl_online_proxy.Cache.Methods.{store_request, store_response, fetch_response}
use frl_online_proxy.Cache.Methods.Keeping.{
  HasWellFormed, KeptByMethods, Holds-KeptByMethods, IsWellFormed-IsKept,
}
use frl_online_proxy.Proxy.Serve.{
  succeeded, failed, finish, resume, handle, net_response, dispatch, serve_req,
}

-- What the methods of the cache keep, the proxy keeps.
module _ {P : Cache → Type 0} (kept : KeptByMethods P) (w : World) (conf : Settings) where
  succeeded-Keeps :
      (req : Request) (now : String) (resp : HResponse) (body : Bytes)
      → IsPlain req
      → Keeps P (succeeded w conf req now resp body)
  unfolding succeeded
  succeeded-Keeps req now resp body p =
      Keeps-bind (lift (debug_body conf body)) _ (Keeps-lift _) λ _.
        Keeps-bind (store_response req (response_from_network req body now)) _
          (kept.store_response req _ p) λ _. Keeps-lift (ok _)

  failed-Keeps :
      (resp : HResponse) (body : Bytes) (found : Option Response)
      → Keeps P (failed w conf resp body found)
  unfolding failed
  failed-Keeps resp body none =
      Keeps-bind (lift (debug_body conf body)) _ (Keeps-lift _) λ _. Keeps-lift (ok _)
  failed-Keeps resp body (some cached) = Keeps-lift _

  pub resume-Keeps :
      (got : Outcome Report HResponse) (req : Request) (now : String)
      → IsPlain req
      → Keeps P (resume w conf got req now)
  unfolding resume finish
  resume-Keeps got req now p = Keeps-bind (lift got) _ (Keeps-lift _) λ resp.
      Keeps-bind (lift (to_bytes resp.body)) _ (Keeps-lift _) λ body.
        Keeps-if (is_success resp.status) (succeeded-Keeps req now resp body p)
          (Keeps-bind (fetch_response req) _ (kept.fetch_response req) (failed-Keeps resp body))

  handle-Keeps : (req : Request) (now : String) → IsPlain req → Keeps P (handle w conf req now)
  unfolding handle
  handle-Keeps req now p =
      Keeps-bind (store_request req) _ (kept.store_request req p)
        λ _. resume-Keeps (net_response w conf req) req now p

  dispatch-Keeps :
      (o : Outcome BadRequest Request) (now : String)
      → ((req : Request) → o ≡ ok req → IsPlain req)
      → Keeps P (dispatch w conf o now)
  dispatch-Keeps (ok req) now p = handle-Keeps req now (p req refl)
  dispatch-Keeps (err e) now p = Keeps-lift _
  dispatch-Keeps panic now p = record { at = λ s h. h }

-- Serving a request keeps the cache's tables well formed, however it ends: whatever the client sends
-- and COPS replies, and whatever fails in the database. The hypothesis is that an accepted request
-- has no `|` in its application id and library version.
pub serve_req-Keeps :
    (w : World) (conf : Settings) (parts : Parts) (body : Body) (t t' : String)
    → ((bytes : Bytes) (req : Request) → from_network w parts bytes t ≡ ok req → IsPlain req)
    → Keeps HasWellFormed (serve_req w conf parts body t t')
unfolding serve_req
serve_req-Keeps w conf parts body t t' p =
    Keeps-bind (lift (to_bytes body)) _ (Keeps-lift _) λ bytes.
      Keeps-bind (lift (debug_body conf bytes)) _ (Keeps-lift _) λ _.
        dispatch-Keeps (Holds-KeptByMethods IsWellFormed IsWellFormed-IsKept) w conf
          (from_network w parts bytes t) t' (p bytes)
