-- ===== src/Proxy/Run/Keeping.antt =====
-- What both servers keep of the cache, from their start to their end.
use Prim.Native.String
use frl_online_proxy.Prelude.{All}
use frl_online_proxy.Outcome.{Outcome, Report, or_panic, wrapped}
use frl_online_proxy.Exec.{Keeps, Keeps-bind, Keeps-lift, lift}
use frl_online_proxy.Http.{World, Bytes}
use frl_online_proxy.Settings.{Settings}
use frl_online_proxy.Cache.Open.{Cache}
use frl_online_proxy.Cache.Methods.Keeping.{KeptByMethods}
use frl_online_proxy.Proxy.Concurrent.Keeping.{IsPlainActivity, perform_all-Keeps}
use frl_online_proxy.Proxy.Run.{
  Runtime, host_at, served, identity, tls_acceptor, run_plain, run_secure,
}

module _ {P : Cache → Type 0} (kept : KeptByMethods P) (rt : Runtime) (w : World) (conf : Settings)
    (plain : All (IsPlainActivity w conf) rt.activities) where
  served-Keeps : Keeps P (served rt w conf)
  unfolding served
  served-Keeps = record {
    at = λ self h. (perform_all-Keeps kept w conf rt.activities _ plain (h, tt)).0;
  }

  pub run_plain-Keeps : Keeps P (run_plain rt w conf)
  unfolding run_plain
  run_plain-Keeps =
      Keeps-bind (lift (rt.parse_addr (host_at conf.proxy.host conf.proxy.port))) _ (Keeps-lift _)
        λ _. Keeps-bind (lift (or_panic rt.set_handler)) _ (Keeps-lift _) λ _.
          Keeps-bind (lift (or_panic (rt.bind (host_at conf.proxy.host conf.proxy.port)))) _
            (Keeps-lift _) λ _. served-Keeps

  identity-Keeps : (content : Outcome Report Bytes) → Keeps P (identity rt w conf content)
  identity-Keeps content = Keeps-bind (lift content) _ (Keeps-lift content) λ bytes. Keeps-lift _

  tls_acceptor-Keeps : Keeps P (tls_acceptor rt w conf)
  tls_acceptor-Keeps =
      Keeps-bind
        (lift (
          wrapped (String.◌++◌ "Can't open SSL certificate file: " conf.ssl.cert_path)
            (rt.open_file conf.ssl.cert_path)))
        _ (Keeps-lift _)
        λ _.
          Keeps-bind
            (identity rt w conf (
              wrapped (String.◌++◌ "Can't read SSL cert data from file: " conf.ssl.cert_path)
                (rt.read_file conf.ssl.cert_path)))
            _ (identity-Keeps _) λ loaded. Keeps-lift _

  pub run_secure-Keeps : Keeps P (run_secure rt w conf)
  unfolding run_secure
  run_secure-Keeps = Keeps-bind (tls_acceptor rt w conf) _ tls_acceptor-Keeps λ _.
      Keeps-bind (lift (rt.bind (host_at conf.proxy.host conf.proxy.ssl_port))) _ (Keeps-lift _)
        λ _. Keeps-bind (lift (or_panic rt.set_handler)) _ (Keeps-lift _) λ _. served-Keeps
