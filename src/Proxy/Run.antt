-- ===== src/Proxy/Run.antt =====
-- proxy/plain.rs, proxy/secure.rs: `run_server` of both.
pub mod Keeping
use Prim.Native.String
use frl_online_proxy.Prelude.{String, List, []}
use frl_online_proxy.Outcome.{Outcome, Report, or_panic, wrapped}
use frl_online_proxy.Exec.{Exec, lift, ◌>>=◌, ◌>>◌}
use frl_online_proxy.Http.{World, Bytes}
use frl_online_proxy.Settings.{Settings}
use frl_online_proxy.Cache.Open.{Cache}
use frl_online_proxy.Proxy.Concurrent.Schedule.{Activity, perform_all}

-- The crates hyper, tokio, native-tls and ctrlc: reading an address, binding it, setting the handler of
-- interrupts, the file of the certificate, its identity and the acceptor made of it; and what the
-- clients and the network do until the server ends, and how it ends.
pub record Runtime : Type 1 where
  pub Identity : Type 0
  pub parse_addr : String → Outcome Report (Unit {0})
  pub bind : String → Outcome Report (Unit {0})
  pub set_handler : Outcome Report (Unit {0})
  pub open_file : String → Outcome Report (Unit {0})
  pub read_file : String → Outcome Report Bytes
  pub from_pkcs12 : Bytes → String → Outcome Report Identity
  pub acceptor : Identity → Outcome Report (Unit {0})
  pub activities : List Activity
  pub ended : Outcome Report (Unit {0})

abbrev pub host_at : String → String → String
host_at host port = String.◌++◌ host (String.◌++◌ ":" port)

module _ (rt : Runtime) (w : World) where
  -- The service on the shared cache, until the graceful shutdown.
  unfoldable pub served : Settings → Exec Cache (Unit {0})
  served conf self = (
    wrapped "Unexpected server shutdown" rt.ended,
    (perform_all w conf rt.activities (record { self = self; waiting = [] })).self,
  )

  -- `Server::bind` panics where the address cannot be bound, and `ctrl_c_handler` where the handler
  -- cannot be set.
  unfoldable pub run_plain : Settings → Exec Cache (Unit {0})
  run_plain conf = do
    lift (rt.parse_addr (host_at conf.proxy.host conf.proxy.port))
    lift (or_panic rt.set_handler)
    lift (or_panic (rt.bind (host_at conf.proxy.host conf.proxy.port)))
    served conf

  abbrev pub identity : Settings → Outcome Report Bytes → Exec Cache rt.Identity
  identity conf content = do
    bytes ← lift content
    lift (
        wrapped "Can't decrypt SSL cert data - incorrect password?"
          (rt.from_pkcs12 bytes conf.ssl.cert_password))

  abbrev pub tls_acceptor : Settings → Exec Cache (Unit {0})
  tls_acceptor conf = do
    let path = conf.ssl.cert_path
    lift (wrapped (String.◌++◌ "Can't open SSL certificate file: " path) (rt.open_file path))
    loaded ←
        identity conf
          (wrapped (String.◌++◌ "Can't read SSL cert data from file: " path) (rt.read_file path))
    lift (wrapped "Can't create TLS socket listener - is the port free?" (rt.acceptor loaded))

  unfoldable pub run_secure : Settings → Exec Cache (Unit {0})
  run_secure conf = do
    tls_acceptor conf
    lift (rt.bind (host_at conf.proxy.host conf.proxy.ssl_port))
    lift (or_panic rt.set_handler)
    served conf
