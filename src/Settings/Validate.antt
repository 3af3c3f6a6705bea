-- ===== src/Settings/Validate.antt =====
-- settings.rs: `Settings::validate`, and the rules that it enforces.
use frl_online_proxy.Prelude.{
  String, ◌≡◌, ◌↔◌, Bool, true, false, not, ◌&&◌, arith, is_empty, if◌then◌else◌, any, codes,
  nat_eq,
}
use frl_online_proxy.Outcome.{Outcome, ok, err, Report, Panics, ◌>>◌}
use frl_online_proxy.Settings.{Settings, ProxyMode, passthrough, LogDestination, console, file}
use Prim.Native.String

abbrev pub uses_cache : ProxyMode → Bool
uses_cache passthrough = false
uses_cache _ = true

abbrev logs_to_file : LogDestination → Bool
logs_to_file file = true
logs_to_file console = false

-- `s.contains(':')`
abbrev pub has_colon : String → Bool
has_colon s = any (λ c. nat_eq c b':') (codes s)

abbrev reject : Bool → String → Outcome Report (Unit {0})
reject bad why = if bad then err (record { message = why }) else ok tt

-- The file system answers whether a path has metadata.
module _ (exists : String → Bool) where
  check_ssl : Settings → Outcome Report (Unit {0})
  check_ssl conf =
      if conf.proxy.ssl
      then (do
        reject (is_empty conf.ssl.cert_path) "Certificate path can't be empty when SSL is enabled"
        reject (not (exists conf.ssl.cert_path))
            (String.◌++◌ "Invalid certificate path: " conf.ssl.cert_path))
      else ok tt

  check_network : Settings → Outcome Report (Unit {0})
  check_network conf =
      if conf.network.use_proxy
      then (do
        reject (is_empty conf.network.proxy_host) "Proxy host can't be empty"
        reject (is_empty conf.network.proxy_port) "Proxy port can't be empty"
        reject (conf.network.use_basic_auth && is_empty conf.network.proxy_username)
            "Proxy username can't be empty")
      else ok tt

  unfoldable pub validate : Settings → Outcome Report (Unit {0})
  unfolding check_ssl check_network
  validate conf = do
    check_ssl conf
    reject (has_colon conf.proxy.host)
        "Host must not contain a port (use the 'port' and 'ssl_port' config options)"
    reject (uses_cache conf.proxy.mode && is_empty conf.cache.db_path)
        "Database path can't be empty when cache is enabled"
    check_network conf
    reject (logs_to_file conf.logging.destination && is_empty conf.logging.file_path)
        "File path must be specified when logging to a file"

-- A record of rules that a configuration obeys when the program accepts it.
pub record IsValid (exists : String → Bool) (conf : Settings) : Type 0 where
  pub cert_named : conf.proxy.ssl ≡ true → is_empty conf.ssl.cert_path ≡ false
  pub cert_found : conf.proxy.ssl ≡ true → exists conf.ssl.cert_path ≡ true
  pub host_plain : has_colon conf.proxy.host ≡ false
  pub db_named : uses_cache conf.proxy.mode ≡ true → is_empty conf.cache.db_path ≡ false
  pub proxy_host : conf.network.use_proxy ≡ true → is_empty conf.network.proxy_host ≡ false
  pub proxy_port : conf.network.use_proxy ≡ true → is_empty conf.network.proxy_port ≡ false
  pub proxy_user :
      conf.network.use_proxy ≡ true
      → conf.network.use_basic_auth ≡ true
      → is_empty conf.network.proxy_username ≡ false
  pub log_named : conf.logging.destination ≡ file → is_empty conf.logging.file_path ≡ false

module _ (exists : String → Bool) (conf : Settings) where
  validate_sound : validate exists conf ≡ ok tt → IsValid exists conf
  unfolding validate
  validate_sound h = record {
    cert_named = λ s. ground arith;
    cert_found = λ s. ground arith;
    host_plain = ground arith;
    db_named = λ s. ground arith;
    proxy_host = λ s. ground arith;
    proxy_port = λ s. ground arith;
    proxy_user = λ s b. ground arith;
    log_named = λ s. ground arith;
  }

  validate_complete : IsValid exists conf → validate exists conf ≡ ok tt
  unfolding validate
  validate_complete v = ground arith

  -- `validate` accepts a configuration exactly if it obeys every rule.
  pub validate_iff : (validate exists conf ≡ ok tt) ↔ IsValid exists conf
  validate_iff = (validate_sound, validate_complete)

  -- `validate` never panics.
  pub validate_total : ¬ Panics (validate exists conf)
  unfolding validate
  validate_total p = ground arith
