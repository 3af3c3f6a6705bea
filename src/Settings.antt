-- ===== src/Settings.antt =====
-- settings.rs: the configuration's records and its enumerations with their defaults.
pub mod Names
pub mod Validate
pub mod Load
pub mod Prompts
pub mod Configure
use frl_online_proxy.Prelude.{String, Bool}

pub data ProxyMode : Type 0 where
  cache store forward passthrough : ProxyMode

pub data LogDestination : Type 0 where
  console file : LogDestination

pub data LogLevel : Type 0 where
  off error warn info debug trace : LogLevel

pub record Proxy : Type 0 where
  pub mode : ProxyMode
  pub host : String
  pub port : String
  pub ssl_port : String
  pub remote_host : String
  pub ssl : Bool

pub record Ssl : Type 0 where
  pub cert_path : String
  pub cert_password : String

pub record Logging : Type 0 where
  pub level : LogLevel
  pub destination : LogDestination
  pub file_path : String

pub record CacheConf : Type 0 where
  pub db_path : String

pub record Network : Type 0 where
  pub use_proxy : Bool
  pub proxy_host : String
  pub proxy_port : String
  pub use_basic_auth : Bool
  pub proxy_username : String
  pub proxy_password : String

pub record Settings : Type 0 where
  pub proxy : Proxy
  pub ssl : Ssl
  pub logging : Logging
  pub cache : CacheConf
  pub network : Network
