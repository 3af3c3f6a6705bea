-- ===== src/Cli.antt =====
-- cli.rs: the command line, as the argument parser hands it over.
use frl_online_proxy.Prelude.{ℕ, String, Bool, Option}

pub data Command : Type 0 where
  start : Option String → Option Bool → Command
  configure : Command
  clear : Bool → Command
  import export : String → Command

-- `debug` counts the occurrences of `-d`, in a u8.
pub record FrlProxy : Type 0 where
  pub config_file : String
  pub debug : ℕ
  pub log_to : Option String
  pub cmd : Command
