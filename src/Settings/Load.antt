-- ===== src/Settings/Load.antt =====
-- settings.rs: `Settings::load_config`, over the text of the configuration file.
use Prim.Native.String
use frl_online_proxy.Prelude.{ℕ, String, Option, none, some, if◌then◌else◌, nat_eq}
use frl_online_proxy.Outcome.{Outcome, ok, err, panic, Report, ◌>>=◌}
use frl_online_proxy.Settings.{Settings, LogLevel, LogDestination, debug, trace}
use frl_online_proxy.Settings.Names.{destination_try_from}
use frl_online_proxy.Cli.{FrlProxy}

-- What the crates `config` and `toml` and the file system do: the configuration that a file's text
-- gives over the defaults and under the environment, the text of a configuration, and how the creation
-- of the file with a text ends. The errors of the last two are those with the messages that the program
-- wraps around them, which name the configuration or the file.
pub record ConfigCrate : Type 0 where
  pub merge : String → Outcome Report Settings
  pub to_string : Settings → Outcome Report String
  pub write : String → Outcome Report (Unit {0})
  -- `include_str!("res/defaults.toml")`
  pub template : String

-- `match args.debug { 1 => …, 2 => …, _ => {} }`
abbrev pub debug_level : ℕ → LogLevel → LogLevel
debug_level n level = if nat_eq n 1 then debug else if nat_eq n 2 then trace else level

abbrev with_level : ℕ → Settings → Settings
with_level n conf = record conf {
  logging = record conf.logging { level = debug_level n conf.logging.level };
}

abbrev with_destination : LogDestination → Settings → Settings
with_destination d conf = record conf { logging = record conf.logging { destination = d } }

-- `wrap_err`: the message says what was wrong with the option.
abbrev recognized : String → Outcome Report LogDestination → Outcome Report LogDestination
recognized log_to (ok d) = ok d
recognized log_to (err e) =
    err (record { message = String.◌++◌ "Not a recognized log destination: " log_to })
recognized log_to panic = panic

abbrev log_override : Option String → Settings → Outcome Report Settings
log_override none conf = ok conf
log_override (some log_to) conf = do
  destination ← recognized log_to (destination_try_from log_to)
  ok (with_destination destination conf)

module _ (crates : ConfigCrate) where
  -- The configuration of a file that is there.
  unfoldable pub configured : FrlProxy → String → Outcome Report Settings
  configured args text = do
    conf ← crates.merge text
    log_override args.log_to (with_level args.debug conf)

  -- The file before, and then how the function ends, with the file after. What a failed write
  -- leaves in the file is not modelled.
  abbrev create :
      Outcome Report (Unit {0}) → Option String → Outcome Report (Option Settings) × Option String
  create (ok a) before = (ok none, some crates.template)
  create (err e) before = (err e, before)
  create panic before = (panic, before)

  abbrev present : Outcome Report Settings → Outcome Report (Option Settings)
  present o = do conf ← o; ok (some conf)

  unfoldable pub load_config :
      FrlProxy → Option String → Outcome Report (Option Settings) × Option String
  unfolding configured
  load_config args none = create (crates.write crates.template) none
  load_config args (some text) = (present (configured args text), some text)
