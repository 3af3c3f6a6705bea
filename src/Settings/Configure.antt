-- ===== src/Settings/Configure.antt =====
-- settings.rs: `Settings::update_config_file`, from the question for SSL to the file that it writes.
pub mod Cert
pub mod Level
pub mod Valid
use frl_online_proxy.Prelude.{
  ℕ, zero, suc, String, Bool, true, false, not, [], ◌∷◌, if◌then◌else◌, nat_eq, is_empty,
}
use frl_online_proxy.Outcome.{Outcome, ok, err, panic, Report}
use frl_online_proxy.Exec.{Exec, pure, lift, ◌>>=◌, ◌>>◌}
use frl_online_proxy.Settings.{Settings, LogLevel, off, LogDestination, console, file}
use frl_online_proxy.Settings.Names.{level_try_from}
use frl_online_proxy.Settings.Load.{ConfigCrate}
use frl_online_proxy.Settings.Prompts.{
  Terminal, chosen, level_choices, level_default, is_off, is_info, out_of_patience, ask_mode,
  ask_database, ask_host, ask_remote,
}

abbrev pub auth_prompt : String
auth_prompt = "Does your upstream proxy require (basic) authentication?"

abbrev pub cert_prompt : String
cert_prompt = "Name of (or path to) your cert file"

abbrev pub upstream_prompt : String
upstream_prompt = "Does your network require this proxy to use an upstream proxy?"

module _ {T : Type 0} (term : Terminal T) (exists : String → Bool) where
  -- `while need_cert { … }`: asks until there is a file at the path, at most `tries` times.
  unfoldable pub ask_cert : ℕ → String → Exec T String
  ask_cert zero choice = lift (err out_of_patience)
  ask_cert (suc tries) choice = do
    path ← term.input cert_prompt choice
    if exists path then pure path else ask_cert tries path

  abbrev pub password_prompt : Settings → String
  password_prompt self =
      if is_empty self.ssl.cert_password
      then "Do you want to store a password in your configuration file?"
      else "Do you want to update the password in your configuration file?"

  unfoldable pub ask_password : Settings → Exec T Settings
  ask_password self = do
    choice ← term.confirm (password_prompt self) false
    if choice
        then (do
          password ← term.password "Enter password"
          pure (record self { ssl = record self.ssl { cert_password = password } }))
        else pure self

  unfoldable pub ask_certificate : ℕ → Settings → Exec T Settings
  ask_certificate tries self = do
    port ← term.input "Host port for https mode" self.proxy.ssl_port
    path ← ask_cert tries self.ssl.cert_path
    ask_password (record self {
      proxy = record self.proxy { ssl_port = port };
      ssl = record self.ssl { cert_path = path };
    })

  unfoldable pub ask_ssl : ℕ → Settings → Exec T Settings
  ask_ssl tries self = do
    choice ← term.confirm "Use SSL?" self.proxy.ssl
    if choice
        then ask_certificate tries (record self { proxy = record self.proxy { ssl = true } })
        else pure (record self { proxy = record self.proxy { ssl = false } })

  unfoldable pub ask_basic_auth : Settings → Exec T Settings
  ask_basic_auth self = do
    choice ← term.confirm auth_prompt self.network.use_basic_auth
    if choice
        then (do
          username ← term.input "Proxy username" self.network.proxy_username
          password ← term.input "Proxy password" self.network.proxy_password
          pure (record self {
            network = record self.network {
              use_basic_auth = true;
              proxy_username = username;
              proxy_password = password;
            };
          }))
        else pure (record self { network = record self.network { use_basic_auth = false } })

  unfoldable pub ask_network : Settings → Exec T Settings
  ask_network self = do
    choice ← term.confirm upstream_prompt self.network.use_proxy
    if choice
        then (do
          host ← term.input "Proxy host" self.network.proxy_host
          port ← term.input "Proxy port" self.network.proxy_port
          ask_basic_auth (record self {
            network = record self.network {
              use_proxy = true;
              proxy_host = host;
              proxy_port = port;
            };
          }))
        else pure (record self { network = record self.network { use_proxy = false } })

  unfoldable pub ask_destination : Settings → Exec T Settings
  ask_destination self = do
    choice ← term.select "Log destination" ("console" ∷ "disk file" ∷ []) 1
    let destination = if nat_eq choice 0 then console else file
    if nat_eq choice 1
        then (do
          path ← term.input "Name of (or path to) your log file" self.logging.file_path
          pure (record self {
            logging = record self.logging { destination = destination; file_path = path };
          }))
        else pure (record self { logging = record self.logging { destination = destination } })

  -- The level is asked for, unless it is the default one and the user leaves it so.
  abbrev pub wants_level : Settings → Exec T Bool
  wants_level self =
      if not (is_info self.logging.level)
      then pure true
      else term.confirm "Do you want to adjust the level of logged information?" false

  unfoldable pub ask_level : Settings → Exec T Settings
  ask_level self = do
    choice ← term.select "Log level" level_choices (level_default self.logging.level)
    level ← lift (chosen level_try_from level_choices choice)
    pure (record self { logging = record self.logging { level = level } })

  abbrev pub log_prompt : Settings → String
  log_prompt self =
      if is_off self.logging.level
      then "Do you want your proxy server to log information about its operation?"
      else "Do you want to customize your proxy server's logging configuration?"

  unfoldable pub customize : Settings → Exec T Settings
  customize self = do
    self ← ask_destination self
    wanted ← wants_level self
    if wanted then ask_level self else pure self

  unfoldable pub ask_log : Settings → Exec T Settings
  ask_log self = do
    choice ← term.confirm (log_prompt self) false
    if choice
        then customize self
        else pure
            (record self { logging = record self.logging { level = off; destination = console } })

  -- All the questions, in their order.
  unfoldable pub ask : ℕ → Settings → Exec T Settings
  ask tries self = do
    self ← ask_mode term self
    self ← ask_database term self
    self ← ask_host term self
    self ← ask_remote term self
    self ← ask_ssl tries self
    self ← ask_network self
    ask_log self

  -- The configuration that is written, after the questions.
  unfoldable pub update_config_file : ConfigCrate → ℕ → Settings → Exec T Settings
  update_config_file crates tries self = do
    self ← ask tries self
    toml ← lift (crates.to_string self)
    lift (crates.write toml)
    pure self
