-- ===== src/Settings/Prompts.antt =====
-- settings.rs: the questions of `Settings::update_config_file`, and the first of them. The terminal is a
-- parameter; each group of questions is a function from the configuration so far.

use frl_online_proxy.Prelude.{
  ℕ, String, Bool, true, false, none, some, List, [], ◌∷◌, if◌then◌else◌, ◌==◌, nat_eq, nth,
}
use frl_online_proxy.Outcome.{Outcome, panic, Report, or_panic}
use frl_online_proxy.Exec.{Exec, pure, lift, ◌>>=◌}
use frl_online_proxy.Settings.{
  Settings, ProxyMode, cache, store, forward, passthrough, LogLevel, off, error, warn, info, debug,
  trace,
}
use frl_online_proxy.Settings.Names.{mode_try_from}
use frl_online_proxy.Settings.Validate.{uses_cache}

-- The crate `dialoguer`: a choice among items with a default, a text with an initial text, a yes or no
-- with a default, and a password. Each can fail.
pub record Terminal (T : Type 0) : Type 0 where
  pub select : String → List String → ℕ → Exec T ℕ
  pub input : String → String → Exec T String
  pub confirm : String → Bool → Exec T Bool
  pub password : String → Exec T String

-- `choices[choice].try_into().unwrap()`
abbrev pub chosen : {A : Type 0} → (String → Outcome Report A) → List String → ℕ → Outcome Report A
chosen try_from choices i = elim (nth choices i) [ none ↦ panic | some s ↦ or_panic (try_from s) ]

abbrev pub mode_choices : List String
mode_choices = "cache" ∷ "store" ∷ "forward" ∷ "passthrough" ∷ []

abbrev pub mode_default : ProxyMode → ℕ
mode_default cache = 0
mode_default store = 1
mode_default forward = 2
mode_default passthrough = 3

abbrev pub level_choices : List String
level_choices = "no logging" ∷ "error" ∷ "warn" ∷ "info" ∷ "debug" ∷ "trace" ∷ []

abbrev pub level_default : LogLevel → ℕ
level_default off = 0
level_default error = 1
level_default warn = 2
level_default info = 3
level_default debug = 4
level_default trace = 5

abbrev pub is_off : LogLevel → Bool
is_off off = true
is_off _ = false

abbrev pub is_info : LogLevel → Bool
is_info info = true
is_info _ = false

abbrev fixed_ip : String
fixed_ip = "https://lcs-cops-proxy.adobe.com"

abbrev variable_ip : String
variable_ip = "https://lcs-cops.adobe.io"

abbrev pub server_choices : List String
server_choices =
    "Variable IP server (lcs-cops.adobe.io)" ∷ "Fixed IP server (lcs-cops-proxy.adobe.com)" ∷ []

abbrev pub out_of_patience : Report
out_of_patience = record { message = "no certificate was found" }

module _ {T : Type 0} (term : Terminal T) where
  unfoldable pub ask_mode : Settings → Exec T Settings
  ask_mode self = do
    choice ← term.select "Proxy mode" mode_choices (mode_default self.proxy.mode)
    mode ← lift (chosen mode_try_from mode_choices choice)
    pure (record self { proxy = record self.proxy { mode = mode } })

  unfoldable pub ask_database : Settings → Exec T Settings
  ask_database self =
      if uses_cache self.proxy.mode
      then (do
        choice ← term.input "Name of (or path to) your database file" self.cache.db_path
        pure (record self { cache = record self.cache { db_path = choice } }))
      else pure self

  unfoldable pub ask_host : Settings → Exec T Settings
  ask_host self = do
    host ← term.input "Host IP to listen on" self.proxy.host
    port ← term.input "Host port for http (non-ssl) mode" self.proxy.port
    pure (record self { proxy = record self.proxy { host = host; port = port } })

  unfoldable pub ask_remote : Settings → Exec T Settings
  ask_remote self = do
    choice ←
        term.select "Adobe licensing server" server_choices
          (if self.proxy.remote_host == fixed_ip then 1 else 0)
    pure (record self {
      proxy = record self.proxy { remote_host = if nat_eq choice 0 then variable_ip else fixed_ip };
    })
