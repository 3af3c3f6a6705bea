-- ===== src/Tests/Configure.antt =====
-- The theorems on the questions, asked of a user who says yes, takes each default choice and types the
-- given texts, the first path of a certificate being wrong.
use frl_online_proxy.Prelude.{
  ◌≡◌, ◌↔◌, refl, String, Bool, true, false, List, [], ◌∷◌, length, ◌==◌, is_empty, if◌then◌else◌,
  arith, lower, ltb,
}
use frl_online_proxy.Outcome.{ok, err, Report}
use frl_online_proxy.Exec.{Exec}
use frl_online_proxy.Settings.{Settings, cache, file, LogLevel}
use frl_online_proxy.Settings.Names.{mode_try_from, level_try_from}
use frl_online_proxy.Settings.Validate.{validate}
use frl_online_proxy.Settings.Load.{ConfigCrate}
use frl_online_proxy.Settings.Prompts.{
  Terminal, is_off, ask_mode, ask_database, ask_host, ask_remote,
}
use frl_online_proxy.Settings.Configure.{
  ask_cert, ask_password, ask_certificate, ask_ssl, ask_basic_auth, ask_network, ask_destination,
  ask_level, ask_log, customize, log_prompt, ask, update_config_file,
}
use frl_online_proxy.Settings.Configure.Cert.{found, missed, ask_cert-named}
use frl_online_proxy.Settings.Configure.Level.{ask_level-picked, ask_log-off_iff}
use frl_online_proxy.Settings.Configure.Valid.{IsFilling, update_config_file-validate}
use frl_online_proxy.Tests.Samples.{conf_in}

abbrev gone : Report
gone = record { message = "end of input" }

abbrev read : Exec (List String) String
read [] = (err gone, [])
read (x ∷ xs) = (if is_empty x then err gone else ok x, xs)

abbrev pub user : Terminal (List String)
user = record {
  select =
      λ prompt items default s. ((if ltb default (length items) then ok default else err gone), s);
  input = λ prompt initial. read;
  confirm = λ prompt default s. (ok true, s);
  password = λ prompt s. (ok "secret", s);
}

abbrev pub is_cert : String → Bool
is_cert path = path == "cert"

abbrev pub crates : ConfigCrate
crates = record {
  merge = λ text. ok (conf_in cache);
  to_string = λ conf. ok "toml";
  write = λ text. ok tt;
  template = "";
}

abbrev pub answers : List String
answers =
    "db" ∷ "0.0.0.0" ∷ "8080" ∷ "8443" ∷ "typo" ∷ "cert" ∷ "upstream" ∷ "3128" ∷ "me" ∷ "pass"
    ∷ "log" ∷ []

read_lem : (s : List String) (text : String) → (read s).0 ≡ ok text → is_empty text ≡ false
read_lem [] text h = cc
read_lem (x ∷ xs) text h = ground arith

filling : IsFilling user
filling = record {
  input = λ prompt initial. read_lem;
  select = λ prompt items default s i. ground arith;
}

ask_cert-named_example :
    ask_cert user is_cert 2 "" ("typo" ∷ "cert" ∷ "upstream" ∷ []) ≡ (ok "cert", "upstream" ∷ [])
ask_cert-named_example =
    ask_cert-named user is_cert ("typo" ∷ "cert" ∷ "upstream" ∷ []) ("upstream" ∷ []) "" "cert" 1 2
      (missed refl refl (found refl refl)) (omega arith)

ask_level-picked_example : (ask_level user is_cert (conf_in cache) answers).0 ≡ ok (conf_in cache)
ask_level-picked_example =
    ask_level-picked user is_cert (conf_in cache) (conf_in cache).logging.level answers refl

-- The configuration that the answers make.
abbrev customized : Settings
customized = record (conf_in cache) {
  proxy = record (conf_in cache).proxy { ssl = true; remote_host = "https://lcs-cops.adobe.io" };
  ssl = record { cert_path = "cert"; cert_password = "secret" };
  cache = record { db_path = "db" };
  logging = record { level = LogLevel.info; destination = file; file_path = "log" };
  network = record {
    use_proxy = true;
    proxy_host = "upstream";
    proxy_port = "3128";
    use_basic_auth = true;
    proxy_username = "me";
    proxy_password = "pass";
  };
}

written : (update_config_file user is_cert crates 2 (conf_in cache) answers).0 ≡ ok customized
unfolding update_config_file ask ask_mode ask_database ask_host ask_remote ask_ssl ask_certificate
    ask_cert ask_password ask_network ask_basic_auth ask_log customize ask_destination ask_level
    mode_try_from level_try_from lower
written = refl

update_config_file-validate_example : validate is_cert customized ≡ ok tt
update_config_file-validate_example =
    update_config_file-validate user is_cert crates 2 (conf_in cache) customized answers filling
      written refl

logged :
    (ask_log user is_cert (conf_in cache) ("log" ∷ [])).0
    ≡ ok (record (conf_in cache) { logging = customized.logging })
unfolding ask_log customize ask_destination ask_level level_try_from lower
logged = refl

ask_log-off_iff_example :
    (is_off customized.logging.level ≡ true)
    ↔ ((user.confirm (log_prompt user is_cert (conf_in cache)) false ("log" ∷ [])).0 ≡ ok false)
ask_log-off_iff_example =
    ask_log-off_iff user is_cert (conf_in cache)
      (record (conf_in cache) { logging = customized.logging }) ("log" ∷ []) logged
