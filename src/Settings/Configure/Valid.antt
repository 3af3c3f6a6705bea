-- ===== src/Settings/Configure/Valid.antt =====
-- The configuration that `update_config_file` writes obeys the rules of `validate`.
use frl_online_proxy.Prelude.{
  ◌≡◌, sym, ◌∙◌, Bool, true, false, String, ℕ, zero, suc, ◌<◌, List, [], ◌∷◌, length, arith,
  is_empty, nat_eq, if◌then◌else◌,
}
use mathlib.Core.Bool.{false≢true}
use frl_online_proxy.Outcome.{ok}
use frl_online_proxy.Exec.{lift, Ensures, Ensures-any, Ensures-bind, Ensures-if, Ensures-pure}
use frl_online_proxy.Settings.{Settings, LogDestination, console, file}
use frl_online_proxy.Settings.Validate.{uses_cache, has_colon, validate, validate_iff}
use frl_online_proxy.Settings.Load.{ConfigCrate}
use frl_online_proxy.Settings.Prompts.{
  Terminal, server_choices, chosen, level_choices, ask_mode, ask_database, ask_host, ask_remote,
}
use frl_online_proxy.Settings.Names.{level_try_from}
use frl_online_proxy.Settings.Configure.{
  ask_cert, ask_password, ask_certificate, ask_ssl, ask_basic_auth, ask_network, ask_destination,
  ask_level, wants_level, customize, ask_log, log_prompt, password_prompt, auth_prompt, cert_prompt,
  upstream_prompt, ask, update_config_file,
}

-- What the program relies on of its terminal: an empty text is asked for again, and a choice is one of
-- the items.
pub record IsFilling {T : Type 0} (term : Terminal T) : Type 0 where
  pub input :
      (prompt initial : String) (s : T) (text : String)
      → (term.input prompt initial s).0 ≡ ok text
      → is_empty text ≡ false
  pub select :
      (prompt : String) (items : List String) (default : ℕ) (s : T) (i : ℕ)
      → (term.select prompt items default s).0 ≡ ok i
      → i < length items

console_ne_file : ◌≡◌ {A = LogDestination} console file → ⊥
console_ne_file e = cc

-- Of the two destinations, the item that is not the second one is the console.
not_file : (i : ℕ) → i < 2 → nat_eq i 1 ≡ false → (if nat_eq i 0 then console else file) ≡ file → ⊥
not_file zero lt isnt e = cc
not_file (suc zero) lt isnt e = cc
not_file (suc (suc i)) lt isnt e = omega arith

module _ {T : Type 0} (term : Terminal T) (exists : String → Bool) (filling : IsFilling term) where
  typed :
      (prompt initial : String)
      → Ensures (λ text. is_empty text ≡ false) (term.input prompt initial)
  typed prompt initial = record { at = filling.input prompt initial }

  abbrev HasDb : Settings → Type 0
  HasDb conf = uses_cache conf.proxy.mode ≡ true → is_empty conf.cache.db_path ≡ false

  abbrev HasCert : Settings → Type 0
  HasCert conf =
      (conf.proxy.ssl ≡ true → is_empty conf.ssl.cert_path ≡ false)
      × (conf.proxy.ssl ≡ true → exists conf.ssl.cert_path ≡ true)

  abbrev HasUser : Settings → Type 0
  HasUser conf =
      conf.network.use_proxy ≡ true
      → conf.network.use_basic_auth ≡ true
      → is_empty conf.network.proxy_username ≡ false

  abbrev HasUpstream : Settings → Type 0
  HasUpstream conf =
      (conf.network.use_proxy ≡ true → is_empty conf.network.proxy_host ≡ false)
      × (conf.network.use_proxy ≡ true → is_empty conf.network.proxy_port ≡ false)

  abbrev HasLog : Settings → Type 0
  HasLog conf = conf.logging.destination ≡ file → is_empty conf.logging.file_path ≡ false

  -- The rules of the parts that have been asked for.
  abbrev Live : Settings → Type 0
  Live conf = HasDb conf × HasCert conf

  abbrev Linked : Settings → Type 0
  Linked conf = HasDb conf × HasCert conf × HasUpstream conf × HasUser conf

  abbrev Done : Settings → Type 0
  Done conf = HasDb conf × HasCert conf × HasUpstream conf × HasUser conf × HasLog conf

  ask_database-HasDb : (self : Settings) → Ensures HasDb (ask_database term self)
  unfolding ask_database
  ask_database-HasDb self =
      Ensures-if (uses_cache self.proxy.mode)
        (λ uses.
          Ensures-bind (typed "Name of (or path to) your database file" self.cache.db_path)
            λ path filled. Ensures-pure _ (λ u. filled))
        (λ unused. Ensures-pure self (λ u. absurd (false≢true (sym unused ∙ u))))

  ask_host-HasDb : (self : Settings) → HasDb self → Ensures HasDb (ask_host term self)
  unfolding ask_host
  ask_host-HasDb self db = Ensures-bind (typed "Host IP to listen on" self.proxy.host) λ host h.
      Ensures-bind (typed "Host port for http (non-ssl) mode" self.proxy.port)
        λ port p. Ensures-pure _ db

  ask_remote-HasDb : (self : Settings) → HasDb self → Ensures HasDb (ask_remote term self)
  unfolding ask_remote
  ask_remote-HasDb self db =
      Ensures-bind (Ensures-any (term.select "Adobe licensing server" server_choices _))
        λ choice u. Ensures-pure _ db

  ask_cert-exists :
      (tries : ℕ) (initial : String)
      → Ensures
          (λ path. (is_empty path ≡ false) × (exists path ≡ true))
          (ask_cert term exists tries initial)
  unfolding ask_cert
  ask_cert-exists zero initial = record { at = λ s path h. cc }
  ask_cert-exists (suc tries) initial = Ensures-bind (typed cert_prompt initial) λ path filled.
      Ensures-if (exists path) (λ there. Ensures-pure path (filled, there))
        (λ gone. ask_cert-exists tries path)

  ask_password-Live : (self : Settings) → Live self → Ensures Live (ask_password term exists self)
  unfolding ask_password
  ask_password-Live self live =
      Ensures-bind (Ensures-any (term.confirm (password_prompt term exists self) false)) λ choice u.
        Ensures-if choice
          (λ _.
            Ensures-bind (Ensures-any (term.password "Enter password"))
              λ password v. Ensures-pure _ live)
          (λ _. Ensures-pure self live)

  ask_ssl-Live :
      (tries : ℕ) (self : Settings) → HasDb self → Ensures Live (ask_ssl term exists tries self)
  unfolding ask_ssl ask_certificate
  ask_ssl-Live tries self db =
      Ensures-bind (Ensures-any (term.confirm "Use SSL?" self.proxy.ssl)) λ choice u.
        Ensures-if choice
          (λ _. Ensures-bind (typed "Host port for https mode" self.proxy.ssl_port) λ port p.
            Ensures-bind (ask_cert-exists tries self.ssl.cert_path)
              λ path cert. ask_password-Live _ (db, ((λ e. cert.0), (λ e. cert.1))))
          (λ _. Ensures-pure _ (db, ((λ e. absurd (false≢true e)), (λ e. absurd (false≢true e)))))

  ask_basic_auth-Linked :
      (self : Settings)
      → Live self
      → HasUpstream self
      → Ensures Linked (ask_basic_auth term exists self)
  unfolding ask_basic_auth
  ask_basic_auth-Linked self (db, cert) up =
      Ensures-bind (Ensures-any (term.confirm auth_prompt self.network.use_basic_auth)) λ choice u.
        Ensures-if choice
          (λ _. Ensures-bind (typed "Proxy username" self.network.proxy_username) λ username filled.
            Ensures-bind (typed "Proxy password" self.network.proxy_password)
              λ password p. Ensures-pure _ (db, cert, up, (λ e k. filled)))
          (λ _. Ensures-pure _ (db, cert, up, (λ e k. absurd (false≢true k))))

  ask_network-Linked : (self : Settings) → Live self → Ensures Linked (ask_network term exists self)
  unfolding ask_network
  ask_network-Linked self (db, cert) =
      Ensures-bind (Ensures-any (term.confirm upstream_prompt self.network.use_proxy)) λ choice u.
        Ensures-if choice
          (λ _. Ensures-bind (typed "Proxy host" self.network.proxy_host) λ host h.
            Ensures-bind (typed "Proxy port" self.network.proxy_port)
              λ port p. ask_basic_auth-Linked _ (db, cert) ((λ e. h), (λ e. p)))
          (λ _. Ensures-pure _ (
            db,
            cert,
            ((λ e. absurd (false≢true e)), (λ e. absurd (false≢true e))),
            (λ e k. absurd (false≢true e)),
          ))

  -- The destination is the file only if its path has just been typed.
  ask_destination-Done :
      (self : Settings) → Linked self → Ensures Done (ask_destination term exists self)
  unfolding ask_destination
  ask_destination-Done self (db, cert, up, user) =
      Ensures-bind
        (record { at = filling.select "Log destination" ("console" ∷ "disk file" ∷ []) 1 })
        λ choice within.
          Ensures-if (nat_eq choice 1)
            (λ _.
              Ensures-bind (typed "Name of (or path to) your log file" self.logging.file_path)
                λ path filled. Ensures-pure _ (db, cert, up, user, (λ e. filled)))
            (λ isnt.
              Ensures-pure _ (db, cert, up, user, (λ e. absurd (not_file choice within isnt e))))

  ask_level-Done : (self : Settings) → Done self → Ensures Done (ask_level term exists self)
  unfolding ask_level
  ask_level-Done self done =
      Ensures-bind (Ensures-any (term.select "Log level" level_choices _)) λ choice u.
        Ensures-bind (Ensures-any (lift (chosen level_try_from level_choices choice)))
          λ level v. Ensures-pure _ done

  ask_log-Done : (self : Settings) → Linked self → Ensures Done (ask_log term exists self)
  unfolding ask_log customize
  ask_log-Done self linked =
      Ensures-bind (Ensures-any (term.confirm (log_prompt term exists self) false)) λ choice u.
        Ensures-if choice
          (λ _. Ensures-bind (ask_destination-Done self linked) λ conf done.
            Ensures-bind (Ensures-any (wants_level term exists conf)) λ wanted v.
              Ensures-if wanted (λ _. ask_level-Done conf done) (λ _. Ensures-pure conf done))
          (λ _.
            Ensures-pure _
              (linked.0, linked.1, linked.2, linked.3, (λ e. absurd (console_ne_file e))))

  ask-Done : (tries : ℕ) (self : Settings) → Ensures Done (ask term exists tries self)
  unfolding ask
  ask-Done tries self = Ensures-bind (Ensures-any (ask_mode term self)) λ a u.
      Ensures-bind (ask_database-HasDb a) λ b db. Ensures-bind (ask_host-HasDb b db) λ c db'.
        Ensures-bind (ask_remote-HasDb c db') λ d db''.
          Ensures-bind (ask_ssl-Live tries d db'')
            λ e live. Ensures-bind (ask_network-Linked e live) λ f linked. ask_log-Done f linked

  update-Done :
      (crates : ConfigCrate) (tries : ℕ) (self : Settings)
      → Ensures Done (update_config_file term exists crates tries self)
  unfolding update_config_file
  update-Done crates tries self = Ensures-bind (ask-Done tries self) λ conf done.
      Ensures-bind (Ensures-any (lift (crates.to_string conf))) λ toml u.
        Ensures-bind (Ensures-any (lift (crates.write toml))) λ v w. Ensures-pure conf done

-- A configuration that `update_config_file` has written passes `validate`, unless the host that was
-- typed has a colon. The terminal asks again for an empty text, and a choice is one of its items.
pub update_config_file-validate :
    {T : Type 0} (term : Terminal T) (exists : String → Bool) (crates : ConfigCrate) (tries : ℕ)
    (self conf : Settings) (s : T)
    → IsFilling term
    → (update_config_file term exists crates tries self s).0 ≡ ok conf
    → has_colon conf.proxy.host ≡ false
    → validate exists conf ≡ ok tt
update_config_file-validate term exists crates tries self conf s filling written plain =
    let (db, cert, up, user, log) =
      (update-Done term exists filling crates tries self).at s conf written in
    (validate_iff exists conf).1 (record {
      cert_named = cert.0;
      cert_found = cert.1;
      host_plain = plain;
      db_named = db;
      proxy_host = up.0;
      proxy_port = up.1;
      proxy_user = user;
      log_named = log;
    })
