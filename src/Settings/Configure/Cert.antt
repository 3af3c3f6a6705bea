-- ===== src/Settings/Configure/Cert.antt =====
-- The loop of `update_config_file` that asks for the certificate's path.
use frl_online_proxy.Prelude.{◌≡◌, ℕ, zero, suc, ◌<◌, String, Bool, true, false, arith}
use frl_online_proxy.Outcome.{ok}
use frl_online_proxy.Settings.Prompts.{Terminal}
use frl_online_proxy.Settings.Configure.{cert_prompt, ask_cert}

-- Asked from a state and an initial text, the user names a number of paths where there is no file, and
-- then a path where there is one.
pub data Names {T : Type 0} (term : Terminal T) (exists : String → Bool)
    : T → String → ℕ → String → T → Type 0 where
  found :
      {s t : T} {initial path : String}
      → term.input cert_prompt initial s ≡ (ok path, t)
      → exists path ≡ true
      → Names term exists s initial 0 path t
  missed :
      {s t u : T} {initial wrong path : String} {n : ℕ}
      → term.input cert_prompt initial s ≡ (ok wrong, t)
      → exists wrong ≡ false
      → Names term exists t wrong n path u
      → Names term exists s initial (suc n) path u

module _ {T : Type 0} (term : Terminal T) (exists : String → Bool) where
  -- When the user names a path of a file after `n` that are none, the loop ends with that path, each
  -- wrong path having been offered as the next initial text, for every bound on the tries above `n`.
  pub ask_cert-named :
      (s t : T) (initial path : String) (n tries : ℕ)
      → Names term exists s initial n path t
      → n < tries
      → ask_cert term exists tries initial s ≡ (ok path, t)
  unfolding ask_cert
  ask_cert-named s t initial path n zero names lt = absurd (omega arith)
  ask_cert-named s t initial path n (suc tries) (found typed there) lt = ground arith
  ask_cert-named s t initial path (suc n) (suc tries)
        (missed {t = next} {wrong = wrong} typed gone later) lt =
      ground (arith, ask_cert-named next t wrong path n tries later (omega arith))
