-- ===== src/Tests/Settings.antt =====
-- The theorems on the configuration, at concrete inputs.
use frl_online_proxy.Prelude.{◌≡◌, ◌↔◌, refl, false, lower}
use frl_online_proxy.Outcome.{ok}
use frl_online_proxy.Settings.{ProxyMode, cache}
use frl_online_proxy.Settings.Names.{mode_try_from}
use frl_online_proxy.Settings.Validate.{validate, IsValid, validate_iff}
use frl_online_proxy.Tests.Samples.{conf_in}

validate_iff_example :
    (validate (λ _. false) (conf_in cache) ≡ ok tt) ↔ IsValid (λ _. false) (conf_in cache)
validate_iff_example = validate_iff (λ _. false) (conf_in cache)

-- The empty text is taken as the first name.
mode_try_from-empty : mode_try_from "" ≡ ok cache
unfolding mode_try_from
mode_try_from-empty = refl

mode_try_from-case : mode_try_from "PASS" ≡ ok ProxyMode.passthrough
unfolding mode_try_from lower
mode_try_from-case = refl
