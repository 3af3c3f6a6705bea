-- ===== src/Settings/Configure/Level.antt =====
-- The choice of the log level, and when logging ends up switched off.
use frl_online_proxy.Prelude.{
  ◌≡◌, ◌↔◌, refl, Bool, true, false, String, ℕ, zero, suc, [], ◌∷◌, not, arith, if◌then◌else◌,
  Bool-cases, inl, inr, nat_eq, lower,
}
use mathlib.Core.Path.{subst}
use frl_online_proxy.Outcome.{ok-injective, ok, panic}
use frl_online_proxy.Exec.{>>=-eq-ok, Ensures, Ensures-any, Ensures-bind, Ensures-if, Ensures-pure}
use frl_online_proxy.Settings.{
  Settings, ProxyMode, cache, store, forward, passthrough, LogLevel, off, error, warn, info, debug,
  trace,
}
use frl_online_proxy.Settings.Names.{mode_try_from, level_try_from}
use frl_online_proxy.Settings.Prompts.{
  Terminal, chosen, mode_choices, mode_default, level_choices, level_default, is_off, is_info,
  ask_mode,
}
use frl_online_proxy.Settings.Configure.{ask_level, ask_log, ask_destination, log_prompt, customize}

level_of_choice :
    (l : LogLevel)
    → chosen level_try_from level_choices (level_default l) ≡ (if is_off l then panic else ok l)
unfolding level_try_from lower
level_of_choice off = refl
level_of_choice error = refl
level_of_choice warn = refl
level_of_choice info = refl
level_of_choice debug = refl
level_of_choice trace = refl

info-on : (l : LogLevel) → is_info l ≡ true → is_off l ≡ false
info-on info h = refl
info-on off h = cc
info-on _ h = refl

mode_of_choice : (m : ProxyMode) → chosen mode_try_from mode_choices (mode_default m) ≡ ok m
unfolding mode_try_from lower
mode_of_choice cache = refl
mode_of_choice store = refl
mode_of_choice forward = refl
mode_of_choice passthrough = refl

-- Of the items that the menu shows, the first ends in a panic.
chosen-ne-off :
    (i : ℕ) (l : LogLevel) → chosen level_try_from level_choices i ≡ ok l → is_off l ≡ false
unfolding level_try_from lower
chosen-ne-off zero l h = cc
chosen-ne-off (suc zero) l h = subst (λ x. is_off x ≡ false) (ok-injective h) refl
chosen-ne-off (suc (suc zero)) l h = subst (λ x. is_off x ≡ false) (ok-injective h) refl
chosen-ne-off (suc (suc (suc zero))) l h = subst (λ x. is_off x ≡ false) (ok-injective h) refl
chosen-ne-off (suc (suc (suc (suc zero)))) l h = subst (λ x. is_off x ≡ false) (ok-injective h) refl
chosen-ne-off (suc (suc (suc (suc (suc zero))))) l h =
    subst (λ x. is_off x ≡ false) (ok-injective h) refl
chosen-ne-off (suc (suc (suc (suc (suc (suc i)))))) l h = cc

module _ {T : Type 0} (term : Terminal T) where
  -- Picking the item of a mode sets that mode.
  pub ask_mode-picked :
      (self : Settings) (m : ProxyMode) (s : T)
      → (term.select "Proxy mode" mode_choices (mode_default self.proxy.mode) s).0
        ≡ ok (mode_default m)
      → (ask_mode term self s).0 ≡ ok (record self { proxy = record self.proxy { mode = m } })
  unfolding ask_mode
  ask_mode-picked self m s h = ground (arith, mode_of_choice m)

module _ {T : Type 0} (term : Terminal T) (exists : String → Bool) where
  -- Picking the item of a log level sets that level, except that the item "no logging" ends the
  -- program in a panic.
  pub ask_level-picked :
      (self : Settings) (l : LogLevel) (s : T)
      → (term.select "Log level" level_choices (level_default self.logging.level) s).0
        ≡ ok (level_default l)
      → (ask_level term exists self s).0 ≡ (
          if is_off l
          then panic
          else ok (record self { logging = record self.logging { level = l } }))
  unfolding ask_level
  ask_level-picked self l s h = ground (arith, level_of_choice l)

  ask_destination-level :
      (self : Settings)
      → Ensures (λ c. c.logging.level ≡ self.logging.level) (ask_destination term exists self)
  unfolding ask_destination
  ask_destination-level self =
      Ensures-bind (Ensures-any (term.select "Log destination" ("console" ∷ "disk file" ∷ []) 1))
        λ choice u.
          Ensures-if (nat_eq choice 1)
            (λ _. Ensures-bind (Ensures-any (term.input _ _)) λ path v. Ensures-pure _ refl)
            (λ _. Ensures-pure _ refl)

  ask_level-on :
      (self : Settings) → Ensures (λ c. is_off c.logging.level ≡ false) (ask_level term exists self)
  unfolding ask_level
  ask_level-on self =
      Ensures-bind (Ensures-any (term.select "Log level" level_choices _)) λ choice u.
        Ensures-bind {Q = λ l. is_off l ≡ false} (record { at = λ s l h. chosen-ne-off choice l h })
          λ level on. Ensures-pure _ on

  customize-on :
      (self : Settings) → Ensures (λ c. is_off c.logging.level ≡ false) (customize term exists self)
  unfolding customize
  customize-on self = Ensures-bind (ask_destination-level self) λ c same.
      Ensures-bind {Q = λ wanted. wanted ≡ false → is_info c.logging.level ≡ true}
        (Ensures-if (not (is_info c.logging.level)) (λ _. Ensures-pure true (λ e. cc))
          (λ e. record { at = λ s a h k. ground arith }))
        λ wanted kept.
          Ensures-if wanted (λ _. ask_level-on c)
            (λ e. Ensures-pure c (info-on c.logging.level (kept e)))

  -- After the questions on logging, it is switched off exactly if the user declined to customize it,
  -- also where it was on before.
  pub ask_log-off_iff :
      (self self' : Settings) (s : T)
      → (ask_log term exists self s).0 ≡ ok self'
      → (is_off self'.logging.level ≡ true)
        ↔ ((term.confirm (log_prompt term exists self) false s).0 ≡ ok false)
  unfolding ask_log
  ask_log-off_iff self self' s h =
      let (choice, confirmed, rest) =
        >>=-eq-ok (term.confirm (log_prompt term exists self) false) _ s h in
      elim (Bool-cases choice) [
        | inl yes_please ↦ (
          λ is. absurd (ground (arith, (customize-on self).at _ self' (rw yes_please at rest))),
          λ no_thanks. absurd (ground arith),
        )
        | inr declined ↦ (λ is. rw declined at confirmed, λ no_thanks. ground arith)
      ]
