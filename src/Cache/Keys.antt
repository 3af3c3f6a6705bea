-- ===== src/Cache/Keys.antt =====
-- cache.rs: `activation_id` and `deactivation_id`, the keys of the tables.
use Prim.Native.Char.{Char, code}
use Prim.Native.String
use text.Mathlib.TextLemmas.{nil-append, cons-append, cons-eq-cons}
use frl_online_proxy.Prelude.{
  String, ◌≡◌, refl, sym, ap, ◌∙◌, ◌≢◌, ◌↔◌, List, [], ◌∷◌, if◌then◌else◌,
}
use frl_online_proxy.Cops.{Request, default}

-- `[T]::join`
abbrev join : List String → String → String
join [] sep = ""
join (x ∷ []) sep = x
join (x ∷ y ∷ ys) sep = String.◌++◌ x (String.◌++◌ sep (join (y ∷ ys) sep))

-- What identifies the device: the user on a virtual desktop, the device elsewhere.
abbrev pub device_factor : Request → String
device_factor req = if req.is_vdi then req.os_user_id else req.device_id

unfoldable pub deactivation_id : Request → String
deactivation_id req = join (req.package_id ∷ device_factor req ∷ []) "|"

unfoldable pub activation_id : Request → String
activation_id req = join (req.app_id ∷ req.ngl_version ∷ deactivation_id req ∷ []) "|"

-- A text without `|`.
abbrev pub NoBar : String → Type 0
NoBar String.[] = Unit
NoBar (String.◌∷◌ c s) = (code c ≢ b'|') × NoBar s

abbrev barred : String → String → String
barred s t = String.◌++◌ s (String.◌++◌ "|" t)

abbrev bar : Char
bar = "|"

barred-nil : (t : String) → barred "" t ≡ String.◌∷◌ bar t
barred-nil t = nil-append _ ∙ cons-append bar "" t ∙ ap (String.◌∷◌ bar) (nil-append t)

barred-cons : (c : Char) (s t : String) → barred (String.◌∷◌ c s) t ≡ String.◌∷◌ c (barred s t)
barred-cons c s t = cons-append c s _

-- The first bar splits the text.
barred_inj :
    (s s' t t' : String) → NoBar s → NoBar s' → barred s t ≡ barred s' t' → (s ≡ s') × (t ≡ t')
barred_inj String.[] String.[] t t' h h' e =
    (refl, (cons-eq-cons.0 (sym (barred-nil t) ∙ e ∙ barred-nil t')).1)
barred_inj String.[] (String.◌∷◌ d s') t t' h (p, h') e =
    absurd (p (ap code (sym (cons-eq-cons.0 (sym (barred-nil t) ∙ e ∙ barred-cons d s' t')).0)))
barred_inj (String.◌∷◌ c s) String.[] t t' (p, h) h' e =
    absurd (p (ap code (cons-eq-cons.0 (sym (barred-cons c s t) ∙ e ∙ barred-nil t')).0))
barred_inj (String.◌∷◌ c s) (String.◌∷◌ d s') t t' (p, h) (p', h') e =
    let (same, rest) = cons-eq-cons.0 (sym (barred-cons c s t) ∙ e ∙ barred-cons d s' t') in
    let (heads, tails) = barred_inj s s' t t' h h' rest in (cc, tails)

-- Two requests whose package ids have no `|` have the same deactivation key exactly if they are of
-- the same package and the same device or virtual-desktop user.
pub deactivation_id-eq_iff :
    (r s : Request)
    → NoBar r.package_id
    → NoBar s.package_id
    → (deactivation_id r ≡ deactivation_id s)
      ↔ ((r.package_id ≡ s.package_id) × (device_factor r ≡ device_factor s))
unfolding deactivation_id
deactivation_id-eq_iff r s h k = (λ e. barred_inj r.package_id s.package_id _ _ h k e, λ (p, d). cc)

-- The application's part of an activation key has no `|`.
pub record IsPlain (r : Request) : Type 0 where
  pub app_id : NoBar r.app_id
  pub ngl_version : NoBar r.ngl_version

-- Two requests whose application ids and library versions have no `|` have the same activation key
-- exactly if they agree on both and on the deactivation key.
pub activation_id-eq_iff :
    (r s : Request)
    → IsPlain r
    → IsPlain s
    → (activation_id r ≡ activation_id s) ↔ (
        (r.app_id ≡ s.app_id)
        × (r.ngl_version ≡ s.ngl_version)
        × (deactivation_id r ≡ deactivation_id s))
unfolding activation_id
activation_id-eq_iff r s h k = (
  λ e.
      let (app, rest) = barred_inj r.app_id s.app_id _ _ h.app_id k.app_id e in
      let (ngl, ids) =
        barred_inj r.ngl_version s.ngl_version _ _ h.ngl_version k.ngl_version rest in
      (app, ngl, ids),
  λ (a, n, d). cc,
)

-- With a `|` in the ids, different packages and devices can share a key.
collision :
    deactivation_id (record default { package_id = "a|b"; device_id = "c" })
    ≡ deactivation_id (record default { package_id = "a"; device_id = "b|c" })
unfolding deactivation_id
collision = refl
