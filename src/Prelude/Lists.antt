-- ===== src/Prelude/Lists.antt =====
-- Lists measured by native numbers, filters by Boolean tests, and predicates by recursion.
use Prim.Native.Nat.{ℕ, zero, suc}
use mathlib.Core.Path.{◌≡◌, refl, subst}
use mathlib.Core.Bool.{Bool, false, ◌||◌}
use mathlib.Core.List.{List, [], ◌∷◌, ◌++◌, map}
use mathlib.Core.Option.{Option, none, some, some-injective, none-ne-some}
use native.Mathlib.Omega.{arith}
use frl_online_proxy.Prelude.Tests.{if◌then◌else◌}

module _ {ℓ} {A : Type ℓ} where
  abbrev pub length : List A → ℕ
  length [] = 0
  length (x ∷ xs) = suc (length xs)

  -- The entry at a place, and the others.
  abbrev pub nth : List A → ℕ → Option A
  nth [] i = none
  nth (x ∷ xs) zero = some x
  nth (x ∷ xs) (suc i) = nth xs i

  abbrev pub without : List A → ℕ → List A
  without [] i = []
  without (x ∷ xs) zero = xs
  without (x ∷ xs) (suc i) = x ∷ without xs i

  -- `filter`, `any` and `find` by a Boolean test.
  abbrev pub keep : (A → Bool) → List A → List A
  keep p [] = []
  keep p (x ∷ xs) = if p x then x ∷ keep p xs else keep p xs

  abbrev pub any : (A → Bool) → List A → Bool
  any p [] = false
  any p (x ∷ xs) = p x || any p xs

  abbrev pub find : (A → Bool) → List A → Option A
  find p [] = none
  find p (x ∷ xs) = if p x then some x else find p xs

  pub find-append :
      (p : A → Bool) (xs ys : List A)
      → find p (xs ++ ys) ≡ elim (find p xs) [ none ↦ find p ys | some x ↦ some x ]
  find-append p [] ys = refl
  find-append p (x ∷ xs) ys = ground (arith, find-append p xs ys)

module _ {ℓ κ} {A : Type ℓ} (P : A → Type κ) where
  abbrev pub All : List A → Type κ
  All [] = Unit
  All (x ∷ xs) = P x × All xs

  pub All-append : (xs ys : List A) → All xs → All ys → All (xs ++ ys)
  All-append [] ys h k = k
  All-append (x ∷ xs) ys (p, h) k = (p, All-append xs ys h k)

  pub All-keep : (p : A → Bool) (xs : List A) → All xs → All (keep p xs)
  All-keep p [] h = tt
  All-keep p (x ∷ xs) (q, h) = ground (arith, All-keep p xs h)

module _ {ℓ κ} {A : Type ℓ} (P : A → Type κ) where
  pub nth-All : (xs : List A) (i : ℕ) {x : A} → All P xs → nth xs i ≡ some x → P x
  nth-All [] i h e = absurd (none-ne-some _ e)
  nth-All (y ∷ xs) zero (p, h) e = subst P (some-injective _ _ e) p
  nth-All (y ∷ xs) (suc i) (p, h) e = nth-All xs i h e

  pub without-All : (xs : List A) (i : ℕ) → All P xs → All P (without xs i)
  without-All [] i h = tt
  without-All (x ∷ xs) zero (p, h) = h
  without-All (x ∷ xs) (suc i) (p, h) = (p, without-All xs i h)

-- What two predicates give at each entry.
pub All-both :
    {A : Type 0} {P Q R : A → Type 0} (xs : List A)
    → ((x : A) → P x → Q x → R x)
    → All P xs
    → All Q xs
    → All R xs
All-both [] f h k = tt
All-both (x ∷ xs) f (p, h) (q, k) = (f x p q, All-both xs f h k)

pub any-append :
    {A : Type 0} (p : A → Bool) (xs ys : List A) → any p (xs ++ ys) ≡ (any p xs || any p ys)
any-append p [] ys = refl
any-append p (x ∷ xs) ys = ground (arith, any-append p xs ys)

pub All-map {ℓ ℓ' κ} :
    {A : Type ℓ} {B : Type ℓ'} (P : B → Type κ) (f : A → B) (xs : List A)
    → All (λ x. P (f x)) xs
    → All P (map f xs)
All-map P f [] h = tt
All-map P f (x ∷ xs) (p, h) = (p, All-map P f xs h)
