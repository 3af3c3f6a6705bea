-- ===== src/Exec.antt =====
-- A function of the program that changes a state and returns, fails or panics. What it wrote before
-- an error or a panic stays written.
use mathlib.Core.Path.{subst}
use frl_online_proxy.Prelude.{◌≡◌, ◌≢◌, refl, Bool, true, false, if◌then◌else◌}
use frl_online_proxy.Outcome.{Outcome, ok, err, panic, Report, ok-injective}

abbrev pub Exec : Type 0 → Type 0 → Type 0
Exec S A = S → Outcome Report A × S

module _ {S A : Type 0} where
  abbrev pub pure : A → Exec S A
  pure a s = (ok a, s)

  abbrev pub lift : Outcome Report A → Exec S A
  lift r s = (r, s)

  abbrev pub gets : (S → A) → Exec S A
  gets f s = (ok (f s), s)

module _ {S A B : Type 0} where
  abbrev pub continue : Outcome Report A → (A → Exec S B) → Exec S B
  continue (ok a) f s = f a s
  continue (err e) f s = (err e, s)
  continue panic f s = (panic, s)

  infixl 10 ◌>>=◌
  abbrev pub ◌>>=◌ : Exec S A → (A → Exec S B) → Exec S B
  ◌>>=◌ m f s = continue (m s).0 f (m s).1

  infixl 10 ◌>>◌
  abbrev pub ◌>>◌ : Exec S A → Exec S B → Exec S B
  m >> n = m >>= λ _. n

-- A step that returned, and what came after it.
pub >>=-eq-ok :
    {S A B : Type 0} (m : Exec S A) (f : A → Exec S B) (s : S) {b : B}
    → ((m >>= f) s).0 ≡ ok b
    → (a : A) × ((m s).0 ≡ ok a) × ((f a (m s).1).0 ≡ ok b)
>>=-eq-ok {S} {A} {B} m f s {b} h = go (m s).0 (m s).1 h
  where
    go :
        (o : Outcome Report A) (t : S)
        → (continue o f t).0 ≡ ok b
        → (a : A) × (o ≡ ok a) × ((f a t).0 ≡ ok b)
    go (ok a) t e = (a, refl, e)
    go (err x) t e = cc
    go panic t e = cc

-- `m` keeps a property of the state, however it ends.
pub record Keeps {S A : Type 0} (P : S → Type 0) (m : Exec S A) : Type 0 where
  pub at : (s : S) → P s → P (m s).1

module _ {S A : Type 0} {P : S → Type 0} where
  pub Keeps-lift : (o : Outcome Report A) → Keeps P (lift o)
  Keeps-lift o = record { at = λ s h. h }

  pub Keeps-if : (b : Bool) {m n : Exec S A} → Keeps P m → Keeps P n → Keeps P (if b then m else n)
  Keeps-if true km kn = km
  Keeps-if false km kn = kn

module _ {S A B : Type 0} {P : S → Type 0} (m : Exec S A) (next : A → Exec S B) where
  -- Two steps keep what each of them keeps.
  pub Keeps-bind : Keeps P m → ((a : A) → Keeps P (next a)) → Keeps P (m >>= next)
  Keeps-bind first later = record { at = λ s p. go (m s).0 (m s).1 (first.at s p) }
    where
      go : (o : Outcome Report A) (t : S) → P t → P (continue o next t).1
      go panic t p = p
      go (err e) t p = p
      go (ok a) t p = (later a).at t p

module _ {S A B : Type 0} (P : S → Type 0) (m : Exec S A) (next : A → Exec S B) where
  -- The second step may use what the first returned.
  pub Keeps-after :
      Keeps P m
      → ((s : S) (a : A) → P s → (m s).0 ≡ ok a → P (m s).1 → P (next a (m s).1).1)
      → Keeps P (m >>= next)
  Keeps-after first later = record { at = λ s p. go s p (m s).0 refl }
    where
      go : (s : S) → P s → (o : Outcome Report A) → (m s).0 ≡ o → P (continue o next (m s).1).1
      go s p panic e = first.at s p
      go s p (err x) e = first.at s p
      go s p (ok a) e = later s a p e (first.at s p)

-- What `m` returns has a property, whenever it returns.
pub record Ensures {S A : Type 0} (P : A → Type 0) (m : Exec S A) : Type 0 where
  pub at : (s : S) (a : A) → (m s).0 ≡ ok a → P a

pub Ensures-pure : {S A : Type 0} {P : A → Type 0} (a : A) → P a → Ensures P (pure {S = S} a)
Ensures-pure {P = P} a p = record { at = λ s b e. subst P (ok-injective e) p }

pub Ensures-any : {S A : Type 0} (m : Exec S A) → Ensures (λ _. Unit) m
Ensures-any m = record { at = λ s a e. tt }

pub Ensures-if :
    {S A : Type 0} {P : A → Type 0} (b : Bool) {m n : Exec S A}
    → (b ≡ true → Ensures P m)
    → (b ≡ false → Ensures P n)
    → Ensures P (if b then m else n)
Ensures-if true em en = em refl
Ensures-if false em en = en refl

module _ {S A B : Type 0} {Q : A → Type 0} {P : B → Type 0} {m : Exec S A}
    {next : A → Exec S B} where
  pub Ensures-bind : Ensures Q m → ((a : A) → Q a → Ensures P (next a)) → Ensures P (m >>= next)
  Ensures-bind first later = record {
    at = λ s b e.
        let (a, returned, rest) = >>=-eq-ok m next s e in
        (later a (first.at s a returned)).at (m s).1 b rest;
  }

-- `m` never panics.
pub record Calm {S A : Type 0} (m : Exec S A) : Type 0 where
  pub at : (s : S) → (m s).0 ≢ panic

pub Calm-pure : {S A : Type 0} (a : A) → Calm (pure {S = S} a)
Calm-pure a = record { at = λ s h. cc }

pub Calm-if :
    {S A : Type 0} (b : Bool) {m n : Exec S A} → Calm m → Calm n → Calm (if b then m else n)
Calm-if true km kn = km
Calm-if false km kn = kn

module _ {S A B : Type 0} (m : Exec S A) (next : A → Exec S B) where
  pub Calm-bind : Calm m → ((a : A) → (s : S) → (m s).0 ≡ ok a → Calm (next a)) → Calm (m >>= next)
  Calm-bind first later = record { at = λ s. go s (m s).0 (m s).1 refl }
    where
      go : (s : S) (o : Outcome Report A) (t : S) → (m s).0 ≡ o → (continue o next t).0 ≢ panic
      go s panic t e h = first.at s e
      go s (err x) t e h = cc
      go s (ok a) t e h = (later a s e).at t h
