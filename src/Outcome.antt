-- ===== src/Outcome.antt =====
-- How a Rust function ends: with `Ok`, with `Err`, or in a panic that unwinds the task.
use frl_online_proxy.Prelude.{◌≡◌, refl, String}

pub data Outcome (E A : Type 0) : Type 0 where
  ok : A → Outcome E A
  err : E → Outcome E A
  panic : Outcome E A

-- `eyre::Report` by its message.
pub record Report : Type 0 where
  pub message : String

infixl 10 ◌>>=◌ ◌>>◌
-- `?`: an error or a panic ends the function.
abbrev pub ◌>>=◌ : {E A B : Type 0} → Outcome E A → (A → Outcome E B) → Outcome E B
ok a >>= f = f a
err e >>= f = err e
panic >>= f = panic

abbrev pub ◌>>◌ : {E B : Type 0} → Outcome E (Unit {0}) → Outcome E B → Outcome E B
m >> k = m >>= λ _. k

-- `unwrap`
abbrev pub or_panic : {A : Type 0} → Outcome Report A → Outcome Report A
or_panic (ok a) = ok a
or_panic (err e) = panic
or_panic panic = panic

-- `wrap_err`
abbrev pub wrapped : {A : Type 0} → String → Outcome Report A → Outcome Report A
wrapped why (ok a) = ok a
wrapped why (err e) = err (record { message = why })
wrapped why panic = panic

-- Whether the outcome is a panic.
abbrev pub Panics : {E A : Type 0} → Outcome E A → Type 0
Panics (ok a) = ⊥
Panics (err e) = ⊥
Panics panic = Unit

pub ok-injective : {E A : Type 0} {a b : A} → ◌≡◌ {A = Outcome E A} (ok a) (ok b) → a ≡ b
ok-injective e = cc

-- What a chain that returned has done.
module _ {E A B : Type 0} (f : A → Outcome E B) {b : B} where
  pub >>=-eq-ok : (m : Outcome E A) → (m >>= f) ≡ ok b → (a : A) × (f a ≡ ok b) × (m ≡ ok a)
  >>=-eq-ok panic h = cc
  >>=-eq-ok (err e) h = cc
  >>=-eq-ok (ok a) h = (a, h, refl)
