-- ===== src/Prelude/Order.antt =====
-- A list sorted by a text key: `sort_unstable_by(|a, b| a.key.cmp(&b.key))`.
use mathlib.Core.Path.{◌≡◌, refl}
use mathlib.Core.Bool.{true, Bool, ◌||◌}
use mathlib.Core.Logic.{inl, inr}
use mathlib.Core.List.{List, [], ◌∷◌, ◌++◌, Perm}
use mathlib.Core.List.Perm
use Prim.Native.String.{String}
use native.Mathlib.Omega.{arith}
use frl_online_proxy.Prelude.Tests.{if◌then◌else◌, Bool-cases}
use frl_online_proxy.Prelude.Lists.{All, All-append, any}
use frl_online_proxy.Prelude.Text.{text_leb, text_leb_total, text_leb_trans}

module _ {ℓ} {A : Type ℓ} (key : A → String) where
  insert_by : A → List A → List A
  insert_by x [] = x ∷ []
  insert_by x (y ∷ ys) = if text_leb (key x) (key y) then x ∷ y ∷ ys else y ∷ insert_by x ys

  -- Rust leaves the order of equal keys open; here they keep their order.
  unfoldable pub sort_by : List A → List A
  unfolding insert_by
  sort_by [] = []
  sort_by (x ∷ xs) = insert_by x (sort_by xs)

  -- Every element's key is at most the keys of the later ones.
  abbrev pub Ordered : List A → Type 0
  Ordered [] = Unit
  Ordered (x ∷ xs) = All (λ y. text_leb (key x) (key y) ≡ true) xs × Ordered xs

  All-insert_by : (P : A → Type 0) (x : A) (xs : List A) → P x → All P xs → All P (insert_by x xs)
  unfolding insert_by
  All-insert_by P x [] p h = (p, tt)
  All-insert_by P x (y ∷ ys) p (q, h) = ground (arith, All-insert_by P x ys p h)

  pub All-sort_by : (P : A → Type 0) (xs : List A) → All P xs → All P (sort_by xs)
  unfolding sort_by
  All-sort_by P [] h = tt
  All-sort_by P (x ∷ xs) (p, h) = All-insert_by P x (sort_by xs) p (All-sort_by P xs h)

  any-insert_by : (p : A → Bool) (x : A) (xs : List A) → any p (insert_by x xs) ≡ (p x || any p xs)
  unfolding insert_by
  any-insert_by p x [] = refl
  any-insert_by p x (y ∷ ys) = ground (arith, any-insert_by p x ys)

  pub any-sort_by : (p : A → Bool) (xs : List A) → any p (sort_by xs) ≡ any p xs
  unfolding sort_by
  any-sort_by p [] = refl
  any-sort_by p (x ∷ xs) = ground (arith, any-insert_by p x (sort_by xs), any-sort_by p xs)

  All-leb_trans :
      (x y : A) (ys : List A)
      → text_leb (key x) (key y) ≡ true
      → All (λ z. text_leb (key y) (key z) ≡ true) ys
      → All (λ z. text_leb (key x) (key z) ≡ true) ys
  All-leb_trans x y [] h k = tt
  All-leb_trans x y (z ∷ zs) h (k, ks) =
      (text_leb_trans (key x) (key y) (key z) h k, All-leb_trans x y zs h ks)

  insert_by-Ordered : (x : A) (xs : List A) → Ordered xs → Ordered (insert_by x xs)
  unfolding insert_by
  insert_by-Ordered x [] h = (tt, tt)
  insert_by-Ordered x (y ∷ ys) (h, o) = elim (Bool-cases (text_leb (key x) (key y))) [
    | inl le ↦ rw le ((le, All-leb_trans x y ys le h), (h, o))
    | inr gt ↦ rw gt (
      All-insert_by (λ z. text_leb (key y) (key z) ≡ true) x ys (text_leb_total (key x) (key y) gt)
          h,
      insert_by-Ordered x ys o,
    )
  ]

  pub sort_by-Ordered : (xs : List A) → Ordered (sort_by xs)
  unfolding sort_by
  sort_by-Ordered [] = tt
  sort_by-Ordered (x ∷ xs) = insert_by-Ordered x (sort_by xs) (sort_by-Ordered xs)

  insert_by-perm : (x : A) (xs : List A) → Perm (insert_by x xs) (x ∷ xs)
  unfolding insert_by
  insert_by-perm x [] = Perm.refl (x ∷ [])
  insert_by-perm x (y ∷ ys) = elim (Bool-cases (text_leb (key x) (key y))) [
    | inl le ↦ rw le (Perm.refl (x ∷ y ∷ ys))
    | inr gt ↦ rw gt (Perm.trans (Perm.cons y (insert_by-perm x ys)) (Perm.swap x y ys))
  ]

  pub sort_by-perm : (xs : List A) → Perm (sort_by xs) xs
  unfolding sort_by
  sort_by-perm [] = Perm.refl []
  sort_by-perm (x ∷ xs) = Perm.trans (insert_by-perm x (sort_by xs)) (Perm.cons x (sort_by-perm xs))

-- Every entry stands in a relation to the later ones.
module _ {A : Type 0} (R : A → A → Type 0) where
  abbrev pub Pairwise : List A → Type 0
  Pairwise [] = Unit
  Pairwise (x ∷ xs) = All (R x) xs × Pairwise xs

  module _ (key : A → String) (symm : (x y : A) → R x y → R y x) where
    insert_by-Pairwise :
        (x : A) (xs : List A) → All (R x) xs → Pairwise xs → Pairwise (insert_by key x xs)
    unfolding insert_by
    insert_by-Pairwise x [] h p = (tt, tt)
    insert_by-Pairwise x (y ∷ ys) (r, h) (k, p) = elim (Bool-cases (text_leb (key x) (key y))) [
      | inl le ↦ rw le (((r, h), (k, p)))
      | inr gt ↦ rw gt ((All-insert_by key (R y) x ys (symm x y r) k, insert_by-Pairwise x ys h p))
    ]

    pub sort_by-Pairwise : (xs : List A) → Pairwise xs → Pairwise (sort_by key xs)
    unfolding sort_by
    sort_by-Pairwise [] p = tt
    sort_by-Pairwise (x ∷ xs) (h, p) =
        insert_by-Pairwise x (sort_by key xs) (All-sort_by key (R x) xs h) (sort_by-Pairwise xs p)

  pub Pairwise-append :
      (xs ys : List A)
      → Pairwise xs
      → Pairwise ys
      → All (λ x. All (R x) ys) xs
      → Pairwise (xs ++ ys)
  Pairwise-append [] ys p q h = q
  Pairwise-append (x ∷ xs) ys (k, p) q (r, h) =
      (All-append (R x) xs ys k r, Pairwise-append xs ys p q h)
