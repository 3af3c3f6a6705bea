-- ===== src/Prelude/Text.antt =====
-- What the program uses of Rust's `str`: byte order, ASCII case, prefixes and emptiness.
use Prim.Native.Nat.{ℕ, ◌+◌, Ordering, compare}
use Prim.Native.Char.{code}
use Prim.Native.String.{String}
use mathlib.Core.Path.{◌≡◌, refl}
use mathlib.Core.Bool.{Bool, true, false, ◌&&◌}
use mathlib.Core.List.{List, [], ◌∷◌, map}
use native.Mathlib.Omega.{arith}
use frl_online_proxy.Prelude.Tests.{leb, nat_eq, if◌then◌else◌}

-- The code points of a text: its bytes, if it is ASCII.
abbrev pub codes : String → List ℕ
codes String.[] = []
codes (String.◌∷◌ c s) = code c ∷ codes s

-- `u8::to_ascii_lowercase`
unfoldable pub lower : ℕ → ℕ
lower c = if leb b'A' c && leb c b'Z' then c + 32 else c

-- Whether the second list begins with the first.
abbrev pub is_prefix : List ℕ → List ℕ → Bool
is_prefix [] ys = true
is_prefix (x ∷ xs) [] = false
is_prefix (x ∷ xs) (y ∷ ys) = nat_eq x y && is_prefix xs ys

abbrev same_codes : List ℕ → List ℕ → Bool
same_codes [] [] = true
same_codes (x ∷ xs) (y ∷ ys) = nat_eq x y && same_codes xs ys
same_codes _ _ = false

-- `str::eq_ignore_ascii_case`
unfoldable pub eq_ignore_ascii_case : String → String → Bool
unfolding lower
eq_ignore_ascii_case s t = same_codes (map lower (codes s)) (map lower (codes t))

-- `str::is_empty`
abbrev pub is_empty : String → Bool
is_empty String.[] = true
is_empty (String.◌∷◌ _ _) = false

-- `<=` of Rust's `str`: lexicographic on the bytes, which is the order of the code points.
unfoldable pub text_leb : String → String → Bool
text_leb String.[] t = true
text_leb (String.◌∷◌ c s) String.[] = false
text_leb (String.◌∷◌ c s) (String.◌∷◌ d t) = elim (compare (code c) (code d)) [
  | Ordering.lt ↦ true
  | Ordering.eq ↦ text_leb s t
  | Ordering.gt ↦ false
]

pub text_leb_total : (s t : String) → text_leb s t ≡ false → text_leb t s ≡ true
unfolding text_leb
text_leb_total String.[] t h = cc
text_leb_total (String.◌∷◌ c s) String.[] h = refl
text_leb_total (String.◌∷◌ c s) (String.◌∷◌ d t) h = ground (arith, text_leb_total s t)

pub text_leb_trans :
    (s t u : String) → text_leb s t ≡ true → text_leb t u ≡ true → text_leb s u ≡ true
unfolding text_leb
text_leb_trans String.[] t u h k = refl
text_leb_trans (String.◌∷◌ c s) String.[] u h k = cc
text_leb_trans (String.◌∷◌ c s) (String.◌∷◌ d t) String.[] h k = cc
text_leb_trans (String.◌∷◌ c s) (String.◌∷◌ d t) (String.◌∷◌ e u) h k =
    ground (arith, text_leb_trans s t u)

pub text_leb_refl : (s : String) → text_leb s s ≡ true
unfolding text_leb
text_leb_refl String.[] = refl
text_leb_refl (String.◌∷◌ c s) = ground (arith, text_leb_refl s)
