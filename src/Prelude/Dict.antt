-- ===== src/Prelude/Dict.antt =====
-- `std::collections::HashMap<String, V>` by its entries: a later entry replaces an earlier one.
use Prim.Native.String.{String}
use mathlib.Core.Bool.{Bool, true, false}
use mathlib.Core.List.{List, [], ◌∷◌}
use mathlib.Core.Option.{Option, none, some}
use text.Mathlib.Text.{◌==◌}
use frl_online_proxy.Prelude.Tests.{if◌then◌else◌}

abbrev pub HashMap {ℓ} : Type ℓ → Type ℓ
HashMap V = List (String × V)

module _ {ℓ} {V : Type ℓ} where
  abbrev pub get : HashMap V → String → Option V
  get [] k = none
  get ((j, v) ∷ m) k = if j == k then some v else get m k

  abbrev pub insert : HashMap V → String × V → HashMap V
  insert [] e = e ∷ []
  insert ((j, w) ∷ m) (k, v) = if j == k then (k, v) ∷ m else (j, w) ∷ insert m (k, v)

  -- `collect` of pairs.
  abbrev pub insert_all : HashMap V → List (String × V) → HashMap V
  insert_all m [] = m
  insert_all m (e ∷ es) = insert_all (insert m e) es

  abbrev pub collect : List (String × V) → HashMap V
  collect = insert_all []

  -- `is_empty`
  abbrev pub is_empty : HashMap V → Bool
  is_empty [] = true
  is_empty (_ ∷ _) = false
