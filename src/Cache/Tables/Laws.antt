-- ===== src/Cache/Tables/Laws.antt =====
-- The SQL statements against one another, and the uniqueness that the schemas declare.
use frl_online_proxy.Prelude.{
  String, ◌≡◌, ◌≢◌, refl, sym, not, none, some, List, [], ◌∷◌, ◌++◌, ◌==◌, eq_iff, All, All-append,
  All-keep, if◌then◌else◌, arith,
}
use frl_online_proxy.Cache.Tables.{delete_where, insert_or_replace, select_where}

module _ {R : Type 0} (col : R → String) where
  -- No two rows share their value in the column.
  abbrev pub Unique : List R → Type 0
  Unique [] = Unit
  Unique (x ∷ xs) = All (λ y. col y ≢ col x) xs × Unique xs

  pub select-delete_self :
      (k : String) (rows : List R) → select_where col k (delete_where col k rows) ≡ none
  unfolding select_where delete_where
  select-delete_self k [] = refl
  select-delete_self k (x ∷ xs) = ground (arith, select-delete_self k xs)

  pub select-delete :
      (j k : String) (rows : List R)
      → select_where col k (delete_where col j rows)
        ≡ (if j == k then none else select_where col k rows)
  unfolding select_where delete_where
  select-delete j k [] = ground arith
  select-delete j k (x ∷ xs) =
      ground (arith, select-delete j k xs, eq_iff j k, eq_iff (col x) j, eq_iff (col x) k)

  select-append :
      (k : String) (rows : List R) (row : R)
      → select_where col k (rows ++ row ∷ []) ≡ elim (select_where col k rows) [
        | none ↦ if col row == k then some row else none
        | some r ↦ some r
      ]
  unfolding select_where
  select-append k [] row = refl
  select-append k (x ∷ xs) row = ground (arith, select-append k xs row)

  pub select-insert :
      (k : String) (row : R) (rows : List R)
      → select_where col k (insert_or_replace col row rows)
        ≡ (if col row == k then some row else select_where col k rows)
  unfolding insert_or_replace
  select-insert k row rows =
      ground (
        arith,
        select-append k (delete_where col (col row) rows) row,
        select-delete (col row) k rows,
      )

  pub delete-All :
      (P : R → Type 0) (k : String) (rows : List R) → All P rows → All P (delete_where col k rows)
  unfolding delete_where
  delete-All P k rows h = All-keep P _ rows h

  pub insert-All :
      (P : R → Type 0) (row : R) (rows : List R)
      → P row
      → All P rows
      → All P (insert_or_replace col row rows)
  unfolding insert_or_replace
  insert-All P row rows p h = All-append P _ _ (delete-All P (col row) rows h) (p, tt)

  -- The deletion may be by another column.
  pub delete-Unique :
      (other : R → String) (k : String) (rows : List R)
      → Unique rows
      → Unique (delete_where other k rows)
  unfolding delete_where
  delete-Unique other k [] u = tt
  delete-Unique other k (x ∷ xs) (h, u) = ground (
    arith,
    delete-Unique other k xs u,
    All-keep (λ y. col y ≢ col x) (λ r. not (other r == k)) xs h,
  )

  delete-absent : (k : String) (rows : List R) → All (λ y. col y ≢ k) (delete_where col k rows)
  unfolding delete_where
  delete-absent k [] = tt
  delete-absent k (x ∷ xs) = ground (arith, delete-absent k xs, eq_iff (col x) k)

  Unique-append :
      (row : R) (rows : List R)
      → Unique rows
      → All (λ y. col y ≢ col row) rows
      → Unique (rows ++ row ∷ [])
  Unique-append row [] u h = (tt, tt)
  Unique-append row (x ∷ xs) (a, u) (n, h) =
      (All-append (λ y. col y ≢ col x) xs _ a ((λ e. n (sym e)), tt), Unique-append row xs u h)

  pub insert-Unique :
      (row : R) (rows : List R) → Unique rows → Unique (insert_or_replace col row rows)
  unfolding insert_or_replace
  insert-Unique row rows u =
      Unique-append row _ (delete-Unique col (col row) rows u) (delete-absent (col row) rows)
