-- ===== src/Overrides/Table/Newest.antt =====
-- The order of the rows that are read changes no table.
use avvalo.Prelude.{
  ℕ, String, false, ◌||◌, List, [], ◌∷◌, ◌==◌, nat_eq, ◌≡◌, refl, ◌∙◌, arith, eq_iff, All,
}
use avvalo.Overrides.Table.{is_used, is_named, row_named, newest_first, newest}
use avvalo.Overrides.Table.Unique.{IsTable}

module _ {R : Type 0} (id_of : R → ℕ) (name_of : R → String) (updated_of : R → ℕ) where
  is_used-newest_first :
      (j : ℕ) (row : R) (rows : List R)
      → is_used id_of j (newest_first updated_of row rows)
        ≡ (nat_eq (id_of row) j || is_used id_of j rows)
  unfolding newest_first
  is_used-newest_first j row [] = refl
  is_used-newest_first j row (r ∷ rows) = ground (arith, is_used-newest_first j row rows)

  is_named-newest_first :
      (k : String) (row : R) (rows : List R)
      → is_named name_of k (newest_first updated_of row rows)
        ≡ ((name_of row == k) || is_named name_of k rows)
  unfolding newest_first
  is_named-newest_first k row [] = refl
  is_named-newest_first k row (r ∷ rows) = ground (arith, is_named-newest_first k row rows)

  newest_first-IsTable :
      (row : R) (rows : List R)
      → IsTable id_of name_of (row ∷ rows)
      → IsTable id_of name_of (newest_first updated_of row rows)
  unfolding newest_first
  newest_first-IsTable row [] t = t
  newest_first-IsTable row (r ∷ rows) t = ground (
    arith,
    t.0,
    t.1,
    t.2.0,
    t.2.1,
    eq_iff (name_of r) (name_of row),
    eq_iff (name_of row) (name_of r),
    is_used-newest_first (id_of r) row rows,
    is_named-newest_first (name_of r) row rows,
    newest_first-IsTable row rows,
  )

  -- What `newest` returns is a table.
  is_used-newest :
      (j : ℕ) (rows : List R) → is_used id_of j (newest updated_of rows) ≡ is_used id_of j rows
  unfolding newest
  is_used-newest j [] = refl
  is_used-newest j (r ∷ rows) =
      ground (arith, is_used-newest_first j r (newest updated_of rows), is_used-newest j rows)

  is_named-newest :
      (k : String) (rows : List R)
      → is_named name_of k (newest updated_of rows) ≡ is_named name_of k rows
  unfolding newest
  is_named-newest k [] = refl
  is_named-newest k (r ∷ rows) =
      ground (arith, is_named-newest_first k r (newest updated_of rows), is_named-newest k rows)

  pub newest-IsTable :
      (rows : List R) → IsTable id_of name_of rows → IsTable id_of name_of (newest updated_of rows)
  unfolding newest
  newest-IsTable [] t = tt
  newest-IsTable (r ∷ rows) t = newest_first-IsTable r (newest updated_of rows) (
    is_used-newest (id_of r) rows ∙ t.0,
    is_named-newest (name_of r) rows ∙ t.1,
    newest-IsTable rows t.2,
  )

  row_named-newest_first :
      (k : String) (row : R) (rows : List R)
      → is_named name_of (name_of row) rows ≡ false
      → row_named name_of k (newest_first updated_of row rows) ≡ row_named name_of k (row ∷ rows)
  unfolding newest_first
  row_named-newest_first k row [] h = refl
  row_named-newest_first k row (r ∷ rows) h = ground (
    arith,
    eq_iff (name_of r) k,
    eq_iff (name_of row) k,
    eq_iff (name_of r) (name_of row),
    row_named-newest_first k row rows,
  )

  pub row_named-newest :
      (k : String) (rows : List R)
      → IsTable id_of name_of rows
      → row_named name_of k (newest updated_of rows) ≡ row_named name_of k rows
  unfolding newest
  row_named-newest k [] t = refl
  row_named-newest k (r ∷ rows) t =
      row_named-newest_first k r (newest updated_of rows) (is_named-newest (name_of r) rows ∙ t.1)
      ∙ ground (arith, row_named-newest k rows t.2)

module _ {R : Type 0} (updated_of : R → ℕ) (P : R → Type 0) where
  newest_first-All :
      (row : R) (rows : List R) → P row → All P rows → All P (newest_first updated_of row rows)
  unfolding newest_first
  newest_first-All row [] p all = (p, tt)
  newest_first-All row (r ∷ rows) p all = ground (arith, newest_first-All row rows p all.1)

  pub newest-All : (rows : List R) → All P rows → All P (newest updated_of rows)
  unfolding newest
  newest-All [] all = tt
  newest-All (r ∷ rows) all =
      newest_first-All r (newest updated_of rows) all.0 (newest-All rows all.1)
