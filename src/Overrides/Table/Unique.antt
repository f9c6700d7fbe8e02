-- ===== src/Overrides/Table/Unique.antt =====
-- A table has one row for an id, and one for a name.
use avvalo.Prelude.{
  ℕ, String, Bool, false, ◌||◌, List, [], ◌∷◌, ◌++◌, ◌==◌, nat_eq, ◌≡◌, refl, arith, eq_iff, keep,
  map,
}
use avvalo.Overrides.Table.{is_used, replaced, is_named, is_taken}

module _ {R : Type 0} (id_of : R → ℕ) (name_of : R → String) where
  abbrev pub IsTable : List R → Type 0
  IsTable [] = Unit
  IsTable (row ∷ rows) =
      (is_used id_of (id_of row) rows ≡ false)
      × (is_named name_of (name_of row) rows ≡ false)
      × IsTable rows

  is_used-append :
      (id : ℕ) (rows : List R) (row : R)
      → is_used id_of id (rows ++ row ∷ []) ≡ (is_used id_of id rows || nat_eq (id_of row) id)
  is_used-append id [] row = ground arith
  is_used-append id (r ∷ rows) row = ground (arith, is_used-append id rows row)

  is_named-append :
      (k : String) (rows : List R) (row : R)
      → is_named name_of k (rows ++ row ∷ []) ≡ (is_named name_of k rows || (name_of row == k))
  is_named-append k [] row = ground arith
  is_named-append k (r ∷ rows) row = ground (arith, is_named-append k rows row)

  pub append-IsTable :
      (rows : List R) (row : R)
      → IsTable rows
      → is_used id_of (id_of row) rows ≡ false
      → is_named name_of (name_of row) rows ≡ false
      → IsTable (rows ++ row ∷ [])
  append-IsTable [] row t u n = (refl, refl, tt)
  append-IsTable (r ∷ rows) row t u n = ground (
    arith,
    t.0,
    t.1,
    is_used-append (id_of r) rows row,
    is_named-append (name_of r) rows row,
    eq_iff (name_of r) (name_of row),
    eq_iff (name_of row) (name_of r),
    append-IsTable rows row t.2,
  )

  pub is_taken-fresh :
      (id : ℕ) (k : String) (rows : List R)
      → is_used id_of id rows ≡ false
      → is_taken id_of name_of id k rows ≡ is_named name_of k rows
  is_taken-fresh id k [] u = refl
  is_taken-fresh id k (r ∷ rows) u = ground (arith, is_taken-fresh id k rows)

  is_used-kept :
      (j : ℕ) (test : R → Bool) (rows : List R)
      → is_used id_of j rows ≡ false
      → is_used id_of j (keep test rows) ≡ false
  is_used-kept j test [] h = refl
  is_used-kept j test (r ∷ rows) h = ground (arith, is_used-kept j test rows)

  is_named-kept :
      (k : String) (test : R → Bool) (rows : List R)
      → is_named name_of k rows ≡ false
      → is_named name_of k (keep test rows) ≡ false
  is_named-kept k test [] h = refl
  is_named-kept k test (r ∷ rows) h = ground (arith, is_named-kept k test rows)

  pub keep-IsTable : (test : R → Bool) (rows : List R) → IsTable rows → IsTable (keep test rows)
  keep-IsTable test [] t = tt
  keep-IsTable test (r ∷ rows) t = ground (
    arith,
    t.0,
    t.1,
    is_used-kept (id_of r) test rows,
    is_named-kept (name_of r) test rows,
    keep-IsTable test rows t.2,
  )

module _ {R : Type 0} (id_of : R → ℕ) (name_of : R → String) (f : R → R) (name : String)
    (same : (row : R) → id_of (f row) ≡ id_of row)
    (renamed : (row : R) → name_of (f row) ≡ name) where
  is_used-replaced :
      (j id : ℕ) (rows : List R)
      → is_used id_of j (map (replaced id_of id f) rows) ≡ is_used id_of j rows
  is_used-replaced j id [] = refl
  is_used-replaced j id (r ∷ rows) = ground (arith, same r, is_used-replaced j id rows)

  -- The row that is replaced is not among the rows.
  is_named-replaced :
      (k : String) (id : ℕ) (rows : List R)
      → is_used id_of id rows ≡ false
      → is_named name_of k (map (replaced id_of id f) rows) ≡ is_named name_of k rows
  is_named-replaced k id [] u = refl
  is_named-replaced k id (r ∷ rows) u =
      ground (arith, same r, renamed r, is_named-replaced k id rows)

  -- The new name is another.
  is_named-renamed :
      (k : String) (id : ℕ) (rows : List R)
      → is_named name_of k rows ≡ false
      → (name == k) ≡ false
      → is_named name_of k (map (replaced id_of id f) rows) ≡ false
  is_named-renamed k id [] n v = refl
  is_named-renamed k id (r ∷ rows) n v =
      ground (arith, same r, renamed r, is_named-renamed k id rows)

  pub replaced-IsTable :
      (id : ℕ) (rows : List R)
      → IsTable id_of name_of rows
      → is_taken id_of name_of id name rows ≡ false
      → IsTable id_of name_of (map (replaced id_of id f) rows)
  replaced-IsTable id [] t h = tt
  replaced-IsTable id (r ∷ rows) t h = ground (
    arith,
    t.0,
    t.1,
    same r,
    renamed r,
    eq_iff (name_of r) name,
    eq_iff name (name_of r),
    is_used-replaced (id_of r) id rows,
    is_used-replaced id id rows,
    is_taken-fresh id_of name_of id name rows,
    is_named-replaced name id rows,
    is_named-renamed (name_of r) id rows,
    replaced-IsTable id rows t.2,
  )
