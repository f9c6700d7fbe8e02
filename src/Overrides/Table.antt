-- ===== src/Overrides/Table.antt =====
-- The rows of the tables `rule_override` and `knowledge_card_override`: the reads and writes of
-- app/rules_store/repo.py and app/knowledge_store/repo.py. A row has an id, a name that the database
-- keeps unique, and the time of its last change.
pub mod Unique
pub mod Newest
use avvalo.Prelude.{
  ℕ, String, Bool, not, ◌&&◌, List, [], ◌∷◌, Option, none, some, ◌==◌, ltb, nat_eq, if◌then◌else◌,
  any, keep, map,
}

module _ {R : Type 0} (id_of : R → ℕ) where
  abbrev pub is_used : ℕ → List R → Bool
  is_used id rows = any (λ (row : R). nat_eq (id_of row) id) rows

  -- `session.get`
  abbrev pub get_row : ℕ → List R → Option R
  get_row id [] = none
  get_row id (row ∷ rows) = if nat_eq (id_of row) id then some row else get_row id rows

  -- `session.delete`
  abbrev pub delete_row : ℕ → List R → List R
  delete_row id rows = keep (λ (row : R). not (nat_eq (id_of row) id)) rows

  -- The attributes of one row are set.
  abbrev pub replaced : ℕ → (R → R) → R → R
  replaced id f row = if nat_eq (id_of row) id then f row else row

module _ {R : Type 0} (name_of : R → String) where
  abbrev pub is_named : String → List R → Bool
  is_named name rows = any (λ (row : R). name_of row == name) rows

  -- The row of a name
  abbrev pub row_named : String → List R → Option R
  row_named name [] = none
  row_named name (row ∷ rows) = if name_of row == name then some row else row_named name rows

module _ {R : Type 0} (id_of : R → ℕ) (name_of : R → String) where
  -- Another row has the name.
  abbrev pub is_taken : ℕ → String → List R → Bool
  is_taken id name rows =
      any (λ (row : R). not (nat_eq (id_of row) id) && (name_of row == name)) rows

module _ {R : Type 0} (updated_of : R → ℕ) where
  -- `order_by(updated_ts.desc())`
  newest_first : R → List R → List R
  newest_first row [] = row ∷ []
  newest_first row (other ∷ rows) =
      if ltb (updated_of row) (updated_of other)
      then other ∷ newest_first row rows
      else row ∷ other ∷ rows

  unfoldable pub newest : List R → List R
  unfolding newest_first
  newest [] = []
  newest (row ∷ rows) = newest_first row (newest rows)
