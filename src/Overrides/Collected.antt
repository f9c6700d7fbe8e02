-- ===== src/Overrides/Collected.antt =====
-- The loop of the `load_overrides` of app/rules_store/repo.py and app/knowledge_store/repo.py, and what
-- it gives for an id, from the row of that name.
use avvalo.Prelude.{
  String, Bool, true, false, ◌&&◌, ◌||◌, List, [], ◌∷◌, Option, none, some, ◌==◌, ◌≡◌, refl, ap,
  ◌∙◌, arith, eq_iff, if◌then◌else◌, contains, map, Distinct, All, ℕ,
}
use avvalo.Overrides.Merge.{find}
use avvalo.Overrides.Merge.Found.{or_found, entry_in_force}
use avvalo.Overrides.Table.{is_named, row_named}
use avvalo.Overrides.Table.Unique.{IsTable}

-- What a row says: nothing, where it does not validate; that the shipped entry of an id is suppressed;
-- or an entry.
pub data Reading (A : Type 0) : Type 0 where
  skipped : Reading A
  suppresses : String → Reading A
  gives : A → Reading A

pub record Collected (A : Type 0) : Type 0 where
  pub entries : List A
  pub suppressed : List String

module _ {A : Type 0} where
  abbrev pub add_reading : Reading A → Collected A → Collected A
  add_reading Reading.skipped rest = rest
  add_reading (Reading.suppresses id) rest = record rest { suppressed = id ∷ rest.suppressed }
  add_reading (Reading.gives entry) rest = record rest { entries = entry ∷ rest.entries }

  abbrev given : Option (Reading A) → Option A
  given (some (Reading.gives entry)) = some entry
  given (some Reading.skipped) = none
  given (some (Reading.suppresses id)) = none
  given none = none

  abbrev is_suppressing : Option (Reading A) → Bool
  is_suppressing (some (Reading.suppresses id)) = true
  is_suppressing (some (Reading.gives entry)) = false
  is_suppressing (some Reading.skipped) = false
  is_suppressing none = false

  -- The specification: what a row makes of the shipped entry of its id.
  abbrev pub in_force : Option (Reading A) → Option A → Option A
  in_force (some (Reading.gives entry)) shipped = some entry
  in_force (some (Reading.suppresses id)) shipped = none
  in_force (some Reading.skipped) shipped = shipped
  in_force none shipped = shipped

module _ {A R : Type 0} (read : R → Reading A) where
  unfoldable pub collect : List R → Collected A
  collect [] = record { entries = []; suppressed = [] }
  collect (row ∷ rows) = add_reading (read row) (collect rows)

  abbrev pub reading : Option R → Option (Reading A)
  reading none = none
  reading (some row) = some (read row)

module _ {A : Type 0} (id_of : A → String) where
  -- A reading is about the name of its row.
  abbrev pub IsAbout : String → Reading A → Type 0
  IsAbout name Reading.skipped = Unit
  IsAbout name (Reading.suppresses id) = id ≡ name
  IsAbout name (Reading.gives entry) = id_of entry ≡ name

  find-add_reading :
      (k name : String) (r : Reading A) (rest : Collected A)
      → IsAbout name r
      → find id_of k (add_reading r rest).entries
        ≡ or_found (if name == k then given (some r) else none) (find id_of k rest.entries)
  find-add_reading k name Reading.skipped rest e = ground arith
  find-add_reading k name (Reading.suppresses id) rest e = ground arith
  find-add_reading k name (Reading.gives entry) rest e = ground (arith, e)

  contains-add_reading :
      (k name : String) (r : Reading A) (rest : Collected A)
      → IsAbout name r
      → contains k (add_reading r rest).suppressed
        ≡ ((name == k) && is_suppressing (some r) || contains k rest.suppressed)
  contains-add_reading k name Reading.skipped rest e = ground arith
  contains-add_reading k name (Reading.suppresses id) rest e = ground (arith, e)
  contains-add_reading k name (Reading.gives entry) rest e = ground arith

  add_reading_absent :
      (k name : String) (r : Reading A) (rest : Collected A)
      → IsAbout name r
      → (name == k) ≡ false
      → contains k (map id_of rest.entries) ≡ false
      → contains k (map id_of (add_reading r rest).entries) ≡ false
  add_reading_absent k name Reading.skipped rest e n h = h
  add_reading_absent k name (Reading.suppresses id) rest e n h = h
  add_reading_absent k name (Reading.gives entry) rest e n h = ground (arith, e)

  add_reading-Distinct :
      (name : String) (r : Reading A) (rest : Collected A)
      → IsAbout name r
      → contains name (map id_of rest.entries) ≡ false
      → Distinct (map id_of rest.entries)
      → Distinct (map id_of (add_reading r rest).entries)
  add_reading-Distinct name Reading.skipped rest e h d = d
  add_reading-Distinct name (Reading.suppresses id) rest e h d = d
  add_reading-Distinct name (Reading.gives entry) rest e h d =
      (ap (λ k. contains k (map id_of rest.entries)) e ∙ h, d)

module _ {A R : Type 0} (id_of : A → String) (name_of : R → String) (read : R → Reading A) where
  abbrev pub AreAbout : List R → Type 0
  AreAbout rows = All (λ (row : R). IsAbout id_of (name_of row) (read row)) rows

  abbrev NamedOnce : List R → Type 0
  NamedOnce [] = Unit
  NamedOnce (row ∷ rows) = (is_named name_of (name_of row) rows ≡ false) × NamedOnce rows

  row_named_absent :
      (k : String) (rows : List R)
      → is_named name_of k rows ≡ false
      → row_named name_of k rows ≡ none
  row_named_absent k [] h = refl
  row_named_absent k (r ∷ rows) h = ground (arith, row_named_absent k rows)

  entries_absent :
      (k : String) (rows : List R)
      → AreAbout rows
      → is_named name_of k rows ≡ false
      → contains k (map id_of (collect read rows).entries) ≡ false
  unfolding collect
  entries_absent k [] a h = refl
  entries_absent k (r ∷ rows) a h = ground (
    arith,
    entries_absent k rows a.1,
    add_reading_absent id_of k (name_of r) (read r) (collect read rows) a.0,
  )

  pub entries-Distinct :
      (rows : List R)
      → AreAbout rows
      → NamedOnce rows
      → Distinct (map id_of (collect read rows).entries)
  unfolding collect
  entries-Distinct [] a t = tt
  entries-Distinct (r ∷ rows) a t =
      add_reading-Distinct id_of (name_of r) (read r) (collect read rows) a.0
        (entries_absent (name_of r) rows a.1 t.0) (entries-Distinct rows a.1 t.1)

  find-entries :
      (k : String) (rows : List R)
      → AreAbout rows
      → NamedOnce rows
      → find id_of k (collect read rows).entries ≡ given (reading read (row_named name_of k rows))
  unfolding collect
  find-entries k [] a t = refl
  find-entries k (r ∷ rows) a t = ground (
    arith,
    t.0,
    eq_iff (name_of r) k,
    row_named_absent k rows,
    find-add_reading id_of k (name_of r) (read r) (collect read rows) a.0,
    find-entries k rows a.1 t.1,
  )

  contains-suppressed :
      (k : String) (rows : List R)
      → AreAbout rows
      → NamedOnce rows
      → contains k (collect read rows).suppressed
        ≡ is_suppressing (reading read (row_named name_of k rows))
  unfolding collect
  contains-suppressed k [] a t = refl
  contains-suppressed k (r ∷ rows) a t = ground (
    arith,
    t.0,
    eq_iff (name_of r) k,
    row_named_absent k rows,
    contains-add_reading id_of k (name_of r) (read r) (collect read rows) a.0,
    contains-suppressed k rows a.1 t.1,
  )

  entry_in_force-in_force :
      (r : Option (Reading A)) (k : String) (base overrides : List A) (suppressed : List String)
      → find id_of k overrides ≡ given r
      → contains k suppressed ≡ is_suppressing r
      → entry_in_force id_of k base overrides suppressed ≡ in_force r (find id_of k base)
  entry_in_force-in_force none k base overrides suppressed f c = ground arith
  entry_in_force-in_force (some Reading.skipped) k base overrides suppressed f c = ground arith
  entry_in_force-in_force (some (Reading.suppresses id)) k base overrides suppressed f c =
      ground arith
  entry_in_force-in_force (some (Reading.gives entry)) k base overrides suppressed f c =
      ground arith

  -- The overrides that the rows give decide by the row of an id.
  pub entry_in_force-collect :
      (k : String) (base : List A) (rows : List R)
      → AreAbout rows
      → NamedOnce rows
      → entry_in_force id_of k base (collect read rows).entries (collect read rows).suppressed
        ≡ in_force (reading read (row_named name_of k rows)) (find id_of k base)
  entry_in_force-collect k base rows a t =
      entry_in_force-in_force (reading read (row_named name_of k rows)) k base
        (collect read rows).entries (collect read rows).suppressed (find-entries k rows a t)
        (contains-suppressed k rows a t)

  pub IsTable-NamedOnce :
      (row_id : R → ℕ) (rows : List R) → IsTable row_id name_of rows → NamedOnce rows
  IsTable-NamedOnce row_id [] t = tt
  IsTable-NamedOnce row_id (r ∷ rows) t = (t.1, IsTable-NamedOnce row_id rows t.2)
