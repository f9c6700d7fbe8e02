-- ===== src/Overrides/Merge/Found.antt =====
-- Which entry the overlay holds under an id.
use avvalo.Prelude.{
  String, false, not, List, [], ◌∷◌, Option, none, some, ◌==◌, ◌≡◌, refl, arith, eq_iff,
  if◌then◌else◌, contains, keep, map, Distinct,
}
use avvalo.Overrides.Merge.{or_entry, find, put_entry, by_id, without, overlay, merged_entries}
use avvalo.Overrides.Merge.Ids.{or_entry_id}

abbrev pub or_found : {A : Type 0} → Option A → Option A → Option A
or_found none other = other
or_found (some entry) other = some entry

module _ {A : Type 0} (id_of : A → String) where
  -- The specification: a suppressed id has no entry, an overridden id the override, and every other id the
  -- entry of the base.
  abbrev pub entry_in_force : String → List A → List A → List String → Option A
  entry_in_force id base overrides suppressed =
      if contains id suppressed
      then none
      else or_found (find id_of id overrides) (find id_of id base)

  find-put_entry :
      (id : String) (entry : A) (entries : List A)
      → find id_of id (put_entry id_of entry entries)
        ≡ (if id_of entry == id then some entry else find id_of id entries)
  unfolding put_entry
  find-put_entry id entry [] = refl
  find-put_entry id entry (r ∷ entries) = ground (
    arith,
    eq_iff (id_of r) (id_of entry),
    eq_iff (id_of r) id,
    eq_iff (id_of entry) id,
    find-put_entry id entry entries,
  )

  find_absent :
      (id : String) (entries : List A)
      → contains id (map id_of entries) ≡ false
      → find id_of id entries ≡ none
  find_absent id [] h = refl
  find_absent id (r ∷ entries) h = ground (arith, find_absent id entries)

  find-by_id :
      (id : String) (entries overrides : List A)
      → Distinct (map id_of overrides)
      → find id_of id (by_id id_of entries overrides)
        ≡ or_found (find id_of id overrides) (find id_of id entries)
  unfolding by_id
  find-by_id id entries [] d = refl
  find-by_id id entries (entry ∷ overrides) d = ground (
    arith,
    d.0,
    eq_iff (id_of entry) id,
    find_absent id overrides,
    find-put_entry id entry entries,
    find-by_id id (put_entry id_of entry entries) overrides d.1,
  )

  find-without :
      (id other : String) (entries : List A)
      → find id_of id (without id_of other entries)
        ≡ (if other == id then none else find id_of id entries)
  find-without id other [] = ground arith
  find-without id other (r ∷ entries) = ground (
    arith,
    eq_iff (id_of r) other,
    eq_iff (id_of r) id,
    eq_iff other id,
    find-without id other entries,
  )

  find-enabled :
      (id : String) (suppressed : List String) (entries : List A)
      → find id_of id (keep (λ (entry : A). not (contains (id_of entry) suppressed)) entries)
        ≡ (if contains id suppressed then none else find id_of id entries)
  find-enabled id suppressed [] = ground arith
  find-enabled id suppressed (r ∷ entries) =
      ground (arith, eq_iff (id_of r) id, find-enabled id suppressed entries)

  find-overlay :
      (id : String) (base left : List A) (suppressed : List String)
      → find id_of id (overlay id_of base left suppressed) ≡ entry_in_force id base left suppressed
  unfolding overlay
  find-overlay id [] left suppressed = ground (arith, find-enabled id suppressed left)
  find-overlay id (entry ∷ base) left suppressed = ground (
    arith,
    eq_iff (id_of entry) id,
    eq_iff id (id_of entry),
    eq_iff (id_of (or_entry (find id_of (id_of entry) left) entry)) id,
    or_entry_id id_of entry left,
    find-without id (id_of entry) left,
    find-overlay id base left suppressed,
    find-overlay id base (without id_of (id_of entry) left) suppressed,
  )

  pub find-merged_entries :
      (id : String) (base overrides : List A) (suppressed : List String)
      → Distinct (map id_of overrides)
      → find id_of id (merged_entries id_of base overrides suppressed)
        ≡ entry_in_force id base overrides suppressed
  unfolding merged_entries
  find-merged_entries id base overrides suppressed d = ground (
    arith,
    find-overlay id base (by_id id_of [] overrides) suppressed,
    find-by_id id [] overrides d,
  )
