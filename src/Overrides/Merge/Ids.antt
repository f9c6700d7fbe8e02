-- ===== src/Overrides/Merge/Ids.antt =====
-- The ids of the overlay.
use avvalo.Prelude.{
  String, Bool, false, not, ◌||◌, List, [], ◌∷◌, ◌==◌, ◌≡◌, refl, arith, eq_iff, contains, keep,
  map, Distinct, All,
}
use avvalo.Overrides.Merge.{or_entry, find, put_entry, by_id, without, overlay, merged_entries}

module _ {A : Type 0} (id_of : A → String) where
  contains-put_entry :
      (k : String) (entry : A) (entries : List A)
      → contains k (map id_of (put_entry id_of entry entries))
        ≡ ((id_of entry == k) || contains k (map id_of entries))
  unfolding put_entry
  contains-put_entry k entry [] = ground arith
  contains-put_entry k entry (r ∷ entries) = ground (
    arith,
    eq_iff (id_of r) (id_of entry),
    eq_iff (id_of r) k,
    eq_iff (id_of entry) k,
    contains-put_entry k entry entries,
  )

  put_entry-Distinct :
      (entry : A) (entries : List A)
      → Distinct (map id_of entries)
      → Distinct (map id_of (put_entry id_of entry entries))
  unfolding put_entry
  put_entry-Distinct entry [] d = (refl, tt)
  put_entry-Distinct entry (r ∷ entries) d = ground (
    arith,
    d.0,
    eq_iff (id_of r) (id_of entry),
    eq_iff (id_of entry) (id_of r),
    contains-put_entry (id_of r) entry entries,
    put_entry-Distinct entry entries d.1,
  )

  by_id-Distinct :
      (entries overrides : List A)
      → Distinct (map id_of entries)
      → Distinct (map id_of (by_id id_of entries overrides))
  unfolding by_id
  by_id-Distinct entries [] d = d
  by_id-Distinct entries (entry ∷ overrides) d =
      by_id-Distinct (put_entry id_of entry entries) overrides (put_entry-Distinct entry entries d)

  contains-kept :
      (k : String) (test : A → Bool) (entries : List A)
      → contains k (map id_of entries) ≡ false
      → contains k (map id_of (keep test entries)) ≡ false
  contains-kept k test [] h = refl
  contains-kept k test (r ∷ entries) h = ground (arith, contains-kept k test entries)

  keep-Distinct :
      (test : A → Bool) (entries : List A)
      → Distinct (map id_of entries)
      → Distinct (map id_of (keep test entries))
  keep-Distinct test [] d = tt
  keep-Distinct test (r ∷ entries) d =
      ground (arith, d.0, contains-kept (id_of r) test entries, keep-Distinct test entries d.1)

  without_id :
      (id : String) (entries : List A) → contains id (map id_of (without id_of id entries)) ≡ false
  without_id id [] = refl
  without_id id (r ∷ entries) = ground (arith, without_id id entries)

  pub or_entry_id :
      (entry : A) (entries : List A)
      → id_of (or_entry (find id_of (id_of entry) entries) entry) ≡ id_of entry
  or_entry_id entry [] = refl
  or_entry_id entry (r ∷ entries) =
      ground (arith, eq_iff (id_of r) (id_of entry), or_entry_id entry entries)

  contains-overlay :
      (k : String) (base left : List A) (suppressed : List String)
      → contains k (map id_of base) ≡ false
      → contains k (map id_of left) ≡ false
      → contains k (map id_of (overlay id_of base left suppressed)) ≡ false
  unfolding overlay
  contains-overlay k [] left suppressed h e = contains-kept k _ left e
  contains-overlay k (entry ∷ base) left suppressed h e = ground (
    arith,
    or_entry_id entry left,
    contains-kept k (λ (r : A). not (id_of r == (id_of entry))) left,
    contains-overlay k base left suppressed,
    contains-overlay k base (without id_of (id_of entry) left) suppressed,
  )

  overlay-Distinct :
      (base left : List A) (suppressed : List String)
      → Distinct (map id_of base)
      → Distinct (map id_of left)
      → Distinct (map id_of (overlay id_of base left suppressed))
  unfolding overlay
  overlay-Distinct [] left suppressed d e = keep-Distinct _ left e
  overlay-Distinct (entry ∷ base) left suppressed d e = ground (
    arith,
    d.0,
    or_entry_id entry left,
    without_id (id_of entry) left,
    contains-overlay (id_of entry) base (without id_of (id_of entry) left) suppressed,
    overlay-Distinct base left suppressed d.1 e,
    overlay-Distinct base (without id_of (id_of entry) left) suppressed d.1
        (keep-Distinct _ left e),
  )

  pub merged_entries-Distinct :
      (base overrides : List A) (suppressed : List String)
      → Distinct (map id_of base)
      → Distinct (map id_of (merged_entries id_of base overrides suppressed))
  unfolding merged_entries
  merged_entries-Distinct base overrides suppressed d =
      overlay-Distinct base (by_id id_of [] overrides) suppressed d (by_id-Distinct [] overrides tt)

module _ {A : Type 0} (id_of : A → String) (P : A → Type 0) where
  put_entry-All :
      (entry : A) (entries : List A)
      → P entry
      → All P entries
      → All P (put_entry id_of entry entries)
  unfolding put_entry
  put_entry-All entry [] p all = (p, tt)
  put_entry-All entry (r ∷ entries) p all = ground (arith, put_entry-All entry entries p)

  by_id-All :
      (entries overrides : List A)
      → All P entries
      → All P overrides
      → All P (by_id id_of entries overrides)
  unfolding by_id
  by_id-All entries [] all each = all
  by_id-All entries (entry ∷ overrides) all each =
      by_id-All (put_entry id_of entry entries) overrides (put_entry-All entry entries each.0 all)
        each.1

  kept-All : (test : A → Bool) (entries : List A) → All P entries → All P (keep test entries)
  kept-All test [] all = tt
  kept-All test (r ∷ entries) all = ground (arith, kept-All test entries)

  or_entry-All :
      (k : String) (entry : A) (entries : List A)
      → P entry
      → All P entries
      → P (or_entry (find id_of k entries) entry)
  or_entry-All k entry [] p all = p
  or_entry-All k entry (r ∷ entries) p all = ground (arith, or_entry-All k entry entries p)

  overlay-All :
      (base left : List A) (suppressed : List String)
      → All P base
      → All P left
      → All P (overlay id_of base left suppressed)
  unfolding overlay
  overlay-All [] left suppressed b l = kept-All _ left l
  overlay-All (entry ∷ base) left suppressed b l = ground (
    arith,
    or_entry-All (id_of entry) entry left b.0 l,
    overlay-All base left suppressed b.1 l,
    overlay-All base (without id_of (id_of entry) left) suppressed b.1 (kept-All _ left l),
  )

  -- What holds of the shipped entries and of the overrides holds of the merged ones.
  pub merged_entries-All :
      (base overrides : List A) (suppressed : List String)
      → All P base
      → All P overrides
      → All P (merged_entries id_of base overrides suppressed)
  unfolding merged_entries
  merged_entries-All base overrides suppressed b o =
      overlay-All base (by_id id_of [] overrides) suppressed b (by_id-All [] overrides tt o)
