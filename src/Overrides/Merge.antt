-- ===== src/Overrides/Merge.antt =====
-- The overlay by id: `merge_rule_pack` of app/rules_store/apply.py and `merge_knowledge_base` of
-- app/knowledge_store/apply.py have the same loops.
pub mod Ids
pub mod Found
use avvalo.Prelude.{
  String, Bool, not, List, [], ◌∷◌, Option, none, some, ◌==◌, if◌then◌else◌, contains, keep,
}

abbrev pub or_entry : {A : Type 0} → Option A → A → A
or_entry none entry = entry
or_entry (some other) entry = other

module _ {A : Type 0} (id_of : A → String) where
  abbrev pub find : String → List A → Option A
  find id [] = none
  find id (entry ∷ entries) = if id_of entry == id then some entry else find id entries

  -- The dictionary `by_id` stands as the list of its values, since each is kept under its own id.
  unfoldable pub put_entry : A → List A → List A
  put_entry entry [] = entry ∷ []
  put_entry entry (other ∷ entries) =
      if id_of other == id_of entry then entry ∷ entries else other ∷ put_entry entry entries

  unfoldable pub by_id : List A → List A → List A
  unfolding put_entry
  by_id entries [] = entries
  by_id entries (entry ∷ overrides) = by_id (put_entry entry entries) overrides

  -- `by_id` without a key
  abbrev pub without : String → List A → List A
  without id entries = keep (λ (entry : A). not (id_of entry == id)) entries

  -- The loop over the entries of the base, and behind it the overrides that are left.
  unfoldable pub overlay : List A → List A → List String → List A
  overlay [] left suppressed = keep (λ (entry : A). not (contains (id_of entry) suppressed)) left
  overlay (entry ∷ base) left suppressed =
      let skipped = contains (id_of entry) suppressed in
      let rest = overlay base (if skipped then left else without (id_of entry) left) suppressed in
      if skipped then rest else or_entry (find (id_of entry) left) entry ∷ rest

  unfoldable pub merged_entries : List A → List A → List String → List A
  unfolding overlay by_id
  merged_entries base overrides suppressed = overlay base (by_id [] overrides) suppressed
