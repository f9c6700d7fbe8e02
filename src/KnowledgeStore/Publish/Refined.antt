-- ===== src/KnowledgeStore/Publish/Refined.antt =====
-- What a refresh publishes, from the rows of the table.
use avvalo.Prelude.{String, List, ◌≡◌, ap, ◌∙◌}
use avvalo.Raises.{Raises, ok, ◌>>=◌}
use avvalo.Engine.Knowledge.Types.{KnowledgeBase, id_of_card}
use avvalo.Engine.Knowledge.Loader.{load}
use avvalo.Overrides.Merge.{find}
use avvalo.Overrides.Merge.Found.{find-merged_entries}
use avvalo.Overrides.Table.Newest.{newest-IsTable, newest-All, row_named-newest}
use avvalo.Overrides.Collected.{
  in_force, collect, reading, entries-Distinct, IsTable-NamedOnce, entry_in_force-collect,
}
use avvalo.KnowledgeStore.Draft.Stored.{KeepsIds}
use avvalo.KnowledgeStore.Repo.{
  KnowledgeCardOverride, row_id, row_name, row_time, list_cards, reading_of, load_overrides,
}
use avvalo.KnowledgeStore.Repo.Table.{IsStored, IsCardTable}
use avvalo.KnowledgeStore.Repo.Loaded.{
  row_of_card, rows-AreAbout, card_by_row, in_force-card_by_row,
}
use avvalo.KnowledgeStore.Merge.{merge_knowledge_base}
use avvalo.KnowledgeStore.Publish.{
  Surroundings, publish, shipped, merged, refresh_knowledge_base, CardStore, Reachable,
}
use avvalo.KnowledgeStore.Publish.Reached.{KeepsVersions, load-IsBase}

module _ (s : Surroundings) where
  find-merge_knowledge_base :
      (base : KnowledgeBase) (rows : List KnowledgeCardOverride) (id : String)
      → IsCardTable s.py rows
      → find id_of_card id (merge_knowledge_base s.strftime base (load_overrides s.py rows)).cards
        ≡ card_by_row s.py (row_of_card id rows) (find id_of_card id base.cards)
  unfolding merge_knowledge_base load_overrides list_cards
  find-merge_knowledge_base base rows id t =
      let listed = list_cards rows in
      let about = rows-AreAbout s.py listed (newest-All row_time (IsStored s.py) rows t.stored) in
      let table = newest-IsTable row_id row_name row_time rows t.table in
      let once = IsTable-NamedOnce id_of_card row_name (reading_of s.py) row_id listed table in
      find-merged_entries id_of_card id base.cards (collect (reading_of s.py) listed).entries
        (collect (reading_of s.py) listed).suppressed
        (entries-Distinct id_of_card row_name (reading_of s.py) listed about once)
      ∙ entry_in_force-collect id_of_card row_name (reading_of s.py) id base.cards listed about once
      ∙ ap (λ row. in_force (reading (reading_of s.py) row) (find id_of_card id base.cards))
          (row_named-newest row_id row_name row_time id rows t.table)
      ∙ in_force-card_by_row s.py id rows (find id_of_card id base.cards) t.stored

  merged_rows :
      (base : KnowledgeBase) (rows : List KnowledgeCardOverride)
      → shipped s ≡ ok base
      → merged s (ok rows) ≡ ok (merge_knowledge_base s.strftime base (load_overrides s.py rows))
  unfolding merged
  merged_rows base rows h =
      ap
        (λ (r : Raises KnowledgeBase).
          r >>= λ b. ok (merge_knowledge_base s.strftime b (load_overrides s.py rows)))
        h

  -- Where the shipped files load, a refresh after any edits and refreshes returns a base and puts it in
  -- force, and under every id this base holds the card that the row of the id decides: no card where
  -- the row is not approved, the card of its values where it is, and the shipped card where there is
  -- no row.
  pub refresh_knowledge_base_lem :
      (base : KnowledgeBase) (store : CardStore) (id : String)
      → KeepsIds s.py
      → KeepsVersions s.py s.strftime
      → shipped s ≡ ok base
      → Reachable s store
      → let next = refresh_knowledge_base s (ok store.rows) store.active in
        (found : KnowledgeBase) × (next.0 ≡ ok found)
        × (load s.py s.model_validate s.files next.1 ≡ ok found)
        × (find id_of_card id found.cards
            ≡ card_by_row s.py (row_of_card id store.rows) (find id_of_card id base.cards))
  unfolding refresh_knowledge_base load
  refresh_knowledge_base_lem base store id ids versions h r =
      let found = merge_knowledge_base s.strftime base (load_overrides s.py store.rows) in
      let e = merged_rows base store.rows h in
      (
        found,
        ap (λ result. (publish result store.active).0) e,
        ap (λ result. load s.py s.model_validate s.files (publish result store.active).1) e,
        find-merge_knowledge_base base store.rows id (load-IsBase s base store ids versions h r).0,
      )
