-- ===== src/KnowledgeStore/Repo/Table.antt =====
-- The rows that the operations of app/knowledge_store/repo.py leave: one for an id, one for a card id,
-- and each with values that validate to themselves.
use avvalo.Prelude.{
  ℕ, false, not, List, [], ◌∷◌, ◌≡◌, refl, arith, All, All-append, map, keep, Bool,
}
use avvalo.Stdlib.{Stdlib}
use avvalo.Raises.{ok}
use avvalo.Raises.Ensures.{Ensures, Ensures-bind, Ensures-require}
use avvalo.Overrides.Table.{is_used, is_taken, replaced}
use avvalo.Overrides.Table.Unique.{
  IsTable, append-IsTable, is_taken-fresh, replaced-IsTable, keep-IsTable,
}
use avvalo.KnowledgeStore.Draft.{KnowledgeCardDraft, normalized}
use avvalo.KnowledgeStore.Draft.Stored.{KeepsIds, normalized-IsStored}
use avvalo.KnowledgeStore.Repo.{
  KnowledgeCardOverride, row_of, row_id, row_name, create_card, update_card, delete_card,
}

module _ (py : Stdlib) where
  abbrev AreStored : KnowledgeCardDraft → Type 0
  AreStored values = normalized py values ≡ ok values

  abbrev pub IsStored : KnowledgeCardOverride → Type 0
  IsStored row = AreStored row.values

  -- The rows of the table
  pub record IsCardTable (rows : List KnowledgeCardOverride) : Type 0 where
    pub table : IsTable row_id row_name rows
    pub stored : All IsStored rows

  replaced-All :
      (id now : ℕ) (values : KnowledgeCardDraft) (rows : List KnowledgeCardOverride)
      → AreStored values
      → All IsStored rows
      → All IsStored (
          map
            (replaced row_id id
              (λ (row : KnowledgeCardOverride). row_of values row.id row.created_ts now))
            rows)
  replaced-All id now values [] f all = tt
  replaced-All id now values (row ∷ rows) f all =
      ground (arith, replaced-All id now values rows f all.1)

  keep-All :
      (test : KnowledgeCardOverride → Bool) (rows : List KnowledgeCardOverride)
      → All IsStored rows
      → All IsStored (keep test rows)
  keep-All test [] all = tt
  keep-All test (row ∷ rows) all = ground (arith, keep-All test rows all.1)

  pub create_card-IsCardTable :
      (draft : KnowledgeCardDraft) (id now : ℕ) (rows : List KnowledgeCardOverride)
      → KeepsIds py
      → is_used row_id id rows ≡ false
      → IsCardTable rows
      → Ensures IsCardTable (create_card py draft id now rows)
  unfolding create_card
  create_card-IsCardTable draft id now rows keeps u t =
      Ensures-bind (normalized-IsStored py draft keeps) λ values f.
        Ensures-require (not (is_taken row_id row_name id values.card_id rows)) _ _ λ h.
          Ensures.returns (record {
            table =
                append-IsTable row_id row_name rows (row_of values id now now) t.table u
                  (ground (arith, is_taken-fresh row_id row_name id values.card_id rows u));
            stored = All-append IsStored rows (row_of values id now now ∷ []) t.stored (f, tt);
          })

  pub update_card-IsCardTable :
      (draft : KnowledgeCardDraft) (id now : ℕ) (rows : List KnowledgeCardOverride)
      → KeepsIds py
      → IsCardTable rows
      → Ensures IsCardTable (update_card py draft id now rows)
  unfolding update_card
  update_card-IsCardTable draft id now rows keeps t =
      Ensures-bind (normalized-IsStored py draft keeps) λ values f.
        Ensures-require (not (is_taken row_id row_name id values.card_id rows)) _ _ λ h.
          Ensures.returns (record {
            table =
                replaced-IsTable row_id row_name
                  (λ (row : KnowledgeCardOverride). row_of values row.id row.created_ts now)
                  values.card_id (λ row. refl) (λ row. refl) id rows t.table (ground arith);
            stored = replaced-All id now values rows f t.stored;
          })

  pub delete_card-IsCardTable :
      (id : ℕ) (rows : List KnowledgeCardOverride)
      → IsCardTable rows
      → IsCardTable (delete_card id rows)
  delete_card-IsCardTable id rows t = record {
    table = keep-IsTable row_id row_name _ rows t.table;
    stored = keep-All _ rows t.stored;
  }
