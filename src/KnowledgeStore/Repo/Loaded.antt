-- ===== src/KnowledgeStore/Repo/Loaded.antt =====
-- What the rows of `knowledge_card_override` say of a card id.
use avvalo.Prelude.{
  String, List, [], ◌∷◌, Option, none, some, ◌==◌, eq_iff, ◌≡◌, refl, ap, arith, if◌then◌else◌, All,
}
use avvalo.Stdlib.{Stdlib}
use avvalo.Raises.{Raises, ok, raised, ◌>>=◌}
use avvalo.Engine.Knowledge.Types.{KnowledgeCard, id_of_card}
use avvalo.Overrides.Table.{row_named}
use avvalo.Overrides.Collected.{Collected, add_reading, collect, in_force, reading, AreAbout}
use avvalo.KnowledgeStore.Draft.{KnowledgeCardDraft, card_of, as_card}
use avvalo.KnowledgeStore.Repo.{
  KnowledgeCardOverride, row_name, card_from_row, read_card, reading_of,
}
use avvalo.KnowledgeStore.Repo.Table.{IsStored}

-- The row of a card id
abbrev pub row_of_card : String → List KnowledgeCardOverride → Option KnowledgeCardOverride
row_of_card = row_named row_name

module _ (py : Stdlib) where
  -- The card of a row that validates to itself
  card_from_row-IsStored :
      (row : KnowledgeCardOverride)
      → IsStored py row
      → card_from_row py row ≡ ok (card_of py row.values)
  unfolding card_from_row as_card
  card_from_row-IsStored row h =
      ap (λ (r : Raises KnowledgeCardDraft). r >>= λ values. ok (card_of py values)) h

  pub rows-AreAbout :
      (rows : List KnowledgeCardOverride)
      → All (IsStored py) rows
      → AreAbout id_of_card row_name (reading_of py) rows
  unfolding reading_of
  rows-AreAbout [] all = tt
  rows-AreAbout (row ∷ rows) all =
      (rw (card_from_row-IsStored row all.0) (ground arith), rows-AreAbout rows all.1)

  -- The specification: the row of a card id decides, and without one the shipped card stays.
  abbrev pub card_by_row :
      Option KnowledgeCardOverride → Option KnowledgeCard → Option KnowledgeCard
  card_by_row none shipped = shipped
  card_by_row (some row) shipped =
      if row.values.status == "approved" then some (card_of py row.values) else none

  pub in_force-card_by_row :
      (id : String) (rows : List KnowledgeCardOverride) (shipped : Option KnowledgeCard)
      → All (IsStored py) rows
      → in_force (reading (reading_of py) (row_of_card id rows)) shipped
        ≡ card_by_row (row_of_card id rows) shipped
  unfolding reading_of
  in_force-card_by_row id [] shipped all = refl
  in_force-card_by_row id (row ∷ rows) shipped all =
      ground (arith, card_from_row-IsStored row all.0, in_force-card_by_row id rows shipped all.1)

  -- A card that a row gives is approved.
  abbrev pub IsApproved : KnowledgeCard → Type 0
  IsApproved card = card.status ≡ "approved"

  add_reading-All :
      (result : Raises KnowledgeCard) (rest : Collected KnowledgeCard)
      → All IsApproved rest.entries
      → All IsApproved (add_reading (read_card py result) rest).entries
  add_reading-All (ok card) rest all = ground (arith, eq_iff card.status "approved")
  add_reading-All (raised error) rest all = all

  pub collect-All :
      (rows : List KnowledgeCardOverride) → All IsApproved (collect (reading_of py) rows).entries
  unfolding collect reading_of
  collect-All [] = tt
  collect-All (row ∷ rows) =
      add_reading-All (card_from_row py row) (collect (reading_of py) rows) (collect-All rows)
