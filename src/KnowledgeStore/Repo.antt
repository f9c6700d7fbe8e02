-- ===== src/KnowledgeStore/Repo.antt =====
-- The table `knowledge_card_override` and its operations in app/knowledge_store/repo.py. The id and
-- the time of a write are given; the database refuses a second row with one card id.
pub mod Table
pub mod Loaded
use avvalo.Prelude.{
  ℕ, String, not, List, [], ◌∷◌, ◌++◌, Option, none, some, ◌==◌, if◌then◌else◌, map, ltb,
}
use avvalo.Stdlib.{Stdlib}
use avvalo.Raises.{Raises, ok, raised, ◌>>=◌, ◌>>◌, require}
use avvalo.Engine.Knowledge.Types.{KnowledgeCard}
use avvalo.Overrides.Table.{is_taken, replaced, get_row, delete_row, newest}
use avvalo.Overrides.Collected.{Reading, Collected, collect}
use avvalo.KnowledgeStore.Draft.{KnowledgeCardDraft, normalized, as_card}

-- A row holds the values of a draft, as `**values.__dict__` fills it.
pub record KnowledgeCardOverride : Type 0 where
  pub id : ℕ
  pub values : KnowledgeCardDraft
  pub created_ts : ℕ
  pub updated_ts : ℕ

abbrev pub row_of : KnowledgeCardDraft → ℕ → ℕ → ℕ → KnowledgeCardOverride
row_of values id created updated = record {
  id = id;
  values = values;
  created_ts = created;
  updated_ts = updated;
}

abbrev pub row_id : KnowledgeCardOverride → ℕ
row_id row = row.id

abbrev pub row_name : KnowledgeCardOverride → String
row_name row = row.values.card_id

abbrev pub row_time : KnowledgeCardOverride → ℕ
row_time row = row.updated_ts

module _ (py : Stdlib) where
  -- `create_card`
  unfoldable pub create_card :
      KnowledgeCardDraft → ℕ → ℕ → List KnowledgeCardOverride → Raises (List KnowledgeCardOverride)
  create_card draft id now rows = do
    values ← normalized py draft
    require (not (is_taken row_id row_name id values.card_id rows)) "IntegrityError"
    ok (rows ++ row_of values id now now ∷ [])

  -- `update_card`, of the row with the id
  pub update_card :
      KnowledgeCardDraft → ℕ → ℕ → List KnowledgeCardOverride → Raises (List KnowledgeCardOverride)
  update_card draft id now rows = do
    values ← normalized py draft
    require (not (is_taken row_id row_name id values.card_id rows)) "IntegrityError"
    ok (
        map
          (replaced row_id id
            (λ (row : KnowledgeCardOverride). row_of values row.id row.created_ts now))
          rows)

-- `get_card`
abbrev pub get_card : ℕ → List KnowledgeCardOverride → Option KnowledgeCardOverride
get_card = get_row row_id

-- `delete_card`
abbrev pub delete_card : ℕ → List KnowledgeCardOverride → List KnowledgeCardOverride
delete_card = delete_row row_id

-- `list_cards`: the newest change first
unfoldable pub list_cards : List KnowledgeCardOverride → List KnowledgeCardOverride
list_cards rows = newest row_time rows

-- `max(latest, row.updated_ts)`, where there is a `latest`
abbrev later : ℕ → Option ℕ → ℕ
later time none = time
later time (some latest) = if ltb time latest then latest else time

pub record LoadedOverrides : Type 0 where
  pub cards : Collected KnowledgeCard
  pub latest_updated_ts : Option ℕ

module _ (py : Stdlib) where
  -- `_card_from_row`
  pub card_from_row : KnowledgeCardOverride → Raises KnowledgeCard
  unfolding as_card
  card_from_row row = as_card py row.values

  -- A row that does not validate is skipped, and one that is not approved suppresses its card.
  abbrev pub read_card : Raises KnowledgeCard → Reading KnowledgeCard
  read_card (raised error) = Reading.skipped
  read_card (ok card) =
      if card.status == "approved" then Reading.gives card else Reading.suppresses card.id

  unfoldable pub reading_of : KnowledgeCardOverride → Reading KnowledgeCard
  unfolding card_from_row
  reading_of row = read_card (card_from_row row)

  abbrev add_time : Raises KnowledgeCard → ℕ → Option ℕ → Option ℕ
  add_time (raised error) time latest = latest
  add_time (ok card) time latest = some (later time latest)

  -- The newest change of a row that validates
  latest_of : List KnowledgeCardOverride → Option ℕ
  unfolding card_from_row
  latest_of [] = none
  latest_of (row ∷ rows) = add_time (card_from_row row) row.updated_ts (latest_of rows)

  -- `load_overrides`
  unfoldable pub load_overrides : List KnowledgeCardOverride → LoadedOverrides
  unfolding reading_of latest_of list_cards
  load_overrides rows = record {
    cards = collect reading_of (list_cards rows);
    latest_updated_ts = latest_of (list_cards rows);
  }
