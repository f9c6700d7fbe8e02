-- ===== src/KnowledgeStore/Publish.antt =====
-- The knowledge base in force: `set_active_knowledge_base` and `clear_active_knowledge_base` of
-- app/engine/knowledge/loader.py, and the refresh of app/knowledge_store/apply.py.
pub mod Reached
pub mod Refined
use avvalo.Prelude.{ℕ, String, false, List, [], Option, none, some, ◌≡◌}
use avvalo.Stdlib.{Stdlib}
use avvalo.Raises.{Raises, ok, raised, ◌>>=◌}
use avvalo.Engine.Rules.Yaml.{Yaml}
use avvalo.Engine.Knowledge.Types.{KnowledgeCard, KnowledgeBase}
use avvalo.Engine.Knowledge.Loader.{Files, load_yaml_knowledge_base}
use avvalo.Overrides.Table.{is_used}
use avvalo.KnowledgeStore.Draft.{KnowledgeCardDraft}
use avvalo.KnowledgeStore.Repo.{
  KnowledgeCardOverride, row_id, create_card, update_card, delete_card, load_overrides,
}
use avvalo.KnowledgeStore.Merge.{merge_knowledge_base}

-- What the refresh takes from outside: Python's library, the text of a time, the contract of a card
-- and the shipped files.
pub record Surroundings : Type 0 where
  pub py : Stdlib
  pub strftime : ℕ → String
  pub model_validate : Yaml → Option KnowledgeCard
  pub files : Files

abbrev set_active_knowledge_base : KnowledgeBase → Option KnowledgeBase
set_active_knowledge_base base = some base

abbrev clear_active_knowledge_base : Option KnowledgeBase
clear_active_knowledge_base = none

abbrev pub publish :
    Raises KnowledgeBase → Option KnowledgeBase → Raises KnowledgeBase × Option KnowledgeBase
publish (ok base) active = (ok base, set_active_knowledge_base base)
publish (raised error) active = (raised error, active)

module _ (s : Surroundings) where
  -- `load_yaml_knowledge_base`
  abbrev pub shipped : Raises KnowledgeBase
  shipped = load_yaml_knowledge_base s.py s.model_validate s.files

  -- What `refresh_knowledge_base` publishes; the session gives the rows, or an error.
  unfoldable pub merged : Raises (List KnowledgeCardOverride) → Raises KnowledgeBase
  merged session = do
    base ← shipped
    rows ← session
    ok (merge_knowledge_base s.strftime base (load_overrides s.py rows))

  -- The returned base or the exception, and the base in force afterwards.
  pub refresh_knowledge_base :
      Raises (List KnowledgeCardOverride)
      → Option KnowledgeBase
      → Raises KnowledgeBase × Option KnowledgeBase
  unfolding merged
  refresh_knowledge_base session active = publish (merged session) active

  pub run_knowledge_refresh_job :
      Raises (List KnowledgeCardOverride) → Option KnowledgeBase → Option KnowledgeBase
  unfolding refresh_knowledge_base
  run_knowledge_refresh_job session active = (refresh_knowledge_base session active).1

-- The stored rows and the base in force.
pub record CardStore : Type 0 where
  pub rows : List KnowledgeCardOverride
  pub active : Option KnowledgeBase

-- What an operator and the scheduler do; the database gives a new row an id of its own.
pub data Step (s : Surroundings) : CardStore → CardStore → Type 0 where
  created :
      {store : CardStore} {rows : List KnowledgeCardOverride} (draft : KnowledgeCardDraft)
      (id now : ℕ)
      → is_used row_id id store.rows ≡ false
      → create_card s.py draft id now store.rows ≡ ok rows
      → Step s store (record store { rows = rows })
  updated :
      {store : CardStore} {rows : List KnowledgeCardOverride} (draft : KnowledgeCardDraft)
      (id now : ℕ)
      → update_card s.py draft id now store.rows ≡ ok rows
      → Step s store (record store { rows = rows })
  deleted :
      {store : CardStore} (id : ℕ)
      → Step s store (record store { rows = delete_card id store.rows })
  refreshed :
      {store : CardStore}
      → Step s store
          (record store { active = run_knowledge_refresh_job s (ok store.rows) store.active })
  unreachable :
      {store : CardStore} (error : String)
      → Step s store
          (record store { active = run_knowledge_refresh_job s (raised error) store.active })
  cleared :
      {store : CardStore} → Step s store (record store { active = clear_active_knowledge_base })

pub data Reachable (s : Surroundings) : CardStore → Type 0 where
  started : Reachable s (record { rows = []; active = none })
  stepped : {store next : CardStore} → Reachable s store → Step s store next → Reachable s next
