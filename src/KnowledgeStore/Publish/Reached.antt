-- ===== src/KnowledgeStore/Publish/Reached.antt =====
-- What holds of the stored rows and the knowledge base in force after any steps.
use Prim.Native.String.{◌++◌}
use avvalo.Prelude.{
  ℕ, String, true, List, Option, none, some, ◌≡◌, refl, leb, len, All, All-mono, Distinct,
  Bool-cases, inl, inr,
}
use avvalo.Stdlib.{Stdlib}
use avvalo.Raises.{Raises, ok, raised}
use avvalo.Raises.Ensures.{Ensures, Ensures-bind, Ensures-then, Ensures-map, Ensures-ok}
use avvalo.Engine.Knowledge.Types.{KnowledgeBase, id_of_card, card_ids}
use avvalo.Engine.Knowledge.Loader.{kb_version_re, load}
use avvalo.Engine.Knowledge.Loader.Sound.{loaded-IsShipped}
use avvalo.Overrides.Merge.Ids.{merged_entries-Distinct, merged_entries-All}
use avvalo.KnowledgeStore.Draft.Stored.{KeepsIds}
use avvalo.KnowledgeStore.Repo.{KnowledgeCardOverride, list_cards, load_overrides}
use avvalo.KnowledgeStore.Repo.Table.{
  IsCardTable, create_card-IsCardTable, update_card-IsCardTable, delete_card-IsCardTable,
}
use avvalo.KnowledgeStore.Repo.Loaded.{IsApproved, collect-All}
use avvalo.KnowledgeStore.Merge.{kb_version_max_chars, derive_kb_version, merge_knowledge_base}
use avvalo.KnowledgeStore.Publish.{
  Surroundings, publish, shipped, merged, refresh_knowledge_base, run_knowledge_refresh_job,
  CardStore, Step, Reachable,
}

-- A version that a time is added to keeps its form, as long as it is short enough: digits and dots are
-- among its characters.
unfoldable pub KeepsVersions : Stdlib → (ℕ → String) → Type 0
KeepsVersions py strftime =
    (version : String) (time : ℕ)
    → py.re_fullmatch kb_version_re version ≡ true
    → leb (len (version ++ (".db" ++ strftime time))) kb_version_max_chars ≡ true
    → py.re_fullmatch kb_version_re (version ++ (".db" ++ strftime time)) ≡ true

module _ (s : Surroundings) where
  -- What the base in force is: its version is one that a check event may carry, its card ids are
  -- distinct, and its cards approved.
  pub record IsBase (base : KnowledgeBase) : Type 0 where
    pub version : s.py.re_fullmatch kb_version_re base.version ≡ true
    pub distinct : Distinct (card_ids base.cards)
    pub approved : All (IsApproved s.py) base.cards

  shipped-IsBase : Ensures IsBase (shipped s)
  shipped-IsBase =
      Ensures-map
        (λ base b. record {
          version = b.version;
          distinct = b.distinct;
          approved = All-mono _ _ base.cards (λ card c. c.approved) b.cards;
        })
        (loaded-IsShipped s.py s.model_validate s.files)

  derive_kb_version-matches :
      (version : String) (latest : Option ℕ)
      → KeepsVersions s.py s.strftime
      → s.py.re_fullmatch kb_version_re version ≡ true
      → s.py.re_fullmatch kb_version_re (derive_kb_version s.strftime version latest) ≡ true
  unfolding derive_kb_version KeepsVersions
  derive_kb_version-matches version none keeps h = h
  derive_kb_version-matches version (some latest) keeps h =
      elim (Bool-cases (leb (len (version ++ (".db" ++ s.strftime latest))) kb_version_max_chars)) [
        | inl fits ↦ rw fits (keeps version latest h fits)
        | inr long ↦ rw long h
      ]

  merge_knowledge_base-IsBase :
      (base : KnowledgeBase) (rows : List KnowledgeCardOverride)
      → KeepsVersions s.py s.strftime
      → IsBase base
      → IsBase (merge_knowledge_base s.strftime base (load_overrides s.py rows))
  unfolding merge_knowledge_base load_overrides
  merge_knowledge_base-IsBase base rows keeps b = record {
    version = derive_kb_version-matches base.version _ keeps b.version;
    distinct = merged_entries-Distinct id_of_card base.cards _ _ b.distinct;
    approved =
        merged_entries-All id_of_card (IsApproved s.py) base.cards _ _ b.approved
          (collect-All s.py (list_cards rows));
  }

  merged-IsBase :
      (session : Raises (List KnowledgeCardOverride))
      → KeepsVersions s.py s.strftime
      → Ensures IsBase (merged s session)
  unfolding merged
  merged-IsBase session keeps = Ensures-bind shipped-IsBase λ base b.
      Ensures-then session _ λ rows. Ensures.returns (merge_knowledge_base-IsBase base rows keeps b)

  -- The base in force, where there is one
  abbrev IsServing : Option KnowledgeBase → Type 0
  IsServing none = Unit
  IsServing (some base) = IsBase base

  publish-IsServing :
      (result : Raises KnowledgeBase) (active : Option KnowledgeBase)
      → Ensures IsBase result
      → IsServing active
      → IsServing (publish result active).1
  publish-IsServing (ok base) active e a = Ensures-ok (ok base) base e refl
  publish-IsServing (raised error) active e a = a

  run-IsServing :
      (session : Raises (List KnowledgeCardOverride)) (active : Option KnowledgeBase)
      → KeepsVersions s.py s.strftime
      → IsServing active
      → IsServing (run_knowledge_refresh_job s session active)
  unfolding run_knowledge_refresh_job refresh_knowledge_base
  run-IsServing session active keeps a =
      publish-IsServing (merged s session) active (merged-IsBase session keeps) a

  record IsStore (store : CardStore) : Type 0 where
    pub table : IsCardTable s.py store.rows
    pub serving : IsServing store.active

  Step-IsStore :
      {store next : CardStore}
      → KeepsIds s.py
      → KeepsVersions s.py s.strftime
      → Step s store next
      → IsStore store
      → IsStore next
  Step-IsStore ids versions (Step.created {store} {rows} draft id now u h) i = record {
    table =
        Ensures-ok _ rows (create_card-IsCardTable s.py draft id now store.rows ids u i.table) h;
    serving = i.serving;
  }
  Step-IsStore ids versions (Step.updated {store} {rows} draft id now h) i = record {
    table = Ensures-ok _ rows (update_card-IsCardTable s.py draft id now store.rows ids i.table) h;
    serving = i.serving;
  }
  Step-IsStore ids versions (Step.deleted {store} id) i = record {
    table = delete_card-IsCardTable s.py id store.rows i.table;
    serving = i.serving;
  }
  Step-IsStore ids versions (Step.refreshed {store}) i = record {
    table = i.table;
    serving = run-IsServing (ok store.rows) store.active versions i.serving;
  }
  Step-IsStore ids versions (Step.unreachable {store} error) i = record {
    table = i.table;
    serving = run-IsServing (raised error) store.active versions i.serving;
  }
  Step-IsStore ids versions Step.cleared i = record { table = i.table; serving = tt }

  Reachable-IsStore :
      {store : CardStore}
      → KeepsIds s.py
      → KeepsVersions s.py s.strftime
      → Reachable s store
      → IsStore store
  Reachable-IsStore ids versions Reachable.started = record {
    table = record { table = tt; stored = tt };
    serving = tt;
  }
  Reachable-IsStore ids versions (Reachable.stepped r step) =
      Step-IsStore ids versions step (Reachable-IsStore ids versions r)

  serving-load :
      (active : Option KnowledgeBase) (base : KnowledgeBase)
      → shipped s ≡ ok base
      → IsServing active
      → (found : KnowledgeBase) × (load s.py s.model_validate s.files active ≡ ok found)
        × IsBase found
  unfolding load
  serving-load none base h a = (base, h, Ensures-ok _ base shipped-IsBase h)
  serving-load (some found) base h a = (found, refl, a)

  -- Where the shipped files load, then after any edits and refreshes, whether they succeed or fail, the
  -- table has one row for an id and for a card id, each with values that validate to themselves, and a base is in force, whose version is one that a
  -- check event may carry, whose card ids are distinct, and whose cards are all approved.
  pub load-IsBase :
      (base : KnowledgeBase) (store : CardStore)
      → KeepsIds s.py
      → KeepsVersions s.py s.strftime
      → shipped s ≡ ok base
      → Reachable s store
      → IsCardTable s.py store.rows
        × ((found : KnowledgeBase) × (load s.py s.model_validate s.files store.active ≡ ok found)
            × IsBase found)
  load-IsBase base store ids versions h r =
      let i = Reachable-IsStore ids versions r in
      (i.table, serving-load store.active base h i.serving)
