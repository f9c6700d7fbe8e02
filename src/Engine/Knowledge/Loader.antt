-- ===== src/Engine/Knowledge/Loader.antt =====
-- The loading of the knowledge base in app/engine/knowledge/loader.py, from the values of its YAML
-- files on. What pydantic makes of one card, `KnowledgeCard.model_validate`, is a parameter, which is
-- `none` where it raises.
pub mod Sound
use avvalo.Prelude.{
  String, Bool, true, false, not, ◌&&◌, ◌||◌, List, [], ◌∷◌, ◌++◌, Option, none, some, ◌==◌,
  if◌then◌else◌, all, contains, is_empty, is_blank, strip,
}
use avvalo.Stdlib.{Stdlib}
use avvalo.Raises.{Raises, ok, raised, ◌>>=◌, ◌>>◌, require}
use avvalo.Engine.Rules.Yaml.{Yaml, Yamls, Entries, get, document}
use avvalo.Engine.Knowledge.Types.{KnowledgeCard, KnowledgeBase}

abbrev pub id_re : String
id_re = "^[a-z][a-z0-9_.-]{0,79}$"

abbrev pub kb_version_re : String
kb_version_re = "^[A-Za-z0-9][A-Za-z0-9_.-]{0,79}$"

abbrev lookup_error : String
lookup_error = "KnowledgeLookupError"

-- A path: `none` where it is no file, and else what reading and parsing it gives.
abbrev pub File : Type 0
File = Option (Raises Yaml)

-- The files under the root: `version.yaml`, and the sorted files of `cards`, where it is a directory.
pub record Files : Type 0 where
  pub version : File
  pub cards : Option (List File)

abbrev as_entries : Yaml → Raises Entries
as_entries (Yaml.mapping entries) = ok entries
as_entries _ = raised lookup_error

-- `_read_yaml`
unfoldable pub read_yaml : File → Raises Entries
read_yaml none = raised lookup_error
read_yaml (some content) = do value ← content; as_entries (document value)

abbrev pub as_version : Stdlib → Yaml → Raises String
as_version py (Yaml.text version) =
    if py.re_fullmatch kb_version_re version then ok version else raised lookup_error
as_version py _ = raised lookup_error

abbrev pub as_cards : Yaml → Raises Yamls
as_cards (Yaml.sequence items) = ok items
as_cards _ = raised lookup_error

abbrev pub validated : Option KnowledgeCard → Raises KnowledgeCard
validated none = raised lookup_error
validated (some card) = ok card

-- The approved cards so far, with `seen_ids`.
pub record LoadedCards : Type 0 where
  pub seen : List String
  pub cards : List KnowledgeCard

module _ (py : Stdlib) where
  -- `_validate_card`: the ids seen with the card's own
  unfoldable pub validate_card : KnowledgeCard → List String → Raises (List String)
  validate_card card seen = do
    require (py.re_fullmatch id_re card.id) lookup_error
    require (not (contains card.id seen)) lookup_error
    require (py.re_fullmatch kb_version_re card.version) lookup_error
    require (not (is_blank (strip card.reviewer))) lookup_error
    require
        (not (is_blank (strip card.mechanism))
          && not (is_empty card.verify_steps)
          && not (is_empty card.questions))
        lookup_error
    require (all (py.re_fullmatch id_re) (card.trigger_rule_ids ++ card.reviewed_case_ids))
        lookup_error
    ok (card.id ∷ seen)

  -- The body of the inner loop
  unfoldable pub add_card : KnowledgeCard → LoadedCards → Raises LoadedCards
  unfolding validate_card
  add_card card loaded = do
    seen ← validate_card card loaded.seen
    ok (record {
      seen = seen;
      cards = if card.status == "approved" then loaded.cards ++ (card ∷ []) else loaded.cards;
    })

  module _ (model_validate : Yaml → Option KnowledgeCard) where
    unfoldable pub load_cards : Yamls → LoadedCards → Raises LoadedCards
    unfolding add_card
    load_cards Yamls.nil loaded = ok loaded
    load_cards (Yamls.cons raw_card rest) loaded = do
      card ← validated (model_validate raw_card)
      next ← add_card card loaded
      load_cards rest next

    -- The loop over the paths
    unfoldable pub load_paths : List File → LoadedCards → Raises LoadedCards
    unfolding load_cards read_yaml
    load_paths [] loaded = ok loaded
    load_paths (path ∷ paths) loaded = do
      entries ← read_yaml path
      raw_cards ← as_cards (get "cards" entries)
      next ← load_cards raw_cards loaded
      load_paths paths next

    unfoldable pub load_directory : String → Option (List File) → Raises KnowledgeBase
    unfolding load_paths
    load_directory version none = raised lookup_error
    load_directory version (some paths) = do
      loaded ← load_paths paths (record { seen = []; cards = [] })
      ok (record { version = version; cards = loaded.cards })

    -- The body of the `try` of `_load_knowledge_base`
    unfoldable pub load_files : Files → Raises KnowledgeBase
    unfolding load_directory read_yaml
    load_files files = do
      version_data ← read_yaml files.version
      version ← as_version py (get "version" version_data)
      load_directory version files.cards

    abbrev pub or_lookup_error : Raises KnowledgeBase → Raises KnowledgeBase
    or_lookup_error (ok base) = ok base
    or_lookup_error (raised error) =
        raised (if contains error ("OSError" ∷ "YAMLError" ∷ []) then lookup_error else error)

    -- `load_yaml_knowledge_base`
    unfoldable pub load_yaml_knowledge_base : Files → Raises KnowledgeBase
    unfolding load_files
    load_yaml_knowledge_base files = or_lookup_error (load_files files)

    -- `FileKnowledgeStore().load`, with the base in force
    unfoldable pub load : Files → Option KnowledgeBase → Raises KnowledgeBase
    load files none = load_yaml_knowledge_base files
    load files (some base) = ok base
