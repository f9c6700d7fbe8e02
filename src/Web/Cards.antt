-- ===== src/Web/Cards.antt =====
-- The editor of cards in app/web/knowledge_admin.py: `admin_card_save`, `admin_card_delete` and the
-- draft that the editor opens for a shipped card. The session commits an edit before it refreshes.
-- The parser of the form's UUID is a parameter, `none` where it raises `ValueError`.
pub mod Saved
use Prim.Native.String.{◌++◌}
use avvalo.Prelude.{
  ℕ, String, List, [], ◌∷◌, Option, none, some, if◌then◌else◌, is_blank, lookup, map,
}
use avvalo.Raises.{Raises, ok, raised}
use avvalo.Engine.Knowledge.Types.{KnowledgeCard, KnowledgeBase}
use avvalo.KnowledgeStore.Draft.{KnowledgeCardDraft, alias_languages}
use avvalo.KnowledgeStore.Repo.{
  KnowledgeCardOverride, create_card, update_card, get_card, delete_card,
}
use avvalo.KnowledgeStore.Publish.{Surroundings, CardStore, refresh_knowledge_base}
use avvalo.Web.Gate.{Libraries, AdminRequest, normalize_language, Reply, post_gate, passed}

abbrev or_empty : Option (List String) → List String
or_empty none = []
or_empty (some aliases) = aliases

-- `_draft_from_card`
draft_from_card : KnowledgeCard → KnowledgeCardDraft
draft_from_card card = record {
  card_id = card.id;
  card_version = card.version;
  status = card.status;
  reviewer = card.reviewer;
  mechanism = card.mechanism;
  trigger_rule_ids = card.trigger_rule_ids;
  trigger_signal_kinds = card.trigger_signal_kinds;
  retrieval_aliases =
      map (λ language. (language, or_empty (lookup language card.retrieval_aliases)))
        alias_languages;
  red_flags = card.red_flags;
  verify_steps = card.verify_steps;
  questions = card.questions;
  reviewed_case_ids = card.reviewed_case_ids;
}

-- The list of cards
abbrev pub cards_page : String → String
cards_page language = "/admin/cards?language=" ++ normalize_language language

abbrev pub reply_of : Raises KnowledgeBase → String → Reply
reply_of (ok base) language = Reply.sent (cards_page language)
reply_of (raised error) language = Reply.failed error

module _ (s : Surroundings) where
  abbrev refreshed_reply :
      String
      → List KnowledgeCardOverride
      → Raises KnowledgeBase × Option KnowledgeBase
      → Reply × CardStore
  refreshed_reply language rows (result, published) =
      (reply_of result language, record { rows = rows; active = published })

  -- An edit that raises is not committed.
  abbrev pub committed :
      String → Raises (List KnowledgeCardOverride) → CardStore → Reply × CardStore
  committed language (raised error) store = (Reply.failed error, store)
  committed language (ok rows) store =
      refreshed_reply language rows (refresh_knowledge_base s (ok rows) store.active)

  abbrev pub updated_rows :
      Option KnowledgeCardOverride
      → KnowledgeCardDraft
      → ℕ
      → ℕ
      → List KnowledgeCardOverride
      → Raises (List KnowledgeCardOverride)
  updated_rows none draft id now rows = raised "404"
  updated_rows (some existing) draft id now rows = update_card s.py draft id now rows

  abbrev pub updated :
      Option ℕ
      → KnowledgeCardDraft
      → ℕ
      → List KnowledgeCardOverride
      → Raises (List KnowledgeCardOverride)
  updated none draft now rows = raised "ValueError"
  updated (some id) draft now rows = updated_rows (get_card id rows) draft id now rows

  -- The edit of `admin_card_save`: of the row that the form names, or a new one with the id given.
  abbrev pub edited :
      (String → Option ℕ)
      → String
      → KnowledgeCardDraft
      → ℕ
      → ℕ
      → List KnowledgeCardOverride
      → Raises (List KnowledgeCardOverride)
  edited uuid override_id draft fresh now rows =
      if is_blank override_id
      then create_card s.py draft fresh now rows
      else updated (uuid override_id) draft now rows

  abbrev pub remaining :
      Option KnowledgeCardOverride
      → ℕ
      → List KnowledgeCardOverride
      → Raises (List KnowledgeCardOverride)
  remaining none id rows = raised "404"
  remaining (some existing) id rows = ok (delete_card id rows)

  module _ (lib : Libraries) where
    -- `admin_card_save`
    unfoldable pub admin_card_save :
        AdminRequest
        → (String → Option ℕ)
        → String
        → KnowledgeCardDraft
        → ℕ
        → ℕ
        → CardStore
        → Reply × CardStore
    admin_card_save r uuid override_id draft fresh now store =
        passed (post_gate lib r) r.storage
          (committed r.language (edited uuid override_id draft fresh now store.rows) store) store

    -- `admin_card_delete`
    unfoldable pub admin_card_delete : AdminRequest → ℕ → CardStore → Reply × CardStore
    admin_card_delete r id store =
        passed (post_gate lib r) r.storage
          (committed r.language (remaining (get_card id store.rows) id store.rows) store) store
