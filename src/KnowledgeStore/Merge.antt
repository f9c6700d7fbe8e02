-- ===== src/KnowledgeStore/Merge.antt =====
-- `derive_kb_version`, `merge_knowledge_base` and `preview_card` of app/knowledge_store/apply.py. The
-- text of a time, `f"{ts.astimezone(UTC):%Y%m%d%H%M%S}"`, is a parameter.
pub mod Preview
use Prim.Native.String.{◌++◌}
use avvalo.Prelude.{
  ℕ, String, Bool, not, List, [], ◌∷◌, Option, none, some, ◌==◌, leb, if◌then◌else◌, contains, keep,
  len, false,
}
use avvalo.Stdlib.{Stdlib}
use avvalo.Raises.{Raises, ok, ◌>>=◌}
use avvalo.Engine.Url.{OfficialDomainCatalog}
use avvalo.Engine.Minimize.{minimize}
use avvalo.Engine.Rules.Pack.{RulePack}
use avvalo.Engine.Rules.Passes.{run_rules}
use avvalo.Engine.Knowledge.Types.{
  KnowledgeCard, KnowledgeBase, Mode, RetrievalResult, id_of_card, card_ids,
}
use avvalo.Engine.Knowledge.Retrieve.{retrieve_knowledge}
use avvalo.Overrides.Merge.{merged_entries}
use avvalo.KnowledgeStore.Draft.{KnowledgeCardDraft, as_card}
use avvalo.KnowledgeStore.Repo.{LoadedOverrides}

abbrev pub kb_version_max_chars : ℕ
kb_version_max_chars = 80

module _ (strftime : ℕ → String) where
  -- `derive_kb_version`
  unfoldable pub derive_kb_version : String → Option ℕ → String
  derive_kb_version base_version none = base_version
  derive_kb_version base_version (some latest) =
      let stamped = base_version ++ (".db" ++ strftime latest) in
      if leb (len stamped) kb_version_max_chars then stamped else base_version

  -- `merge_knowledge_base`
  unfoldable pub merge_knowledge_base : KnowledgeBase → LoadedOverrides → KnowledgeBase
  unfolding derive_kb_version
  merge_knowledge_base base overrides = record {
    version = derive_kb_version base.version overrides.latest_updated_ts;
    cards = merged_entries id_of_card base.cards overrides.cards.entries overrides.cards.suppressed;
  }

pub record CardPreview : Type 0 where
  pub selected : Bool
  pub mode : Mode
  pub status : String
  pub other_card_ids : List String
  pub not_approved : Bool

-- The cards of the base with the draft's card among them, where it is approved.
abbrev pub candidate : KnowledgeCard → List KnowledgeCard → List KnowledgeCard
candidate card cards =
    let without_card = keep (λ (existing : KnowledgeCard). not (existing.id == card.id)) cards in
    if card.status == "approved"
    then mathlib.Core.List.◌++◌ without_card (card ∷ [])
    else without_card

abbrev pub preview_of : KnowledgeCard → RetrievalResult → CardPreview
preview_of card result =
    let selected_ids = card_ids result.cards in
    record {
      selected = contains card.id selected_ids;
      mode = result.mode;
      status = card.status;
      other_card_ids = keep (λ other. not (other == card.id)) selected_ids;
      not_approved = not (card.status == "approved");
    }

module _ (py : Stdlib) (catalog : OfficialDomainCatalog) (pack : RulePack) where
  -- The retrieval of `preview_card`
  unfoldable pub retrieved : KnowledgeBase → String → RetrievalResult
  retrieved base sample =
      let (rule_hits, signals) = run_rules py catalog pack sample in
      retrieve_knowledge py (some base) (minimize py catalog sample false false) rule_hits signals
        none

  -- `preview_card`, with the rule pack in force
  unfoldable pub preview_card : KnowledgeCardDraft → String → KnowledgeBase → Raises CardPreview
  unfolding retrieved
  preview_card draft sample base = do
    card ← as_card py draft
    let tried : KnowledgeBase = record { version = base.version; cards = candidate card base.cards }
    ok (preview_of card (retrieved tried sample))
