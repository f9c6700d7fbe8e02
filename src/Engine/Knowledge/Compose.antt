-- ===== src/Engine/Knowledge/Compose.antt =====
-- app/engine/knowledge/compose.py: the reviewed wording of triggered cards, merged into a draft.
pub mod Merged
use avvalo.Prelude.{
  String, Bool, true, false, not, ◌&&◌, List, [], ◌∷◌, ◌++◌, Option, none, some, if◌then◌else◌,
  keep, map, contains, lookup, is_some, is_empty, strip,
}
use avvalo.Stdlib.{Stdlib}
use avvalo.Engine.Types.{DraftOutput, Evidence, Language, language_value}
use avvalo.Engine.Knowledge.Types.{KnowledgeCard, LocalizedCardText}

-- What a list of cards contributes to each block.
pub record Composed : Type 0 where
  pub flags : List Evidence
  pub verify : List String
  pub ask : List String

abbrev nothing : Composed
nothing = record { flags = []; verify = []; ask = [] }

-- `card.localized[language.value]` of a contributing card
add_text : String → Option LocalizedCardText → Composed → Composed
add_text id none rest = rest
add_text id (some text) rest = record {
  flags = map (λ flag. record { text = flag; source_id = id }) text.red_flags ++ rest.flags;
  verify = text.verify_steps ++ rest.verify;
  ask = text.questions ++ rest.ask;
}

pub composed : List KnowledgeCard → Language → Composed
unfolding add_text
composed [] language = nothing
composed (card ∷ cards) language =
    add_text card.id (lookup (language_value language) card.localized) (composed cards language)

pub contributing : List KnowledgeCard → List String → Language → List KnowledgeCard
contributing cards mandatory_card_ids language =
    keep
      (λ (card : KnowledgeCard).
        contains card.id mandatory_card_ids
        && is_some (lookup (language_value language) card.localized))
      cards

module _ (py : Stdlib) where
  -- `_key`
  pub key : String → String
  key text = strip (py.re_sub "[\\s\\W_]+" " " (py.casefold (py.nfkc text)))

  -- `_merge_evidence`
  pub merge_evidence : List Evidence → List Evidence → List Evidence
  merge_evidence composed model_authored =
      let seen = map (λ (item : Evidence). key item.text) composed in
      composed ++ keep (λ (item : Evidence). not (contains (key item.text) seen)) model_authored

  -- `_merge`
  pub merge : List String → List String → List String
  merge composed model_authored =
      let seen = map key composed in
      composed ++ keep (λ item. not (contains (key item) seen)) model_authored

  pub compose_card_text : DraftOutput → List KnowledgeCard → List String → Language → DraftOutput
  unfolding merge_evidence merge
  compose_card_text draft cards mandatory_card_ids language =
      let chosen = contributing cards mandatory_card_ids language in
      let text = composed chosen language in
      if is_empty chosen then draft else record draft {
        red_flags = merge_evidence text.flags draft.red_flags;
        verify = merge text.verify draft.verify;
        ask = merge text.ask draft.ask;
      }
