-- ===== src/KnowledgeStore/Draft.antt =====
-- `KnowledgeCardDraft` of app/knowledge_store/repo.py and its validators. An error is raised with its
-- message; the lists and the dictionary have the types that the model declares.
pub mod Bounds
pub mod Run
pub mod Stored
pub mod Overlong
use avvalo.Prelude.{
  ℕ, String, not, ◌&&◌, List, [], ◌∷◌, map, all, keep, contains, is_blank, strip, len, length, leb,
}
use avvalo.Stdlib.{Stdlib}
use avvalo.Raises.{Raises, ok, ◌>>=◌, ◌>>◌, require}
use avvalo.Engine.Knowledge.Types.{KnowledgeCard}

abbrev pub alias_languages : List String
alias_languages = "uz_latn" ∷ "uz_cyrl" ∷ "ru" ∷ []

abbrev pub statuses : List String
statuses = "approved" ∷ "draft" ∷ "retired" ∷ []

abbrev pub card_id_re : String
card_id_re = "^[a-z][a-z0-9_]*(?:\\.[a-z0-9_]+)+$"

abbrev pub card_version_re : String
card_version_re = "^[A-Za-z0-9][A-Za-z0-9_.-]{0,39}$"

abbrev pub trigger_rule_re : String
trigger_rule_re = "^[a-z][a-z0-9]*(?:\\.[a-z0-9_]+)+$"

abbrev pub signal_kind_re : String
signal_kind_re = "^[a-z][a-z0-9_]*$"

abbrev pub reviewer_max_chars : ℕ
reviewer_max_chars = 120

abbrev pub mechanism_max_chars : ℕ
mechanism_max_chars = 600

abbrev pub entry_max_chars : ℕ
entry_max_chars = 400

abbrev pub max_entries : ℕ
max_entries = 12

abbrev pub alias_max_chars : ℕ
alias_max_chars = 120

abbrev pub max_aliases_per_language : ℕ
max_aliases_per_language = 40

pub record KnowledgeCardDraft : Type 0 where
  pub card_id : String
  pub card_version : String
  pub status : String
  pub reviewer : String
  pub mechanism : String
  pub trigger_rule_ids : List String
  pub trigger_signal_kinds : List String
  pub retrieval_aliases : List (String × List String)
  pub red_flags : List String
  pub verify_steps : List String
  pub questions : List String
  pub reviewed_case_ids : List String

-- The texts of a list, stripped, without the blank ones.
abbrev pub non_blank : List String → List String
non_blank entries = keep (λ entry. not (is_blank entry)) (map strip entries)

-- `_validate_entries`
unfoldable pub validate_entries : List String → String → Raises (List String)
validate_entries values error = do
  require (leb (length values) max_entries) error
  let entries : List String = non_blank values
  require (all (λ entry. leb (len entry) entry_max_chars) entries) error
  ok entries

-- `_validate_aliases`
unfoldable pub validate_aliases : List (String × List String) → Raises (List (String × List String))
validate_aliases [] = ok []
validate_aliases ((language, values) ∷ raw) = do
  require (contains language alias_languages) "invalid_alias_language"
  require (leb (length values) max_aliases_per_language) "invalid_aliases"
  let entries : List String = non_blank values
  require (all (λ entry. leb (len entry) alias_max_chars) entries) "invalid_aliases"
  cleaned ← validate_aliases raw
  ok ((language, entries) ∷ cleaned)

module _ (py : Stdlib) where
  -- `_validate_ids`
  unfoldable pub validate_ids : List String → String → String → Raises (List String)
  validate_ids values pattern error = do
    require (leb (length values) max_entries) error
    let folded : List String = map (λ value. py.casefold (strip value)) values
    let entries : List String = keep (λ entry. not (is_blank entry)) folded
    require (all (py.re_fullmatch pattern) entries) error
    ok entries

  -- `normalized`
  unfoldable pub normalized : KnowledgeCardDraft → Raises KnowledgeCardDraft
  unfolding validate_ids validate_entries validate_aliases
  normalized draft = do
    let card_id : String = py.casefold (strip draft.card_id)
    require (py.re_fullmatch card_id_re card_id) "invalid_card_id"
    let card_version : String = strip draft.card_version
    require (py.re_fullmatch card_version_re card_version) "invalid_card_version"
    require (contains draft.status statuses) "invalid_status"
    let reviewer : String = strip draft.reviewer
    require (not (is_blank reviewer) && leb (len reviewer) reviewer_max_chars) "invalid_reviewer"
    let mechanism : String = strip draft.mechanism
    require (not (is_blank mechanism) && leb (len mechanism) mechanism_max_chars)
        "invalid_mechanism"
    trigger_rule_ids ← validate_ids draft.trigger_rule_ids trigger_rule_re "invalid_trigger_rule"
    trigger_signal_kinds ←
        validate_ids draft.trigger_signal_kinds signal_kind_re "invalid_trigger_signal"
    reviewed_case_ids ← validate_ids draft.reviewed_case_ids card_id_re "invalid_reviewed_case"
    retrieval_aliases ← validate_aliases draft.retrieval_aliases
    red_flags ← validate_entries draft.red_flags "invalid_red_flags"
    verify_steps ← validate_entries draft.verify_steps "invalid_verify_steps"
    questions ← validate_entries draft.questions "invalid_questions"
    ok (record {
      card_id = card_id;
      card_version = card_version;
      status = draft.status;
      reviewer = reviewer;
      mechanism = mechanism;
      trigger_rule_ids = trigger_rule_ids;
      trigger_signal_kinds = trigger_signal_kinds;
      retrieval_aliases = retrieval_aliases;
      red_flags = red_flags;
      verify_steps = verify_steps;
      questions = questions;
      reviewed_case_ids = reviewed_case_ids;
    })

  abbrev pub card_of : KnowledgeCardDraft → KnowledgeCard
  card_of values = record {
    id = values.card_id;
    version = values.card_version;
    status = values.status;
    reviewer = values.reviewer;
    trigger_rule_ids = values.trigger_rule_ids;
    trigger_signal_kinds = values.trigger_signal_kinds;
    retrieval_aliases = values.retrieval_aliases;
    mechanism = values.mechanism;
    red_flags = values.red_flags;
    verify_steps = values.verify_steps;
    questions = values.questions;
    reviewed_case_ids = values.reviewed_case_ids;
    localized = [];
  }

  -- `as_card`
  unfoldable pub as_card : KnowledgeCardDraft → Raises KnowledgeCard
  unfolding normalized
  as_card draft = do values ← normalized draft; ok (card_of values)
