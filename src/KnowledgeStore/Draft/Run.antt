-- ===== src/KnowledgeStore/Draft/Run.antt =====
-- A run of `normalized` of app/knowledge_store/repo.py: every test and every part of what it returns.
use avvalo.Prelude.{true, not, ◌&&◌, ◌≡◌, refl, contains, is_blank, strip, len, leb}
use avvalo.Stdlib.{Stdlib}
use avvalo.Raises.{ok}
use avvalo.Raises.Ensures.{Ensures, Ensures-step, Ensures-require}
use avvalo.KnowledgeStore.Draft.{
  KnowledgeCardDraft, statuses, card_id_re, card_version_re, trigger_rule_re, signal_kind_re,
  reviewer_max_chars, mechanism_max_chars, validate_entries, validate_aliases, validate_ids,
  normalized,
}

module _ (py : Stdlib) where
  pub record IsRun (draft values : KnowledgeCardDraft) : Type 0 where
    pub id : values.card_id ≡ py.casefold (strip draft.card_id)
    pub id_test : py.re_fullmatch card_id_re (py.casefold (strip draft.card_id)) ≡ true
    pub version : values.card_version ≡ strip draft.card_version
    pub version_test : py.re_fullmatch card_version_re (strip draft.card_version) ≡ true
    pub status : values.status ≡ draft.status
    pub status_test : contains draft.status statuses ≡ true
    pub reviewer : values.reviewer ≡ strip draft.reviewer
    pub reviewer_test :
        (not (is_blank (strip draft.reviewer))
          && leb (len (strip draft.reviewer)) reviewer_max_chars)
        ≡ true
    pub mechanism : values.mechanism ≡ strip draft.mechanism
    pub mechanism_test :
        (not (is_blank (strip draft.mechanism))
          && leb (len (strip draft.mechanism)) mechanism_max_chars)
        ≡ true
    pub rules :
        validate_ids py draft.trigger_rule_ids trigger_rule_re "invalid_trigger_rule"
        ≡ ok values.trigger_rule_ids
    pub kinds :
        validate_ids py draft.trigger_signal_kinds signal_kind_re "invalid_trigger_signal"
        ≡ ok values.trigger_signal_kinds
    pub cases :
        validate_ids py draft.reviewed_case_ids card_id_re "invalid_reviewed_case"
        ≡ ok values.reviewed_case_ids
    pub aliases : validate_aliases draft.retrieval_aliases ≡ ok values.retrieval_aliases
    pub flags : validate_entries draft.red_flags "invalid_red_flags" ≡ ok values.red_flags
    pub steps : validate_entries draft.verify_steps "invalid_verify_steps" ≡ ok values.verify_steps
    pub questions : validate_entries draft.questions "invalid_questions" ≡ ok values.questions

  pub normalized-IsRun : (draft : KnowledgeCardDraft) → Ensures (IsRun draft) (normalized py draft)
  unfolding normalized
  normalized-IsRun draft =
      Ensures-require (py.re_fullmatch card_id_re (py.casefold (strip draft.card_id))) _ _ λ id.
        Ensures-require (py.re_fullmatch card_version_re (strip draft.card_version)) _ _ λ version.
          Ensures-require (contains draft.status statuses) _ _ λ status.
            Ensures-require
              (not (is_blank (strip draft.reviewer))
                && leb (len (strip draft.reviewer)) reviewer_max_chars)
              _ _
              λ reviewer.
                Ensures-require
                  (not (is_blank (strip draft.mechanism))
                    && leb (len (strip draft.mechanism)) mechanism_max_chars)
                  _ _
                  λ mechanism.
                    Ensures-step (validate_ids py draft.trigger_rule_ids _ _) _ λ r rules.
                      Ensures-step (validate_ids py draft.trigger_signal_kinds _ _) _ λ k kinds.
                        Ensures-step (validate_ids py draft.reviewed_case_ids _ _) _ λ c cases.
                          Ensures-step (validate_aliases draft.retrieval_aliases) _ λ a aliases.
                            Ensures-step (validate_entries draft.red_flags _) _ λ f flags.
                              Ensures-step (validate_entries draft.verify_steps _) _ λ s steps.
                                Ensures-step (validate_entries draft.questions _) _ λ q questions.
                                  Ensures.returns (record {
                                    id = refl;
                                    id_test = id;
                                    version = refl;
                                    version_test = version;
                                    status = refl;
                                    status_test = status;
                                    reviewer = refl;
                                    reviewer_test = reviewer;
                                    mechanism = refl;
                                    mechanism_test = mechanism;
                                    rules = rules;
                                    kinds = kinds;
                                    cases = cases;
                                    aliases = aliases;
                                    flags = flags;
                                    steps = steps;
                                    questions = questions;
                                  })
