-- ===== src/KnowledgeStore/Draft/Stored.antt =====
-- Validating the values that a validation returns: `normalized` of app/knowledge_store/repo.py again.
use avvalo.Prelude.{
  String, Bool, true, not, List, [], ◌∷◌, ◌≡◌, refl, arith, All, All-keep, All-keep_of_All, map,
  all, keep, keep-map_self, contains, is_blank, strip, strip_again, len, length, leb,
}
use avvalo.Stdlib.{Stdlib}
use avvalo.Raises.{ok}
use avvalo.Raises.Ensures.{Ensures, Ensures-bind, Ensures-require, Ensures-map, Ensures-ok}
use avvalo.KnowledgeStore.Draft.{
  KnowledgeCardDraft, alias_languages, card_id_re, trigger_rule_re, signal_kind_re, entry_max_chars,
  max_entries, alias_max_chars, max_aliases_per_language, non_blank, validate_entries,
  validate_aliases, validate_ids, normalized,
}
use avvalo.KnowledgeStore.Draft.Bounds.{kept_length, IsRun-IsCardDraft}
use avvalo.KnowledgeStore.Draft.Run.{IsRun, normalized-IsRun}

All-map-strip : (values : List String) → All (λ s. strip s ≡ s) (map strip values)
All-map-strip [] = tt
All-map-strip (v ∷ values) = (strip_again v, All-map-strip values)

non_blank_again : (values : List String) → non_blank (non_blank values) ≡ non_blank values
non_blank_again values =
    let test : String → Bool = λ entry. not (is_blank entry) in
    keep-map_self strip test (non_blank values)
      (All-keep_of_All (λ s. strip s ≡ s) test (map strip values) (All-map-strip values))
      (All-keep test (map strip values))

validate_entries_again :
    (values : List String) (error : String)
    → Ensures
        (λ entries. validate_entries entries error ≡ ok entries)
        (validate_entries values error)
unfolding validate_entries
validate_entries_again values error = Ensures-require (leb (length values) max_entries) _ _ λ h.
    Ensures-require (all (λ entry. leb (len entry) entry_max_chars) (non_blank values)) _ _ λ g.
      Ensures.returns (rw (kept_length max_entries strip values h, non_blank_again values, g) refl)

validate_aliases_again :
    (raw : List (String × List String))
    → Ensures (λ cleaned. validate_aliases cleaned ≡ ok cleaned) (validate_aliases raw)
unfolding validate_aliases
validate_aliases_again [] = Ensures.returns refl
validate_aliases_again ((language, values) ∷ raw) =
    Ensures-require (contains language alias_languages) _ _ λ k.
      Ensures-require (leb (length values) max_aliases_per_language) _ _ λ h.
        Ensures-require (all (λ entry. leb (len entry) alias_max_chars) (non_blank values)) _ _ λ g.
          Ensures-bind (validate_aliases_again raw) λ cleaned c. Ensures.returns (
            rw
              (k, kept_length max_aliases_per_language strip values h, non_blank_again values, g, c)
              refl)

-- A text that matches the pattern has no character that stripping or folding changes.
unfoldable pub KeepsMatches : Stdlib → String → Type 0
KeepsMatches py pattern =
    (s : String) → py.re_fullmatch pattern s ≡ true → py.casefold (strip s) ≡ s

-- The ids of cards, of rules and of signals are small ASCII letters, digits, underlines and dots.
pub record KeepsIds (py : Stdlib) : Type 0 where
  pub cards : KeepsMatches py card_id_re
  pub rules : KeepsMatches py trigger_rule_re
  pub kinds : KeepsMatches py signal_kind_re

module _ (py : Stdlib) where
  All-matches :
      (pattern : String) (values : List String)
      → KeepsMatches py pattern
      → all (py.re_fullmatch pattern) values ≡ true
      → All (λ s. py.casefold (strip s) ≡ s) values
  unfolding KeepsMatches
  All-matches pattern [] keeps h = tt
  All-matches pattern (v ∷ values) keeps h =
      (keeps v (ground arith), All-matches pattern values keeps (ground arith))

  validate_ids_again :
      (values : List String) (pattern error : String)
      → KeepsMatches py pattern
      → Ensures
          (λ entries. validate_ids py entries pattern error ≡ ok entries)
          (validate_ids py values pattern error)
  unfolding validate_ids
  validate_ids_again values pattern error keeps =
      let fold : String → String = λ value. py.casefold (strip value) in
      let test : String → Bool = λ entry. not (is_blank entry) in
      let entries : List String = keep test (map fold values) in
      Ensures-require (leb (length values) max_entries) _ _ λ h.
        Ensures-require (all (py.re_fullmatch pattern) entries) _ _ λ g. Ensures.returns (
          rw
            (
              kept_length max_entries fold values h,
              keep-map_self fold test entries (All-matches pattern entries keeps g)
                  (All-keep test (map fold values)),
              g,
            )
            refl)

  stripped : (text given : String) → text ≡ strip given → strip text ≡ text
  stripped text given h = rw h (strip_again given)

  ids_again :
      (values entries : List String) (pattern error : String)
      → KeepsMatches py pattern
      → validate_ids py values pattern error ≡ ok entries
      → validate_ids py entries pattern error ≡ ok entries
  ids_again values entries pattern error keeps h =
      Ensures-ok _ entries (validate_ids_again values pattern error keeps) h

  entries_again :
      (values entries : List String) (error : String)
      → validate_entries values error ≡ ok entries
      → validate_entries entries error ≡ ok entries
  entries_again values entries error h =
      Ensures-ok _ entries (validate_entries_again values error) h

  run_again :
      (draft values : KnowledgeCardDraft)
      → KeepsIds py
      → IsRun py draft values
      → normalized py values ≡ ok values
  unfolding normalized KeepsMatches
  run_again draft values keeps r =
      let d = IsRun-IsCardDraft py draft values r in
      rw
        (
          keeps.cards values.card_id d.id,
          d.id,
          stripped values.card_version draft.card_version r.version,
          d.version,
          d.status,
          stripped values.reviewer draft.reviewer r.reviewer,
          d.reviewer,
          stripped values.mechanism draft.mechanism r.mechanism,
          d.mechanism,
          ids_again draft.trigger_rule_ids values.trigger_rule_ids _ _ keeps.rules r.rules,
          ids_again draft.trigger_signal_kinds values.trigger_signal_kinds _ _ keeps.kinds r.kinds,
          ids_again draft.reviewed_case_ids values.reviewed_case_ids _ _ keeps.cards r.cases,
          Ensures-ok _ values.retrieval_aliases (validate_aliases_again draft.retrieval_aliases)
              r.aliases,
          entries_again draft.red_flags values.red_flags _ r.flags,
          entries_again draft.verify_steps values.verify_steps _ r.steps,
          entries_again draft.questions values.questions _ r.questions,
        )
        refl

  pub normalized-IsStored :
      (draft : KnowledgeCardDraft)
      → KeepsIds py
      → Ensures (λ values. normalized py values ≡ ok values) (normalized py draft)
  normalized-IsStored draft keeps =
      Ensures-map (λ values r. run_again draft values keeps r) (normalized-IsRun py draft)
