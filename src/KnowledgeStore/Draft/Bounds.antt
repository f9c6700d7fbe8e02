-- ===== src/KnowledgeStore/Draft/Bounds.antt =====
-- What a card draft promises once it is normalized.
use avvalo.Prelude.{
  ℕ, String, Bool, true, not, ◌&&◌, List, [], ◌∷◌, ◌≡◌, refl, arith, All, map, all, keep, contains,
  is_blank, strip, len, length, leb, length-keep-le,
}
use avvalo.Stdlib.{Stdlib}
use avvalo.Raises.Ensures.{Ensures, Ensures-bind, Ensures-require, Ensures-map, Ensures-ok}
use avvalo.KnowledgeStore.Draft.{
  KnowledgeCardDraft, alias_languages, statuses, card_id_re, card_version_re, trigger_rule_re,
  signal_kind_re, reviewer_max_chars, mechanism_max_chars, entry_max_chars, max_entries,
  alias_max_chars, max_aliases_per_language, non_blank, validate_entries, validate_aliases,
  validate_ids, normalized,
}
use avvalo.KnowledgeStore.Draft.Run.{IsRun, normalized-IsRun}

-- At most so many entries, of which each passes the test.
abbrev pub AreBounded : ℕ → (String → Bool) → List String → Type 0
AreBounded n test entries = (leb (length entries) n ≡ true) × (all test entries ≡ true)

abbrev pub AreEntries : ℕ → ℕ → List String → Type 0
AreEntries n chars = AreBounded n (λ entry. not (is_blank entry) && leb (len entry) chars)

abbrev pub AreAliases : List (String × List String) → Type 0
AreAliases = All (λ (group : String × List String).
    (contains group.0 alias_languages ≡ true)
    × AreEntries max_aliases_per_language alias_max_chars group.1)

kept_all :
    (test : String → Bool) (values : List String)
    → all test (keep (λ entry. not (is_blank entry)) values) ≡ true
    → all
        (λ entry. not (is_blank entry) && test entry)
        (keep (λ entry. not (is_blank entry)) values)
      ≡ true
kept_all test [] h = refl
kept_all test (v ∷ values) h = ground (arith, kept_all test values)

length-map : (f : String → String) (values : List String) → length (map f values) ≡ length values
length-map f [] = refl
length-map f (v ∷ values) = omega (arith, length-map f values)

pub kept_length :
    (n : ℕ) (f : String → String) (values : List String)
    → leb (length values) n ≡ true
    → leb (length (keep (λ entry. not (is_blank entry)) (map f values))) n ≡ true
kept_length n f values h =
    ground
      (arith, length-map f values, length-keep-le (λ entry. not (is_blank entry)) (map f values))

validate_entries-AreEntries :
    (values : List String) (error : String)
    → Ensures (AreEntries max_entries entry_max_chars) (validate_entries values error)
unfolding validate_entries
validate_entries-AreEntries values error =
    Ensures-require (leb (length values) max_entries) _ _ λ h.
      Ensures-require (all (λ entry. leb (len entry) entry_max_chars) (non_blank values)) _ _ λ g.
        Ensures.returns (
          kept_length max_entries strip values h,
          kept_all (λ entry. leb (len entry) entry_max_chars) (map strip values) g,
        )

validate_aliases-AreAliases :
    (raw : List (String × List String)) → Ensures AreAliases (validate_aliases raw)
unfolding validate_aliases
validate_aliases-AreAliases [] = Ensures.returns tt
validate_aliases-AreAliases ((language, values) ∷ raw) =
    Ensures-require (contains language alias_languages) _ _ λ k.
      Ensures-require (leb (length values) max_aliases_per_language) _ _ λ h.
        Ensures-require (all (λ entry. leb (len entry) alias_max_chars) (non_blank values)) _ _ λ g.
          Ensures-bind (validate_aliases-AreAliases raw) λ cleaned c. Ensures.returns (
            (
              k,
              (
                kept_length max_aliases_per_language strip values h,
                kept_all (λ entry. leb (len entry) alias_max_chars) (map strip values) g,
              ),
            ),
            c,
          )

module _ (py : Stdlib) where
  validate_ids-AreBounded :
      (values : List String) (pattern error : String)
      → Ensures
          (AreBounded max_entries (py.re_fullmatch pattern))
          (validate_ids py values pattern error)
  unfolding validate_ids
  validate_ids-AreBounded values pattern error =
      Ensures-require (leb (length values) max_entries) _ _ λ h.
        Ensures-require
          (all (py.re_fullmatch pattern) (
            keep (λ entry. not (is_blank entry)) (map (λ value. py.casefold (strip value)) values)))
          _ _
          λ g.
            Ensures.returns
              (kept_length max_entries (λ value. py.casefold (strip value)) values h, g)

  -- The values that the editor stores
  pub record IsCardDraft (values : KnowledgeCardDraft) : Type 0 where
    pub id : py.re_fullmatch card_id_re values.card_id ≡ true
    pub version : py.re_fullmatch card_version_re values.card_version ≡ true
    pub status : contains values.status statuses ≡ true
    pub reviewer :
        (not (is_blank values.reviewer) && leb (len values.reviewer) reviewer_max_chars) ≡ true
    pub mechanism :
        (not (is_blank values.mechanism) && leb (len values.mechanism) mechanism_max_chars) ≡ true
    pub rules : AreBounded max_entries (py.re_fullmatch trigger_rule_re) values.trigger_rule_ids
    pub kinds : AreBounded max_entries (py.re_fullmatch signal_kind_re) values.trigger_signal_kinds
    pub cases : AreBounded max_entries (py.re_fullmatch card_id_re) values.reviewed_case_ids
    pub aliases : AreAliases values.retrieval_aliases
    pub flags : AreEntries max_entries entry_max_chars values.red_flags
    pub steps : AreEntries max_entries entry_max_chars values.verify_steps
    pub questions : AreEntries max_entries entry_max_chars values.questions

  pub IsRun-IsCardDraft :
      (draft values : KnowledgeCardDraft) → IsRun py draft values → IsCardDraft values
  IsRun-IsCardDraft draft values r = record {
    id = rw r.id r.id_test;
    version = rw r.version r.version_test;
    status = rw r.status r.status_test;
    reviewer = rw r.reviewer r.reviewer_test;
    mechanism = rw r.mechanism r.mechanism_test;
    rules = Ensures-ok _ _ (validate_ids-AreBounded draft.trigger_rule_ids _ _) r.rules;
    kinds = Ensures-ok _ _ (validate_ids-AreBounded draft.trigger_signal_kinds _ _) r.kinds;
    cases = Ensures-ok _ _ (validate_ids-AreBounded draft.reviewed_case_ids _ _) r.cases;
    aliases = Ensures-ok _ _ (validate_aliases-AreAliases draft.retrieval_aliases) r.aliases;
    flags = Ensures-ok _ _ (validate_entries-AreEntries draft.red_flags _) r.flags;
    steps = Ensures-ok _ _ (validate_entries-AreEntries draft.verify_steps _) r.steps;
    questions = Ensures-ok _ _ (validate_entries-AreEntries draft.questions _) r.questions;
  }

  pub normalized-IsCardDraft :
      (draft : KnowledgeCardDraft) → Ensures IsCardDraft (normalized py draft)
  normalized-IsCardDraft draft = Ensures-map (IsRun-IsCardDraft draft) (normalized-IsRun py draft)
