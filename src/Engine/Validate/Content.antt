-- ===== src/Engine/Validate/Content.antt =====
-- The scan of the visible text in `_first_rejection_reason` of app/engine/validate.py, in the order
-- in which the source makes the tests.
use Prim.Native.String.{◌++◌}
use avvalo.Prelude.{
  code, String, Bool, false, not, ◌&&◌, ◌||◌, List, Option, none, some, leb, if◌then◌else◌, any,
  from_keys, has_sub, keep_chars, any_char, ◌≡◌, arith,
}
use avvalo.Stdlib.{Stdlib}
use avvalo.Engine.Types.{Language}
use avvalo.Engine.Validate.Reason.{ValidationReason}
use avvalo.Engine.Validate.Tables.Words.{banned_ru, banned_uz_latn, uz_cyrl_banned, en_banned}
use avvalo.Engine.Validate.Tables.Secrets.{
  phone_re, email_re, url_or_domain_re, card_re, passport_re, otp_labeled_re, password_value_re,
  direct_verdict_patterns, risk_score_patterns,
}
use avvalo.Engine.Validate.Tables.Claims.{
  unsafe_patterns, unsupported_lookup_patterns, payment_confirmed_patterns, payment_disclaimer_re,
  sentence_split_re, case_proof_patterns, internal_knowledge_id_re, blocklist_claim_re,
}

abbrev append : List String → List String → List String
append = mathlib.Core.List.◌++◌

-- `_all_banned_words`
unfoldable pub all_banned_words : List String
all_banned_words = from_keys (append banned_ru (append banned_uz_latn uz_cyrl_banned))

-- `_uses_wrong_script`
unfoldable pub uses_wrong_script : String → Language → Bool
uses_wrong_script text Language.uz_latn =
    any_char (λ c. leb 0x0400 (code c) && leb (code c) 0x052f) text
uses_wrong_script text Language.ru = false

module _ (py : Stdlib) where
  -- `_normalize_for_matching`
  unfoldable pub normalize_for_matching : String → String
  normalize_for_matching text =
      py.re_sub "[*~`]+" "" (keep_chars (λ c. not (py.is_format_control c)) (py.nfkc text))

  -- One of the banned words stands in the text as a word of its own.
  unfoldable pub has_banned_word : String → Bool
  unfolding all_banned_words
  has_banned_word lower =
      any
        (λ word.
          py.re_search ("(?<![\\w-])" ++ (py.re_escape (py.casefold word) ++ "(?![\\w-])")) lower)
        (append all_banned_words en_banned)

  -- Some pattern of a list is found in the text.
  unfoldable pub matches_any : List String → String → Bool
  matches_any patterns text = any (λ pattern. py.re_search pattern text) patterns

  -- `_claims_payment_confirmed`
  unfoldable pub claims_payment_confirmed : String → Bool
  claims_payment_confirmed text =
      any
        (λ sentence.
          matches_any payment_confirmed_patterns sentence
          && not (py.re_search payment_disclaimer_re sentence))
        (py.re_split sentence_split_re text)

  -- The tests of the text, up to the script; `lower` is the case-folded text.
  unfoldable pub content_reason : String → String → Language → List String → Option ValidationReason
  unfolding uses_wrong_script
  content_reason scan_text lower language knowledge_card_ids =
      if has_banned_word lower
      then some ValidationReason.banned_verdict_word
      else if matches_any direct_verdict_patterns scan_text
      then some ValidationReason.banned_direct_verdict
      else if matches_any risk_score_patterns scan_text
      then some ValidationReason.risk_score
      else if py.re_search email_re scan_text || py.re_search url_or_domain_re scan_text
      then some ValidationReason.raw_contact_or_url
      else if py.re_search phone_re scan_text
      then some ValidationReason.raw_phone
      else if py.re_search card_re scan_text
      then some ValidationReason.raw_card
      else if py.re_search passport_re scan_text
      then some ValidationReason.passport
      else if py.re_search otp_labeled_re scan_text || py.re_search password_value_re scan_text
      then some ValidationReason.secret
      else if matches_any unsafe_patterns scan_text
      then some ValidationReason.unsafe_contact_path
      else if py.re_search internal_knowledge_id_re scan_text
          || any (λ id. has_sub (py.casefold id) lower) knowledge_card_ids
      then some ValidationReason.internal_knowledge_id
      else if claims_payment_confirmed scan_text
      then some ValidationReason.payment_confirmed_claim
      else if matches_any case_proof_patterns scan_text
      then some ValidationReason.reviewed_case_as_proof
      else if matches_any unsupported_lookup_patterns scan_text
      then some ValidationReason.unsupported_external_lookup
      else if py.re_search blocklist_claim_re scan_text
      then some ValidationReason.unsupported_blocklist_claim
      else if uses_wrong_script scan_text language
      then some ValidationReason.wrong_language_script
      else none

  -- What the scan of a text rules out.
  pub record IsClean (text : String) (language : Language) (card_ids : List String) : Type 0 where
    pub words : has_banned_word (py.casefold text) ≡ false
    pub verdicts : matches_any direct_verdict_patterns text ≡ false
    pub scores : matches_any risk_score_patterns text ≡ false
    pub emails : py.re_search email_re text ≡ false
    pub links : py.re_search url_or_domain_re text ≡ false
    pub phones : py.re_search phone_re text ≡ false
    pub cards : py.re_search card_re text ≡ false
    pub passports : py.re_search passport_re text ≡ false
    pub codes : py.re_search otp_labeled_re text ≡ false
    pub passwords : py.re_search password_value_re text ≡ false
    pub advice : matches_any unsafe_patterns text ≡ false
    pub knowledge_ids : any (λ id. has_sub (py.casefold id) (py.casefold text)) card_ids ≡ false
    pub internal_ids : py.re_search internal_knowledge_id_re text ≡ false
    pub payments : claims_payment_confirmed text ≡ false
    pub cases : matches_any case_proof_patterns text ≡ false
    pub lookups : matches_any unsupported_lookup_patterns text ≡ false
    pub blocklists : py.re_search blocklist_claim_re text ≡ false
    pub script : uses_wrong_script text language ≡ false

  pub content_reason-IsClean :
      (text : String) (language : Language) (card_ids : List String)
      → content_reason text (py.casefold text) language card_ids ≡ none
      → IsClean text language card_ids
  unfolding content_reason
  content_reason-IsClean text language card_ids h = ground arith
