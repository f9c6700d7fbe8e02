-- ===== src/Examples/Ids.antt =====
-- Long card ids: app/knowledge_store/repo.py and app/data/repo.py, with matchers for their patterns.
use avvalo.Prelude.{
  ℕ, zero, suc, Char, code, String, Bool, true, false, not, ◌&&◌, ◌||◌, [], ◌∷◌, none, some, ◌==◌,
  eq_iff, contains, ◌≡◌, refl, arith, if◌then◌else◌, leb, nat_eq, len, strip, any_char,
}
use avvalo.Stdlib.{Stdlib}
use avvalo.Raises.{ok, raises}
use avvalo.Data.Events.{rule_id_re, record_check_event}
use avvalo.Data.Store.{CheckEvent, Database}
use avvalo.KnowledgeStore.Draft.{
  KnowledgeCardDraft, card_id_re, card_version_re, normalized, validate_ids, validate_entries,
  validate_aliases, card_of, as_card,
}
use avvalo.KnowledgeStore.Draft.Overlong.{letters, long_id, MatchesIds, record_check_event_overlong}
use avvalo.Examples.Fixtures.{py}

-- `[a-z]` and `[a-z0-9_]`
abbrev is_small : Char → Bool
is_small c = leb 97 (code c) && leb (code c) 122

abbrev is_word : Char → Bool
is_word c = is_small c || (leb 48 (code c) && leb (code c) 57) || nat_eq (code c) 95

-- The parts behind the first letter of a card id: a dot has been read, and the part is still empty.
abbrev are_parts : Bool → Bool → String → Bool
are_parts dotted empty String.[] = dotted && not empty
are_parts dotted empty (String.◌∷◌ c s) =
    let rest = are_parts true true s in
    let more = are_parts dotted false s in
    if nat_eq (code c) 46 then not empty && rest else is_word c && more

abbrev is_card_id : String → Bool
is_card_id String.[] = false
is_card_id (String.◌∷◌ c s) = is_small c && are_parts false false s

-- An id of a check event
abbrev is_event_id : String → Bool
is_event_id String.[] = false
is_event_id (String.◌∷◌ c s) =
    leb (len (String.◌∷◌ c s)) 80
    && is_small c
    && not (any_char (λ d. not (is_word d || nat_eq (code d) 46 || nat_eq (code d) 45)) s)

-- `[A-Za-z0-9]`, and the marks of a version
abbrev is_alphanumeric : Char → Bool
is_alphanumeric c =
    is_small c || (leb 65 (code c) && leb (code c) 90) || (leb 48 (code c) && leb (code c) 57)

abbrev is_version : String → Bool
is_version String.[] = false
is_version (String.◌∷◌ c s) =
    leb (len s) 39
    && is_alphanumeric c
    && not (
        any_char
          (λ d.
            not
              (is_alphanumeric d || nat_eq (code d) 95 || nat_eq (code d) 46 || nat_eq (code d) 45))
          s)

-- A library with these three patterns
abbrev id_py : Stdlib
id_py = record py {
  re_fullmatch = λ p s.
      if p == card_id_re
      then is_card_id s
      else if p == rule_id_re
      then is_event_id s
      else if p == card_version_re
      then is_version s
      else false;
}

more-letters : (n : ℕ) → are_parts true false (letters n) ≡ true
unfolding letters
more-letters zero = refl
more-letters (suc n) = more-letters n

parts-letters : (n : ℕ) → are_parts true true (letters n) ≡ true
unfolding letters
parts-letters zero = refl
parts-letters (suc n) = more-letters n

is_event_id-short : (s : String) → is_event_id s ≡ true → leb (len s) 80 ≡ true
is_event_id-short String.[] h = ground arith
is_event_id-short (String.◌∷◌ c s) h = ground arith

matches_ids : MatchesIds id_py
unfolding long_id
matches_ids = record {
  unbounded = λ n. parts-letters n;
  bounded = λ s h. is_event_id-short s h;
  folded = λ n. refl;
}

abbrev short_draft : KnowledgeCardDraft
short_draft = record {
  card_id = "otp.code";
  card_version = "2";
  status = "approved";
  reviewer = "R";
  mechanism = "M";
  trigger_rule_ids = [];
  trigger_signal_kinds = [];
  retrieval_aliases = [];
  red_flags = [];
  verify_steps = [];
  questions = [];
  reviewed_case_ids = [];
}

short_valid : normalized id_py short_draft ≡ ok short_draft
unfolding normalized validate_ids validate_entries validate_aliases strip
short_valid = refl

-- The pattern of an event takes a short id, and a card id without a dot is refused.
patterns_work :
    (is_event_id "otp.code" ≡ true) × (is_card_id "otp" ≡ false) × (is_card_id "otp." ≡ false)
patterns_work = (refl, refl, refl)

abbrev event : CheckEvent
event = record {
  id = 1;
  user_key = "u1";
  ts = 5;
  input_type = "text";
  language = "ru";
  rule_ids = [];
  knowledge_card_ids = long_id 78 ∷ [];
  reviewed_case_ids = [];
  retrieval_mode = some "cue";
  retrieval_status = some "ok";
  router_status = some "not_used";
  kb_version = some "v1";
  no_signal = false;
  status = "ok";
  error_class = none;
  ocr_confidence = none;
  latency_ms = 1;
  ocr_ms = none;
  llm_ms = none;
  input_tokens = none;
  output_tokens = none;
  cost_usd = none;
  safety_blocked = false;
}

abbrev no_rows : Database
no_rows = record {
  consents = [];
  check_events = [];
  feedback = [];
  rate_limits = [];
  deletion_log = [];
}

listed : contains (long_id 78) event.knowledge_card_ids ≡ true
listed = ground (arith, eq_iff (long_id 78) (long_id 78))

record_check_event_overlong_example :
    (len (long_id 78) ≡ 81)
    × (as_card id_py (record short_draft { card_id = long_id 78 })
        ≡ ok (card_of id_py (record short_draft { card_id = long_id 78 })))
    × (raises (record_check_event id_py event no_rows) ≡ true)
record_check_event_overlong_example =
    record_check_event_overlong id_py short_draft short_draft 78 event no_rows matches_ids
      short_valid (omega arith) listed
