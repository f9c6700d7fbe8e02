-- ===== src/Examples/Fixtures.antt =====
-- The data of the examples: a small standard library, and one of each record.
use avvalo.Prelude.{true, false, List, [], ◌∷◌, none, some, ◌==◌, code, leb, ◌&&◌, ◌||◌}
use avvalo.Stdlib.{Stdlib}
use avvalo.Engine.Types.{CheckInput, DraftOutput, InputType, Language, RuleHit, SituationType}
use avvalo.Engine.Url.{OfficialDomainCatalog}
use avvalo.Engine.Rules.Pack.{RuleDefinition, RulePack}
use avvalo.Engine.Knowledge.Types.{KnowledgeBase, KnowledgeCard, Router}
use avvalo.Engine.Pipeline.Types.{Outcome, Provider, Services}
use avvalo.Engine.Pipeline.Run.{Options, Session}
use avvalo.Data.Events.{error_class_re, rule_id_re, version_re}
use avvalo.Data.Store.{Database, RateLimit, UsageKey}

-- Patterns stand for themselves here: a pattern is found in its own text.
-- The patterns of ids match every text.
abbrev pub py : Stdlib
py = record {
  nfkc = λ s. s;
  casefold = λ s. s;
  is_digit = λ c. leb 48 (code c) && leb (code c) 57;
  is_format_control = λ c. false;
  re_compiles = λ p. true;
  re_search = λ p s. p == s;
  re_fullmatch = λ p s. p == error_class_re || (p == rule_id_re || p == version_re);
  re_sub = λ p r s. s;
  re_sub_by = λ p f s. s;
  re_pieces = λ p s. ([], s);
  re_escape = λ s. s;
  re_find_all = λ p s. [];
  re_split = λ p s. s ∷ [];
  url_split = λ s. none;
  unquote = some;
  idna_decode = some;
  utf8 = λ s. [];
  is_ip_address = λ s. false;
}

abbrev pub catalog : OfficialDomainCatalog
catalog = record { brands = []; shorteners = []; nested_suffixes = [] }

abbrev pub otp_rule : RuleDefinition
otp_rule = record {
  id = "otp_request";
  family = "otp";
  desc = "asks for a code";
  message_key = "otp_request";
  severity = 3;
  match = ("uz_latn", "kod" ∷ []) ∷ [];
  emits_signal = none;
  exclude = [];
  match_mode = "substring";
  requires = none;
}

abbrev pub pack : RulePack
pack = record { rules = otp_rule ∷ []; descriptions = [] }

abbrev pub otp_hit : RuleHit
otp_hit = record {
  rule_id = "otp_request";
  family = "otp";
  message_key = "otp_request";
  severity = 3;
}

abbrev pub otp_card : KnowledgeCard
otp_card = record {
  id = "card_otp";
  version = "1";
  status = "reviewed";
  reviewer = "team";
  trigger_rule_ids = "otp_request" ∷ [];
  trigger_signal_kinds = [];
  retrieval_aliases = [];
  mechanism = "a code opens the account";
  red_flags = [];
  verify_steps = [];
  questions = [];
  reviewed_case_ids = [];
  localized =
      (
        "uz_latn",
        record { red_flags = "Sms" ∷ []; verify_steps = "Ilova" ∷ []; questions = "Nega" ∷ [] },
      )
      ∷ [];
}

abbrev pub cue_card : KnowledgeCard
cue_card = record otp_card {
  id = "card_sms";
  trigger_rule_ids = [];
  retrieval_aliases = ("uz_latn", "sms" ∷ []) ∷ [];
}

abbrev pub base : KnowledgeBase
base = record { version = "v1"; cards = cue_card ∷ otp_card ∷ [] }

abbrev pub router : Router
router text ids most =
    some (record { card_ids = "card_other" ∷ "card_otp" ∷ []; input_tokens = 7; output_tokens = 2 })

abbrev pub draft : DraftOutput
draft = record {
  situation_type = SituationType.checkable;
  red_flags = record { text = "Kod"; source_id = "otp_request" } ∷ [];
  pattern = none;
  verify = "Bank" ∷ [];
  ask = "Kim" ∷ [];
  addressed_rule_ids = "otp_request" ∷ [];
}

-- A model that answers every attempt with the draft.
abbrev pub provider : Provider
provider attempt system user most =
    Outcome.returned (record { draft = draft; input_tokens = 100; output_tokens = 50 })

-- An image with two QR codes.
abbrev pub services : Services
services = record {
  py = py;
  catalog = catalog;
  pack = pack;
  knowledge = some base;
  router = none;
  detect_langs = λ s. none;
  build_prompt = λ language text hits signals cards. ("system", text);
  provider = provider;
  fallback_provider = none;
  decode_qr = λ bytes. Outcome.returned ("a" ∷ "b" ∷ []);
  ocr = none;
  settings = none;
  ocr_ms = 1;
  llm_ms = 2;
  latency_ms = 3;
}

abbrev pub broken : Services
broken = record services { decode_qr = λ bytes. Outcome.crashed "MemoryError" }

abbrev pub text_input : CheckInput
text_input = record {
  user_key = "u1";
  language = Language.uz_latn;
  input_type = InputType.text;
  raw_text = some "sms kod ayting";
  image_bytes = none;
  caption = none;
}

abbrev pub image_input : CheckInput
image_input = record text_input { input_type = InputType.image; image_bytes = some (1 ∷ []) }

abbrev pub options : Options
options = record {
  rate_limit_override = none;
  commit_rate_limit_reservation = true;
  reserved_on = 20;
  refunded_on = 20;
  event_id = 11;
  event_ts = 100;
}

abbrev pub usage_key : UsageKey
usage_key = record { user_key = "u1"; scope = "user"; day = 20 }

abbrev pub rows : List RateLimit
rows = record { key = usage_key; count = 3 } ∷ []

abbrev pub db : Database
db = record {
  consents =
      record { user_key = "u1"; notice_version = "1"; language = "ru"; ts = 1 }
      ∷ record { user_key = "u2"; notice_version = "1"; language = "ru"; ts = 2 }
      ∷ [];
  check_events = [];
  feedback = [];
  rate_limits = rows;
  deletion_log = [];
}

abbrev pub session : Session
session = record { db = db; committed = db }
