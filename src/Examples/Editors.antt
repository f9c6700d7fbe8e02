-- ===== src/Examples/Editors.antt =====
-- Cards and articles: app/knowledge_store, app/content and their editors.
use avvalo.Prelude.{
  ◌&&◌, ℕ, String, true, false, List, [], ◌∷◌, Option, none, some, ◌==◌, eq_iff, strip, contains,
  ◌≡◌, refl, subst, arith, if◌then◌else◌, ◌⊎◌,
}
use avvalo.Stdlib.{Stdlib}
use avvalo.Raises.{ok}
use avvalo.Engine.Rules.Yaml.{Yaml, Yamls, Entries, document}
use avvalo.Engine.Knowledge.Types.{KnowledgeCard, KnowledgeBase, id_of_card}
use avvalo.Engine.Knowledge.Loader.{
  load, load_yaml_knowledge_base, load_files, load_directory, load_paths, load_cards, add_card,
  validate_card, read_yaml,
}
use avvalo.Engine.Knowledge.Loader.Sound.{IsShipped, load_yaml_knowledge_base-IsShipped}
use avvalo.Overrides.Merge.{find}
use avvalo.KnowledgeStore.Draft.{
  KnowledgeCardDraft, card_id_re, trigger_rule_re, signal_kind_re, normalized, validate_ids,
  validate_entries, validate_aliases, as_card,
}
use avvalo.KnowledgeStore.Draft.Stored.{KeepsMatches, KeepsIds}
use avvalo.KnowledgeStore.Repo.{KnowledgeCardOverride, create_card}
use avvalo.KnowledgeStore.Repo.Table.{IsCardTable}
use avvalo.KnowledgeStore.Repo.Loaded.{card_by_row}
use avvalo.KnowledgeStore.Merge.{CardPreview, preview_of, retrieved, preview_card}
use avvalo.KnowledgeStore.Merge.Preview.{IsPreview, preview_card_lem}
use avvalo.KnowledgeStore.Publish.{
  Surroundings, shipped, refresh_knowledge_base, CardStore, Step, Reachable,
}
use avvalo.KnowledgeStore.Publish.Reached.{KeepsVersions, IsBase, load-IsBase}
use avvalo.KnowledgeStore.Publish.Refined.{refresh_knowledge_base_lem}
use avvalo.Content.Images.{Picture, prepare_editorial_cover, prepare_texts, normalize_alt}
use avvalo.Content.Repo
use avvalo.Content.Repo.{EditorialPostDraft, EditorialPost, create_post, validate_texts, no_cover}
use avvalo.Content.Repo.Sound.{ArePosts}
use avvalo.Web.Cookie.{rsplit_dot, is_ascii}
use avvalo.Web.Admin.{require_admin, is_admin_authenticated, admin_settings_or_404}
use avvalo.Web.Admin.Admitted.{IsNumeral}
use avvalo.Web.Origin.{require_same_origin}
use avvalo.Web.Gate.{Libraries, AdminRequest, Reply, post_gate}
use avvalo.Web.Gate.Guarded.{IsAdmitted}
use avvalo.Web.Login.{Page, page_of, admin_login_submit}
use avvalo.Web.Login.Opened.{IsOpened, admin_login_submit_lem}
use avvalo.Web.Cards.{cards_page, admin_card_save, admin_card_delete}
use avvalo.Web.Cards.Saved.{InForce, admin_card_save-InForce}
use avvalo.Web.Posts.{CoverForm, save_admin_post, created, admin_post_create, admin_post_update}
use avvalo.Web.Posts.Shown.{Shows, save_admin_post-Shows}
use avvalo.Web.Editors.{editors-IsAdmitted}
use avvalo.Examples.Fixtures.{py, catalog, pack}
use avvalo.Examples.Cookies.{codes, numerals, settings}

abbrev id_patterns : List String
id_patterns = card_id_re ∷ trigger_rule_re ∷ signal_kind_re ∷ []

-- Here one text is an id of each kind, and every text has every other form.
abbrev card_py : Stdlib
card_py = record py {
  re_fullmatch = λ p s. if contains p id_patterns then s == "otp.code" else true;
}

abbrev surroundings : Surroundings
surroundings = record {
  py = card_py;
  strftime = λ time. "20261126120000";
  model_validate = λ value. some (record {
    id = "otp.code";
    version = "1";
    status = "approved";
    reviewer = "R";
    trigger_rule_ids = [];
    trigger_signal_kinds = [];
    retrieval_aliases = [];
    mechanism = "asks for a code";
    red_flags = [];
    verify_steps = "call the bank" ∷ [];
    questions = "who asks?" ∷ [];
    reviewed_case_ids = [];
    localized = [];
  });
  files = record {
    version =
        some (ok (Yaml.mapping (Entries.entry (some "version") (Yaml.text "v1") Entries.empty)));
    cards = some (
        some (
          ok (
            Yaml.mapping (
              Entries.entry (some "cards") (Yaml.sequence (Yamls.cons Yaml.null Yamls.nil))
                Entries.empty)))
        ∷ []);
  };
}

abbrev shipped_card : KnowledgeCard
shipped_card = record {
  id = "otp.code";
  version = "1";
  status = "approved";
  reviewer = "R";
  trigger_rule_ids = [];
  trigger_signal_kinds = [];
  retrieval_aliases = [];
  mechanism = "asks for a code";
  red_flags = [];
  verify_steps = "call the bank" ∷ [];
  questions = "who asks?" ∷ [];
  reviewed_case_ids = [];
  localized = [];
}

abbrev shipped_base : KnowledgeBase
shipped_base = record { version = "v1"; cards = shipped_card ∷ [] }

base_loads : shipped surroundings ≡ ok shipped_base
unfolding load_yaml_knowledge_base load_files load_directory load_paths load_cards add_card
    validate_card read_yaml document strip
base_loads = refl

load_yaml_knowledge_base-IsShipped_example :
    IsShipped card_py surroundings.model_validate shipped_base
load_yaml_knowledge_base-IsShipped_example =
    load_yaml_knowledge_base-IsShipped card_py surroundings.model_validate surroundings.files
      shipped_base base_loads

keeps_id : (s : String) → s == "otp.code" ≡ true → strip s ≡ s
unfolding strip
keeps_id s h =
    subst (λ (t : String). strip t ≡ t) {x = "otp.code"} {y = s}
      (ground (arith, eq_iff s "otp.code")) refl

keeps_ids : KeepsIds card_py
unfolding KeepsMatches
keeps_ids = record {
  cards = λ s h. keeps_id s h;
  rules = λ s h. keeps_id s h;
  kinds = λ s h. keeps_id s h;
}

keeps_versions : KeepsVersions card_py surroundings.strftime
unfolding KeepsVersions
keeps_versions version time h short = refl

abbrev card_draft : KnowledgeCardDraft
card_draft = record {
  card_id = " otp.code";
  card_version = "2";
  status = "retired";
  reviewer = "R";
  mechanism = "M";
  trigger_rule_ids = [];
  trigger_signal_kinds = [];
  retrieval_aliases = [];
  red_flags = [];
  verify_steps = [];
  questions = [];
  reviewed_case_ids = [];
}

abbrev card_row : KnowledgeCardOverride
card_row = record {
  id = 1;
  values = record card_draft { card_id = "otp.code" };
  created_ts = 5;
  updated_ts = 5;
}

abbrev empty_cards : CardStore
empty_cards = record { rows = []; active = none }

abbrev retired : CardStore
retired = record { rows = card_row ∷ []; active = none }

card_created : create_card card_py card_draft 1 5 [] ≡ ok (card_row ∷ [])
unfolding create_card normalized validate_ids validate_entries validate_aliases strip
card_created = refl

retired-Reachable : Reachable surroundings retired
retired-Reachable =
    Reachable.stepped Reachable.started (Step.created card_draft 1 5 refl card_created)

load-IsBase_example :
    IsCardTable card_py (card_row ∷ [])
    × ((found : KnowledgeBase) × (load card_py surroundings.model_validate surroundings.files none
          ≡ ok found)
        × IsBase surroundings found)
load-IsBase_example =
    load-IsBase surroundings shipped_base retired keeps_ids keeps_versions base_loads
      retired-Reachable

refresh_knowledge_base_lem_example :
    let next = refresh_knowledge_base surroundings (ok (card_row ∷ [])) none in
    (found : KnowledgeBase) × (next.0 ≡ ok found)
    × (load card_py surroundings.model_validate surroundings.files next.1 ≡ ok found)
    × (find id_of_card "otp.code" found.cards
        ≡ card_by_row card_py (some card_row) (some shipped_card))
refresh_knowledge_base_lem_example =
    refresh_knowledge_base_lem surroundings shipped_base retired "otp.code" keeps_ids keeps_versions
      base_loads retired-Reachable

abbrev tried_card : KnowledgeCard
tried_card = record shipped_card {
  version = "2";
  mechanism = "M";
  verify_steps = [];
  questions = [];
}

abbrev tried_draft : KnowledgeCardDraft
tried_draft = record card_draft { status = "approved" }

abbrev tried_preview : CardPreview
tried_preview = preview_of tried_card (
    retrieved card_py catalog pack (record { version = "v1"; cards = tried_card ∷ [] })
      "call the bank")

previewed :
    preview_card card_py catalog pack tried_draft "call the bank" shipped_base ≡ ok tried_preview
unfolding preview_card as_card normalized validate_ids validate_entries validate_aliases strip
previewed = refl

preview_card_lem_example :
    (card : KnowledgeCard) × (as_card card_py tried_draft ≡ ok card)
    × IsPreview card_py catalog pack card shipped_base tried_preview
preview_card_lem_example =
    preview_card_lem card_py catalog pack tried_draft "call the bank" shipped_base tried_preview
      previewed

abbrev libraries : Libraries
libraries = record { py = card_py; codes = codes; numerals = numerals; urlsplit = λ text. none }

abbrev admin_request : AdminRequest
admin_request = record {
  request = record {
    scheme = "https";
    hostname = some "avvalo.uz";
    port = none;
    fetch_site = "same-origin";
    origin = "";
    forwarded_proto = "";
  };
  cookie = some "43205.0f";
  settings = some settings;
  language = "ru";
  now = 7;
  storage = true;
}

gate_open : post_gate libraries admin_request ≡ ok none
unfolding post_gate require_same_origin admin_settings_or_404 require_admin is_admin_authenticated
    rsplit_dot strip
gate_open = refl

no_uuid : String → Option ℕ
no_uuid text = none

admin_card_save-InForce_example :
    let after =
      admin_card_save surroundings libraries admin_request no_uuid "" card_draft 1 5 empty_cards in
    (after.0 ≡ Reply.sent (cards_page "ru"))
    × (after.1.rows ≡ card_row ∷ [])
    × InForce surroundings shipped_base after.1 "otp.code"
admin_card_save-InForce_example =
    admin_card_save-InForce surroundings libraries admin_request no_uuid "" card_draft 1 5
      empty_cards (card_row ∷ []) shipped_base "otp.code" keeps_ids keeps_versions base_loads
      Reachable.started gate_open refl refl card_created

abbrev founder_key : String
founder_key = "key"

abbrev login : AdminRequest
login = record admin_request { cookie = none; now = 5 }

numeral : IsNumeral card_py codes numerals "secret" 43205
numeral = record { digits = refl; read = refl; ascii = refl; no_dot = refl }

login_origin : require_same_origin card_py libraries.urlsplit login.request ≡ ok tt
unfolding require_same_origin strip
login_origin = refl

login_settings : admin_settings_or_404 login.settings ≡ ok settings
unfolding admin_settings_or_404
login_settings = refl

admin_login_submit_lem_example :
    let answer = admin_login_submit libraries login founder_key in
    ((is_ascii founder_key ≡ true)
      × (founder_key ≡ founder_key)
      × (answer.0 ≡ Page.redirect (page_of "/admin/posts" "ru"))
      × IsOpened libraries login answer.1 43204)
    ⊎ (((is_ascii founder_key && is_ascii founder_key) ≡ true)
        × (founder_key == founder_key ≡ false)
        × (answer.0 ≡ Page.form 401)
        × (answer.1 ≡ none))
    ⊎ (((is_ascii founder_key && is_ascii founder_key) ≡ false)
        × (answer.0 ≡ Page.failed "TypeError")
        × (answer.1 ≡ none))
admin_login_submit_lem_example =
    admin_login_submit_lem libraries login settings login_origin login_settings founder_key
      founder_key 43204 refl numeral

abbrev post_draft : EditorialPostDraft
post_draft = record {
  slug = "fake-bank";
  category = "phishing";
  state = "published";
  title_uz_latn = "T";
  summary_uz_latn = "S";
  article_uz_latn = "A";
  title_ru = "T";
  summary_ru = "S";
  article_ru = "A";
}

abbrev cover_form : CoverForm
cover_form = record { upload = none; alt_uz_latn = ""; alt_ru = ""; remove = false }

abbrev post_row : EditorialPost
post_row = record {
  id = 1;
  values = post_draft;
  cover = no_cover;
  created_ts = 5;
  updated_ts = 5;
  published_ts = some 5;
}

no_image : List ℕ → Option Picture
no_image content = none

post_saved : save_admin_post card_py no_image none post_draft cover_form 1 5 [] ≡ ok (post_row ∷ [])
unfolding save_admin_post created prepare_editorial_cover prepare_texts normalize_alt create_post
    Repo.normalized validate_texts strip
post_saved = refl

save_admin_post-Shows_example :
    ArePosts card_py (post_row ∷ []) × Shows card_py no_image post_draft 1 "ru" (post_row ∷ [])
save_admin_post-Shows_example =
    save_admin_post-Shows card_py no_image none post_draft cover_form 1 5 "ru" [] (post_row ∷ [])
      (record { table = tt; each = tt }) refl post_saved

editors-IsAdmitted_example :
    IsAdmitted libraries admin_request
    ⊎ (((admin_card_save surroundings libraries admin_request no_uuid "" card_draft 1 5
            empty_cards).1
          ≡ empty_cards)
        × ((admin_card_delete surroundings libraries admin_request 1 empty_cards).1 ≡ empty_cards))
      × (((admin_post_create libraries no_image admin_request post_draft cover_form 1 5 []).1 ≡ [])
          × ((admin_post_update libraries no_image admin_request post_draft cover_form 1 5 []).1
              ≡ []))
editors-IsAdmitted_example =
    editors-IsAdmitted surroundings libraries no_image admin_request no_uuid "" card_draft
      post_draft cover_form 1 5 1 empty_cards []
