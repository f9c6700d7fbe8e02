-- ===== src/Content/Repo.antt =====
-- The table `editorial_post` and its operations in app/content/repo.py. The id and the time of a write
-- are given, the database refuses a second row with one slug, and the languages of a draft are
-- validated with Uzbek first; the source leaves their order open.
pub mod Sound
pub mod Public
use avvalo.Prelude.{
  ℕ, String, Bool, true, false, not, ◌&&◌, List, [], ◌∷◌, ◌++◌, Option, none, some, ◌==◌, leb,
  if◌then◌else◌, map, keep, contains, is_blank, is_some, strip, len,
}
use avvalo.Stdlib.{Stdlib}
use avvalo.Raises.{Raises, ok, raised, ◌>>=◌, ◌>>◌, require}
use avvalo.Overrides.Table.{is_taken, replaced, get_row, newest}
use avvalo.Content.Images.{PreparedEditorialCover}

abbrev pub categories : List String
categories = "payments" ∷ "phishing" ∷ "marketplace" ∷ "jobs" ∷ "accounts" ∷ "documents" ∷ []

abbrev pub states : List String
states = "draft" ∷ "published" ∷ []

abbrev pub slug_re : String
slug_re = "^[a-z0-9]+(?:-[a-z0-9]+)*$"

abbrev pub slug_max_chars : ℕ
slug_max_chars = 100

abbrev pub title_max_chars : ℕ
title_max_chars = 160

abbrev pub summary_max_chars : ℕ
summary_max_chars = 320

abbrev pub article_max_chars : ℕ
article_max_chars = 12000

pub record EditorialPostDraft : Type 0 where
  pub slug : String
  pub category : String
  pub state : String
  pub title_uz_latn : String
  pub summary_uz_latn : String
  pub article_uz_latn : String
  pub title_ru : String
  pub summary_ru : String
  pub article_ru : String

-- `_validate_required`
abbrev validate_required : String → ℕ → String → Raises (Unit {0})
validate_required value maximum error =
    require (not (is_blank value) && leb (len value) maximum) error

-- The body of the loop over the languages
unfoldable pub validate_texts : String → String → String → Raises (Unit {0})
validate_texts title summary article = do
  validate_required title title_max_chars "invalid_title"
  validate_required summary summary_max_chars "invalid_summary"
  validate_required article article_max_chars "invalid_article"

module _ (py : Stdlib) where
  -- `normalized`
  unfoldable pub normalized : EditorialPostDraft → Raises EditorialPostDraft
  unfolding validate_texts
  normalized draft = do
    let slug : String = py.casefold (strip draft.slug)
    require (not (is_blank slug) && leb (len slug) slug_max_chars && py.re_fullmatch slug_re slug)
        "invalid_slug"
    require (contains (strip draft.category) categories) "invalid_category"
    require (contains (strip draft.state) states) "invalid_state"
    validate_texts (strip draft.title_uz_latn) (strip draft.summary_uz_latn)
        (strip draft.article_uz_latn)
    validate_texts (strip draft.title_ru) (strip draft.summary_ru) (strip draft.article_ru)
    ok (record {
      slug = slug;
      category = strip draft.category;
      state = strip draft.state;
      title_uz_latn = strip draft.title_uz_latn;
      summary_uz_latn = strip draft.summary_uz_latn;
      article_uz_latn = strip draft.article_uz_latn;
      title_ru = strip draft.title_ru;
      summary_ru = strip draft.summary_ru;
      article_ru = strip draft.article_ru;
    })

pub record Cover : Type 0 where
  pub cover_bytes : Option (List ℕ)
  pub cover_media_type : Option String
  pub cover_alt_uz_latn : Option String
  pub cover_alt_ru : Option String

abbrev pub no_cover : Cover
no_cover = record {
  cover_bytes = none;
  cover_media_type = none;
  cover_alt_uz_latn = none;
  cover_alt_ru = none;
}

-- A row holds the values of a draft, as `**values.__dict__` fills it, and the columns of its cover.
pub record EditorialPost : Type 0 where
  pub id : ℕ
  pub values : EditorialPostDraft
  pub cover : Cover
  pub created_ts : ℕ
  pub updated_ts : ℕ
  pub published_ts : Option ℕ

abbrev kept : {A : Type 0} → Option A → Option A → Option A
kept none old = old
kept (some new) old = some new

-- The type of the image is set with its bytes.
abbrev typed : Option (List ℕ) → Option String → Option String → Option String
typed none media_type old = old
typed (some image_bytes) media_type old = media_type

-- `_apply_cover`
abbrev pub apply_cover : Option PreparedEditorialCover → Cover → Cover
apply_cover none old = old
apply_cover (some cover) old = if cover.clear then no_cover else record {
  cover_bytes = kept cover.image_bytes old.cover_bytes;
  cover_media_type = typed cover.image_bytes cover.media_type old.cover_media_type;
  cover_alt_uz_latn = cover.alt_uz_latn;
  cover_alt_ru = cover.alt_ru;
}

abbrev pub is_published : EditorialPostDraft → Bool
is_published values = values.state == "published"

-- The time of the first publication is kept.
abbrev pub first_published : EditorialPostDraft → ℕ → Option ℕ → Option ℕ
first_published values now (some time) = some time
first_published values now none = if is_published values then some now else none

abbrev pub post_of : EditorialPostDraft → Option PreparedEditorialCover → ℕ → ℕ → EditorialPost
post_of values cover id now = record {
  id = id;
  values = values;
  cover = apply_cover cover no_cover;
  created_ts = now;
  updated_ts = now;
  published_ts = first_published values now none;
}

abbrev pub rewritten :
    EditorialPostDraft → Option PreparedEditorialCover → ℕ → EditorialPost → EditorialPost
rewritten values cover now post = record {
  id = post.id;
  values = values;
  cover = apply_cover cover post.cover;
  created_ts = post.created_ts;
  updated_ts = now;
  published_ts = first_published values now post.published_ts;
}

abbrev pub post_id : EditorialPost → ℕ
post_id post = post.id

abbrev pub post_slug : EditorialPost → String
post_slug post = post.values.slug

module _ (py : Stdlib) where
  -- `create_post`
  unfoldable pub create_post :
      EditorialPostDraft
      → Option PreparedEditorialCover
      → ℕ
      → ℕ
      → List EditorialPost
      → Raises (List EditorialPost)
  unfolding normalized
  create_post draft cover id now posts = do
    values ← normalized py draft
    require (not (is_taken post_id post_slug id values.slug posts)) "IntegrityError"
    ok (posts ++ post_of values cover id now ∷ [])

  -- `update_post`, of the row with the id
  unfoldable pub update_post :
      EditorialPostDraft
      → Option PreparedEditorialCover
      → ℕ
      → ℕ
      → List EditorialPost
      → Raises (List EditorialPost)
  unfolding normalized
  update_post draft cover id now posts = do
    values ← normalized py draft
    require (not (is_taken post_id post_slug id values.slug posts)) "IntegrityError"
    ok (map (replaced post_id id (rewritten values cover now)) posts)

-- `get_admin_post`
abbrev pub get_admin_post : ℕ → List EditorialPost → Option EditorialPost
get_admin_post = get_row post_id

-- `list_admin_posts`
list_admin_posts : List EditorialPost → List EditorialPost
list_admin_posts posts = newest (λ (post : EditorialPost). post.updated_ts) posts

pub record LocalizedEditorialPost : Type 0 where
  pub id : ℕ
  pub slug : String
  pub category : String
  pub title : String
  pub summary : String
  pub article : String
  pub published_ts : ℕ
  pub has_cover : Bool
  pub cover_alt : Option String
  pub updated_ts : ℕ

-- `language if language in LANGUAGES else "ru"`, as the test for Uzbek
abbrev pub is_uzbek : String → Bool
is_uzbek language = language == "uz_latn"

-- `_localized`: the version of the cover is the time of the last change.
pub localized : EditorialPost → Bool → Option ℕ → Raises LocalizedEditorialPost
localized post uzbek none = raised "ValueError"
localized post uzbek (some published_ts) = ok (record {
  id = post.id;
  slug = post.values.slug;
  category = post.values.category;
  title = if uzbek then post.values.title_uz_latn else post.values.title_ru;
  summary = if uzbek then post.values.summary_uz_latn else post.values.summary_ru;
  article = if uzbek then post.values.article_uz_latn else post.values.article_ru;
  published_ts = published_ts;
  has_cover = is_some post.cover.cover_media_type;
  cover_alt = if uzbek then post.cover.cover_alt_uz_latn else post.cover.cover_alt_ru;
  updated_ts = post.updated_ts;
})

-- The `where` of the public reads
abbrev pub is_public : EditorialPost → Bool
is_public post = is_published post.values && is_some post.published_ts

-- The row of a slug that is public
pub public_row : String → List EditorialPost → Option EditorialPost
public_row slug [] = none
public_row slug (post ∷ posts) =
    if (post.values.slug == slug) && is_public post then some post else public_row slug posts

abbrev pub localized_row : Option EditorialPost → Bool → Raises (Option LocalizedEditorialPost)
localized_row none uzbek = ok none
localized_row (some post) uzbek = do shown ← localized post uzbek post.published_ts; ok (some shown)

-- `get_published_post`
pub get_published_post :
    String → String → List EditorialPost → Raises (Option LocalizedEditorialPost)
unfolding public_row localized
get_published_post slug language posts = localized_row (public_row slug posts) (is_uzbek language)

pub record EditorialCover : Type 0 where
  pub post_id : ℕ
  pub image_bytes : List ℕ
  pub media_type : String
  pub updated_ts : ℕ

-- `_cover_from_row`
abbrev cover_from_row : EditorialPost → Option (List ℕ) → Option String → Option EditorialCover
cover_from_row post (some image_bytes) (some media_type) = some (record {
  post_id = post.id;
  image_bytes = image_bytes;
  media_type = media_type;
  updated_ts = post.updated_ts;
})
cover_from_row post none media_type = none
cover_from_row post (some image_bytes) none = none

abbrev pub cover_of : Option EditorialPost → Option EditorialCover
cover_of none = none
cover_of (some post) = cover_from_row post post.cover.cover_bytes post.cover.cover_media_type

-- `get_admin_cover` and `get_published_cover`
pub get_admin_cover : ℕ → List EditorialPost → Option EditorialCover
get_admin_cover id posts = cover_of (get_admin_post id posts)

pub get_published_cover : String → List EditorialPost → Option EditorialCover
unfolding public_row
get_published_cover slug posts = cover_of (public_row slug posts)

abbrev localized_all : List EditorialPost → Bool → Raises (List LocalizedEditorialPost)
localized_all [] uzbek = ok []
localized_all (post ∷ posts) uzbek = do
  shown ← localized post uzbek post.published_ts
  rest ← localized_all posts uzbek
  ok (shown ∷ rest)

abbrev or_zero : Option ℕ → ℕ
or_zero none = 0
or_zero (some time) = time

-- `list_published_posts`, without a limit: the last published first
list_published_posts : String → List EditorialPost → Raises (List LocalizedEditorialPost)
unfolding localized
list_published_posts language posts =
    localized_all
      (newest (λ (post : EditorialPost). or_zero post.published_ts) (keep is_public posts))
      (is_uzbek language)
