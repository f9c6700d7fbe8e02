-- ===== src/Content/Repo/Public.antt =====
-- What the public reads give for the slug of an article that was just saved.
use avvalo.Prelude.{
  ℕ, String, Bool, true, false, ◌&&◌, List, [], ◌∷◌, ◌++◌, Option, none, some, ◌==◌, eq_iff, ◌≡◌,
  refl, ap, sym, ◌∙◌, arith, nat_eq, if◌then◌else◌, map, is_some, Bool-cases, inl, inr,
}
use avvalo.Raises.{Raises, ok, raised, ◌>>=◌}
use avvalo.Overrides.Table.{is_used, is_taken, replaced}
use avvalo.Overrides.Table.Unique.{IsTable}
use avvalo.Content.Images.{PreparedEditorialCover}
use avvalo.Content.Repo.{
  EditorialPostDraft, EditorialPost, is_published, first_published, post_of, rewritten, post_id,
  post_slug, get_admin_post, LocalizedEditorialPost, is_uzbek, localized, is_public, public_row,
  localized_row, get_published_post, cover_of, get_admin_cover, get_published_cover,
}

-- The row of the id holds the values, and it is the public row of their slug, if it is public.
pub record IsSaved (values : EditorialPostDraft) (id : ℕ) (posts : List EditorialPost)
    : Type 0 where
  row : EditorialPost
  found : get_admin_post id posts ≡ some row
  same : row.values ≡ values
  public : is_public row ≡ is_published values
  read : public_row values.slug posts ≡ (if is_published values then some row else none)

first_published-public :
    (values : EditorialPostDraft) (now : ℕ) (old : Option ℕ)
    → (is_published values && is_some (first_published values now old)) ≡ is_published values
first_published-public values now none = ground arith
first_published-public values now (some time) = ground arith

-- The other rows do not have the slug.
public_row_absent :
    (f : EditorialPost → EditorialPost) (id : ℕ) (slug : String) (posts : List EditorialPost)
    → is_used post_id id posts ≡ false
    → is_taken post_id post_slug id slug posts ≡ false
    → public_row slug (map (replaced post_id id f) posts) ≡ none
unfolding public_row
public_row_absent f id slug [] u t = refl
public_row_absent f id slug (post ∷ posts) u t = ground (arith, public_row_absent f id slug posts)

step-IsSaved :
    (values : EditorialPostDraft) (id : ℕ) (post : EditorialPost) (posts : List EditorialPost)
    → nat_eq post.id id ≡ false
    → (post.values.slug == values.slug) ≡ false
    → IsSaved values id posts
    → IsSaved values id (post ∷ posts)
unfolding public_row
step-IsSaved values id post posts n d s = record {
  row = s.row;
  found = ground (arith, s.found);
  same = s.same;
  public = s.public;
  read = ground (arith, s.read);
}

here-IsSaved :
    (values : EditorialPostDraft) (id : ℕ) (post : EditorialPost) (posts : List EditorialPost)
    → nat_eq post.id id ≡ true
    → post.values ≡ values
    → is_public post ≡ is_published values
    → public_row values.slug posts ≡ none
    → IsSaved values id (post ∷ posts)
unfolding public_row
here-IsSaved values id post posts n e p r = record {
  row = post;
  found = ground arith;
  same = e;
  public = p;
  read =
      ground
        (arith, eq_iff post.values.slug values.slug, ap (λ (v : EditorialPostDraft). v.slug) e);
}

pub rewritten-IsSaved :
    (values : EditorialPostDraft) (cover : Option PreparedEditorialCover) (id now : ℕ)
    (posts : List EditorialPost) (existing : EditorialPost)
    → IsTable post_id post_slug posts
    → is_taken post_id post_slug id values.slug posts ≡ false
    → get_admin_post id posts ≡ some existing
    → IsSaved values id (map (replaced post_id id (rewritten values cover now)) posts)
rewritten-IsSaved values cover id now [] existing t k g = ground arith
rewritten-IsSaved values cover id now (post ∷ posts) existing t k g =
    elim (Bool-cases (nat_eq post.id id)) [
      | inl found ↦ rw found (
          here-IsSaved values id (rewritten values cover now post)
            (map (replaced post_id id (rewritten values cover now)) posts) found refl
            (first_published-public values now post.published_ts)
            (public_row_absent (rewritten values cover now) id values.slug posts
              (ground (arith, t.0)) (ground arith)))
      | inr other ↦ rw other (
          step-IsSaved values id post (map (replaced post_id id (rewritten values cover now)) posts)
            other (ground arith)
            (rewritten-IsSaved values cover id now posts existing t.2 (ground arith)
              (ground arith)))
    ]

pub appended-IsSaved :
    (values : EditorialPostDraft) (cover : Option PreparedEditorialCover) (id now : ℕ)
    (posts : List EditorialPost)
    → is_used post_id id posts ≡ false
    → is_taken post_id post_slug id values.slug posts ≡ false
    → IsSaved values id (posts ++ post_of values cover id now ∷ [])
unfolding public_row
appended-IsSaved values cover id now [] u t =
    here-IsSaved values id (post_of values cover id now) [] (ground arith) refl
      (first_published-public values now none) refl
appended-IsSaved values cover id now (post ∷ posts) u t =
    step-IsSaved values id post (posts ++ post_of values cover id now ∷ []) (ground arith)
      (ground arith) (appended-IsSaved values cover id now posts (ground arith) (ground arith))

-- The texts of an article in a language
abbrev Texts : Type 0
Texts = String × String × String × String

abbrev pub texts_in : Bool → EditorialPostDraft → Texts
texts_in uzbek values = (
  values.category,
  if uzbek then values.title_uz_latn else values.title_ru,
  if uzbek then values.summary_uz_latn else values.summary_ru,
  if uzbek then values.article_uz_latn else values.article_ru,
)

abbrev pub texts_shown : Raises (Option LocalizedEditorialPost) → Raises (Option Texts)
texts_shown (raised error) = raised error
texts_shown (ok none) = ok none
texts_shown (ok (some p)) = ok (some (p.category, p.title, p.summary, p.article))

shown_row :
    (post : EditorialPost) (uzbek : Bool) (time : Option ℕ)
    → is_some time ≡ true
    → texts_shown (localized post uzbek time >>= λ (p : LocalizedEditorialPost). ok (some p))
      ≡ ok (some (texts_in uzbek post.values))
unfolding localized
shown_row post uzbek none h = ground arith
shown_row post uzbek (some time) h = refl

-- The public reads of the slug
pub IsSaved-get_published_post :
    (values : EditorialPostDraft) (id : ℕ) (posts : List EditorialPost) (language : String)
    → IsSaved values id posts
    → (texts_shown (get_published_post values.slug language posts)
        ≡ ok (if is_published values then some (texts_in (is_uzbek language) values) else none))
      × (get_published_cover values.slug posts
          ≡ (if is_published values then get_admin_cover id posts else none))
unfolding get_published_post get_published_cover get_admin_cover
IsSaved-get_published_post values id posts language s = elim (Bool-cases (is_published values)) [
  | inl published ↦
      let read : public_row values.slug posts ≡ some s.row = rw published at s.read in
      rw published (
        ap (λ o. texts_shown (localized_row o (is_uzbek language))) read
            ∙ shown_row s.row (is_uzbek language) s.row.published_ts (ground (arith, s.public))
            ∙ ap (λ (v : EditorialPostDraft). ok (some (texts_in (is_uzbek language) v))) s.same,
        ap cover_of (read ∙ sym s.found),
      )
  | inr draft ↦
      let read : public_row values.slug posts ≡ none = rw draft at s.read in
      rw draft (ap (λ o. texts_shown (localized_row o (is_uzbek language))) read, ap cover_of read)
]
