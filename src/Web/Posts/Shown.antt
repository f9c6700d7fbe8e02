-- ===== src/Web/Posts/Shown.antt =====
-- What the editor of articles leaves, and what the site then shows.
use avvalo.Prelude.{
  ℕ, String, false, not, List, Option, none, some, ◌≡◌, refl, arith, is_some, if◌then◌else◌,
}
use avvalo.Stdlib.{Stdlib}
use avvalo.Raises.{Raises, ok, raised}
use avvalo.Raises.Ensures.{Ensures, Ensures-bind, Ensures-then, Ensures-require, Ensures-ok}
use avvalo.Overrides.Table.{is_used, is_taken}
use avvalo.Content.Images.{Picture, PreparedEditorialCover, prepare_editorial_cover}
use avvalo.Content.Images.Bounded.{prepare_editorial_cover-ArePrepared}
use avvalo.Content.Repo.{
  EditorialPostDraft, EditorialPost, normalized, is_published, post_id, post_slug, create_post,
  update_post, get_admin_post, is_uzbek, get_published_post, get_admin_cover, get_published_cover,
}
use avvalo.Content.Repo.Sound.{ArePosts, create_post-ArePosts, update_post-ArePosts}
use avvalo.Content.Repo.Public.{
  IsSaved, texts_in, texts_shown, rewritten-IsSaved, appended-IsSaved, IsSaved-get_published_post,
}
use avvalo.Web.Posts.{
  CoverForm, read_cover_upload, existing_post, created, updated, save_admin_post,
}

-- A step of the editor: it stores whole articles, and the saved one is the row of the id.
module _ (py : Stdlib) (open_image : List ℕ → Option Picture) (draft : EditorialPostDraft) where
  -- What the saved article is
  record Stores (id : ℕ) (posts : List EditorialPost) : Type 0 where
    pub values : EditorialPostDraft
    pub valid : normalized py draft ≡ ok values
    pub saved : IsSaved values id posts

  create_post-Stores :
      (cover : Option PreparedEditorialCover) (id now : ℕ) (posts : List EditorialPost)
      (result : Raises EditorialPostDraft)
      → is_used post_id id posts ≡ false
      → normalized py draft ≡ result
      → Ensures (Stores id) (create_post py draft cover id now posts)
  unfolding create_post
  create_post-Stores cover id now posts (raised error) u h = rw h Ensures.fails
  create_post-Stores cover id now posts (ok values) u h = rw h (
      Ensures-require (not (is_taken post_id post_slug id values.slug posts)) _ _ λ free.
        Ensures.returns (record {
          values = values;
          valid = h;
          saved = appended-IsSaved values cover id now posts u (ground arith);
        }))

  update_post-Stores :
      (cover : Option PreparedEditorialCover) (id now : ℕ) (posts : List EditorialPost)
      (existing : EditorialPost) (result : Raises EditorialPostDraft)
      → ArePosts py posts
      → get_admin_post id posts ≡ some existing
      → normalized py draft ≡ result
      → Ensures (Stores id) (update_post py draft cover id now posts)
  unfolding update_post
  update_post-Stores cover id now posts existing (raised error) a g h = rw h Ensures.fails
  update_post-Stores cover id now posts existing (ok values) a g h = rw h (
      Ensures-require (not (is_taken post_id post_slug id values.slug posts)) _ _ λ free.
        Ensures.returns (record {
          values = values;
          valid = h;
          saved = rewritten-IsSaved values cover id now posts existing a.table (ground arith) g;
        }))

  created-Stores :
      (form : CoverForm) (id now : ℕ) (posts : List EditorialPost)
      → is_used post_id id posts ≡ false
      → Ensures (Stores id) (created py open_image draft form id now posts)
  unfolding created
  created-Stores form id now posts u = Ensures-then (read_cover_upload form.upload) _ λ uploaded.
      Ensures-then
        (prepare_editorial_cover open_image uploaded form.alt_uz_latn form.alt_ru form.remove false)
        _ λ cover. create_post-Stores cover id now posts (normalized py draft) u refl

  found_post :
      (found : Option EditorialPost)
      → Ensures (λ (existing : EditorialPost). found ≡ some existing) (existing_post found)
  found_post none = Ensures.fails
  found_post (some existing) = Ensures.returns refl

  updated-Stores :
      (form : CoverForm) (id now : ℕ) (posts : List EditorialPost)
      → ArePosts py posts
      → Ensures (Stores id) (updated py open_image draft form id now posts)
  unfolding updated
  updated-Stores form id now posts a =
      Ensures-bind (found_post (get_admin_post id posts)) λ existing g.
        Ensures-then (read_cover_upload form.upload) _ λ uploaded.
          Ensures-then
            (prepare_editorial_cover open_image uploaded form.alt_uz_latn form.alt_ru form.remove
              (is_some existing.cover.cover_media_type))
            _ λ cover. update_post-Stores cover id now posts existing (normalized py draft) a g refl

  created-ArePosts :
      (form : CoverForm) (id now : ℕ) (posts : List EditorialPost)
      → is_used post_id id posts ≡ false
      → ArePosts py posts
      → Ensures (ArePosts py) (created py open_image draft form id now posts)
  unfolding created
  created-ArePosts form id now posts u a =
      Ensures-then (read_cover_upload form.upload) _ λ uploaded.
        Ensures-bind
          (prepare_editorial_cover-ArePrepared open_image uploaded form.alt_uz_latn form.alt_ru
            form.remove false)
          λ cover c. create_post-ArePosts py draft cover id now posts u c a

  updated-ArePosts :
      (form : CoverForm) (id now : ℕ) (posts : List EditorialPost)
      → ArePosts py posts
      → Ensures (ArePosts py) (updated py open_image draft form id now posts)
  unfolding updated
  updated-ArePosts form id now posts a =
      Ensures-bind (found_post (get_admin_post id posts)) λ existing g.
        Ensures-then (read_cover_upload form.upload) _ λ uploaded.
          Ensures-bind
            (prepare_editorial_cover-ArePrepared open_image uploaded form.alt_uz_latn form.alt_ru
              form.remove (is_some existing.cover.cover_media_type))
            λ cover c. update_post-ArePosts py draft cover id now posts existing g c a

  -- The public reads of the slug show the article with its cover, where it is published, and nothing
  -- where it is a draft.
  pub Shows : ℕ → String → List EditorialPost → Type 0
  Shows id language posts =
      (values : EditorialPostDraft) × (normalized py draft ≡ ok values)
      × (texts_shown (get_published_post values.slug language posts)
          ≡ ok (if is_published values then some (texts_in (is_uzbek language) values) else none))
      × (get_published_cover values.slug posts
          ≡ (if is_published values then get_admin_cover id posts else none))

  Stores-Shows :
      (id : ℕ) (language : String) (posts : List EditorialPost)
      → Stores id posts
      → Shows id language posts
  unfolding Shows
  Stores-Shows id language posts s =
      let reads = IsSaved-get_published_post s.values id posts language s.saved in
      (s.values, s.valid, reads.0, reads.1)

abbrev saved_id : Option ℕ → ℕ → ℕ
saved_id none fresh = fresh
saved_id (some id) fresh = id

-- An article that the editor has taken, new or stored, is what the site shows under its slug: its
-- texts in the language of the reader and its cover where it is published, and neither where it is a
-- draft. The rows stay whole articles, one for an id and one for a slug.
pub save_admin_post-Shows :
    (py : Stdlib) (open_image : List ℕ → Option Picture) (edited : Option ℕ)
    (draft : EditorialPostDraft) (form : CoverForm) (fresh now : ℕ) (language : String)
    (posts next : List EditorialPost)
    → ArePosts py posts
    → is_used post_id fresh posts ≡ false
    → save_admin_post py open_image edited draft form fresh now posts ≡ ok next
    → ArePosts py next × Shows py open_image draft (saved_id edited fresh) language next
unfolding save_admin_post
save_admin_post-Shows py open_image none draft form fresh now language posts next a u h = (
  Ensures-ok _ next (created-ArePosts py open_image draft form fresh now posts u a) h,
  Stores-Shows py open_image draft fresh language next
      (Ensures-ok _ next (created-Stores py open_image draft form fresh now posts u) h),
)
save_admin_post-Shows py open_image (some id) draft form fresh now language posts next a u h = (
  Ensures-ok _ next (updated-ArePosts py open_image draft form id now posts a) h,
  Stores-Shows py open_image draft id language next
      (Ensures-ok _ next (updated-Stores py open_image draft form id now posts a) h),
)
