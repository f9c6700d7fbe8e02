-- ===== src/Web/Posts.antt =====
-- The editor of articles in app/web/editorial.py: `admin_post_create` and `admin_post_update`, with
-- `_save_admin_post` behind them. What the handler has not committed is lost.
pub mod Shown
use Prim.Native.String.{◌++◌}
use avvalo.Prelude.{
  ℕ, String, Bool, true, false, List, Option, none, some, leb, length, is_some, if◌then◌else◌,
}
use avvalo.Stdlib.{Stdlib}
use avvalo.Raises.{Raises, ok, raised, ◌>>=◌}
use avvalo.Content.Images.{Picture, cover_upload_max_bytes, prepare_editorial_cover}
use avvalo.Content.Repo.{
  EditorialPostDraft, EditorialPost, create_post, update_post, get_admin_post,
}
use avvalo.Web.Gate.{Libraries, AdminRequest, normalize_language, Reply, post_gate, passed}

-- The cover fields of the form; the upload is `none` where it has no file name.
pub record CoverForm : Type 0 where
  pub upload : Option (List ℕ)
  pub alt_uz_latn : String
  pub alt_ru : String
  pub remove : Bool

-- `_read_cover_upload`: of a longer upload, one byte more than the limit is read.
abbrev pub read_cover_upload : Option (List ℕ) → Raises (Option (List ℕ))
read_cover_upload none = ok none
read_cover_upload (some content) =
    if leb (length content) cover_upload_max_bytes
    then ok (some content)
    else raised "cover_too_large"

abbrev pub existing_post : Option EditorialPost → Raises EditorialPost
existing_post none = raised "404"
existing_post (some post) = ok post

module _ (py : Stdlib) (open_image : List ℕ → Option Picture) where
  -- The session of `_save_admin_post` for a new article, which takes the id that is given
  unfoldable pub created :
      EditorialPostDraft → CoverForm → ℕ → ℕ → List EditorialPost → Raises (List EditorialPost)
  created draft form fresh now posts = do
    uploaded_bytes ← read_cover_upload form.upload
    cover ←
        prepare_editorial_cover open_image uploaded_bytes form.alt_uz_latn form.alt_ru form.remove
          false
    create_post py draft cover fresh now posts

  -- And for the article with the id
  pub updated :
      EditorialPostDraft → CoverForm → ℕ → ℕ → List EditorialPost → Raises (List EditorialPost)
  updated draft form id now posts = do
    existing ← existing_post (get_admin_post id posts)
    uploaded_bytes ← read_cover_upload form.upload
    cover ←
        prepare_editorial_cover open_image uploaded_bytes form.alt_uz_latn form.alt_ru form.remove
          (is_some existing.cover.cover_media_type)
    update_post py draft cover id now posts

  -- `_save_admin_post`, with or without an id
  unfoldable pub save_admin_post :
      Option ℕ
      → EditorialPostDraft
      → CoverForm
      → ℕ
      → ℕ
      → List EditorialPost
      → Raises (List EditorialPost)
  unfolding created updated
  save_admin_post none draft form fresh now posts = created draft form fresh now posts
  save_admin_post (some id) draft form fresh now posts = updated draft form id now posts

abbrev pub committed :
    String → Raises (List EditorialPost) → List EditorialPost → Reply × List EditorialPost
committed language (raised error) posts = (Reply.failed error, posts)
committed language (ok saved) posts =
    (Reply.sent ("/admin/posts?language=" ++ normalize_language language), saved)

module _ (lib : Libraries) (open_image : List ℕ → Option Picture) where
  -- `admin_post_create`
  unfoldable pub admin_post_create :
      AdminRequest
      → EditorialPostDraft
      → CoverForm
      → ℕ
      → ℕ
      → List EditorialPost
      → Reply × List EditorialPost
  unfolding save_admin_post
  admin_post_create r draft form fresh now posts =
      passed (post_gate lib r) r.storage
        (committed r.language (save_admin_post lib.py open_image none draft form fresh now posts)
          posts)
        posts

  -- `admin_post_update`
  unfoldable pub admin_post_update :
      AdminRequest
      → EditorialPostDraft
      → CoverForm
      → ℕ
      → ℕ
      → List EditorialPost
      → Reply × List EditorialPost
  unfolding save_admin_post
  admin_post_update r draft form id now posts =
      passed (post_gate lib r) r.storage
        (committed r.language (save_admin_post lib.py open_image (some id) draft form id now posts)
          posts)
        posts
