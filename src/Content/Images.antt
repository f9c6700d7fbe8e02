-- ===== src/Content/Images.antt =====
-- app/content/images.py: the validation of a cover. Bytes are numbers. What Pillow makes of the bytes
-- is a parameter: `none` where `Image.open` raises, and else the format, the size and the frames of the
-- image, with its bytes as WebP, which are `none` where the conversion raises.
pub mod Bounded
use avvalo.Prelude.{
  ℕ, ◌*◌, String, Bool, true, false, not, ◌&&◌, ◌||◌, List, [], ◌∷◌, Option, none, some, leb, ltb,
  if◌then◌else◌, contains, is_blank, is_empty, strip, len, length,
}
use avvalo.Raises.{Raises, ok, raised, ◌>>=◌, ◌>>◌, require}

abbrev pub cover_upload_max_bytes : ℕ
cover_upload_max_bytes = 10485760

abbrev pub cover_stored_max_bytes : ℕ
cover_stored_max_bytes = 5242880

abbrev pub cover_alt_max_chars : ℕ
cover_alt_max_chars = 240

abbrev cover_media_type : String
cover_media_type = "image/webp"

abbrev pub allowed_input_formats : List String
allowed_input_formats = "JPEG" ∷ "PNG" ∷ "WEBP" ∷ []

abbrev max_image_dimension : ℕ
max_image_dimension = 8192

abbrev max_image_pixels : ℕ
max_image_pixels = 16000000

abbrev max_image_frames : ℕ
max_image_frames = 1

pub record Picture : Type 0 where
  pub format : String
  pub width : ℕ
  pub height : ℕ
  pub frames : ℕ
  pub webp : Option (List ℕ)

pub record PreparedEditorialCover : Type 0 where
  pub image_bytes : Option (List ℕ)
  pub media_type : Option String
  pub alt_uz_latn : Option String
  pub alt_ru : Option String
  pub clear : Bool

-- `_normalize_alt`
unfoldable pub normalize_alt : String → Raises String
normalize_alt value = do
  let normalized : String = strip value
  require (leb (len normalized) cover_alt_max_chars) "cover_alt_too_long"
  ok normalized

-- `_require_alt_text`
abbrev require_alt_text : String → String → Raises (Unit {0})
require_alt_text alt_uz_latn alt_ru =
    require (not (is_blank alt_uz_latn) && not (is_blank alt_ru)) "cover_alt_required"

abbrev pub is_sized : Picture → Bool
is_sized picture =
    leb 1 picture.width
    && leb 1 picture.height
    && leb picture.width max_image_dimension
    && leb picture.height max_image_dimension
    && leb (picture.width * picture.height) max_image_pixels
    && leb picture.frames max_image_frames

abbrev pub stored_bytes : Option (List ℕ) → Raises (List ℕ)
stored_bytes none = raised "invalid_cover"
stored_bytes (some prepared) =
    if not (is_empty prepared) && leb (length prepared) cover_stored_max_bytes
    then ok prepared
    else raised "cover_too_large"

abbrev pub opened : Option Picture → Raises Picture
opened none = raised "invalid_cover"
opened (some picture) = ok picture

module _ (open_image : List ℕ → Option Picture) where
  -- `_normalize_image`
  pub normalize_image : List ℕ → Raises (List ℕ)
  normalize_image image_bytes = do
    picture ← opened (open_image image_bytes)
    require (contains picture.format allowed_input_formats) "invalid_cover"
    require (is_sized picture) "invalid_cover"
    stored_bytes picture.webp

  -- The part of `prepare_editorial_cover` without a removal, with the normalized texts
  unfoldable pub prepare_texts :
      Option (List ℕ) → String → String → Bool → Raises (Option PreparedEditorialCover)
  unfolding normalize_image
  prepare_texts (some image_bytes) uz ru current_has_cover = do
    require (not (is_empty image_bytes)) "invalid_cover"
    require (leb (length image_bytes) cover_upload_max_bytes) "cover_too_large"
    require_alt_text uz ru
    normalized_image ← normalize_image image_bytes
    ok (
        some (record {
          image_bytes = some normalized_image;
          media_type = some cover_media_type;
          alt_uz_latn = some uz;
          alt_ru = some ru;
          clear = false;
        }))
  prepare_texts none uz ru true = do
    require_alt_text uz ru
    ok (
        some (record {
          image_bytes = none;
          media_type = none;
          alt_uz_latn = some uz;
          alt_ru = some ru;
          clear = false;
        }))
  prepare_texts none uz ru false = do
    require (is_blank uz && is_blank ru) "cover_alt_without_image"
    ok none

  -- `prepare_editorial_cover`
  unfoldable pub prepare_editorial_cover :
      Option (List ℕ) → String → String → Bool → Bool → Raises (Option PreparedEditorialCover)
  unfolding prepare_texts normalize_alt
  prepare_editorial_cover image_bytes alt_uz_latn alt_ru remove current_has_cover = do
    uz ← normalize_alt alt_uz_latn
    ru ← normalize_alt alt_ru
    if remove
        then ok (
            some (record {
              image_bytes = none;
              media_type = none;
              alt_uz_latn = none;
              alt_ru = none;
              clear = true;
            }))
        else prepare_texts image_bytes uz ru current_has_cover
