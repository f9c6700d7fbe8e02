-- ===== src/Content/Images/Bounded.antt =====
-- What a prepared cover promises.
use avvalo.Prelude.{
  ℕ, String, Bool, true, false, not, ◌&&◌, List, Option, none, some, ◌≡◌, refl, arith, leb,
  is_blank, is_empty, is_some, len, length, strip, contains, if◌then◌else◌, Bool-cases, inl, inr,
}
use avvalo.Raises.{ok}
use avvalo.Raises.Ensures.{Ensures, Ensures-bind, Ensures-then, Ensures-require}
use avvalo.Content.Images.{
  cover_upload_max_bytes, cover_stored_max_bytes, cover_alt_max_chars, allowed_input_formats,
  is_sized, Picture, PreparedEditorialCover, normalize_alt, opened, stored_bytes, normalize_image,
  prepare_texts, prepare_editorial_cover,
}

-- A text that an image may carry
abbrev pub IsAlt : Option String → Type 0
IsAlt none = Unit
IsAlt (some alt) = (not (is_blank alt) && leb (len alt) cover_alt_max_chars) ≡ true

abbrev pub IsStored : Option (List ℕ) → Type 0
IsStored none = Unit
IsStored (some image_bytes) =
    (not (is_empty image_bytes) && leb (length image_bytes) cover_stored_max_bytes) ≡ true

-- A removal, or new texts in both languages with the image that is kept or replaced.
pub record IsPrepared (current_has_cover : Bool) (cover : PreparedEditorialCover) : Type 0 where
  pub stored : IsStored cover.image_bytes
  pub uz : IsAlt cover.alt_uz_latn
  pub ru : IsAlt cover.alt_ru
  pub alts : cover.clear ≡ false → (is_some cover.alt_uz_latn && is_some cover.alt_ru) ≡ true
  pub typed : is_some cover.media_type ≡ is_some cover.image_bytes
  pub image : cover.clear ≡ false → is_some cover.image_bytes ≡ false → current_has_cover ≡ true

abbrev pub ArePrepared : Bool → Option PreparedEditorialCover → Type 0
ArePrepared current_has_cover none = Unit
ArePrepared current_has_cover (some cover) = IsPrepared current_has_cover cover

normalize_alt-bounded :
    (value : String)
    → Ensures (λ (alt : String). leb (len alt) cover_alt_max_chars ≡ true) (normalize_alt value)
unfolding normalize_alt
normalize_alt-bounded value =
    Ensures-require (leb (len (strip value)) cover_alt_max_chars) _ _ λ h. Ensures.returns h

stored_bytes-IsStored :
    (webp : Option (List ℕ)) → Ensures (λ (b : List ℕ). IsStored (some b)) (stored_bytes webp)
stored_bytes-IsStored none = Ensures.fails
stored_bytes-IsStored (some prepared) =
    elim (Bool-cases (not (is_empty prepared) && leb (length prepared) cover_stored_max_bytes)) [
      | inl h ↦ rw h (Ensures.returns h)
      | inr h ↦ rw h Ensures.fails
    ]

module _ (open_image : List ℕ → Option Picture) where
  normalize_image-IsStored :
      (image_bytes : List ℕ)
      → Ensures (λ (b : List ℕ). IsStored (some b)) (normalize_image open_image image_bytes)
  unfolding normalize_image
  normalize_image-IsStored image_bytes = Ensures-then (opened (open_image image_bytes)) _ λ picture.
      Ensures-require (contains picture.format allowed_input_formats) _ _
        λ format. Ensures-require (is_sized picture) _ _ λ size. stored_bytes-IsStored picture.webp

  prepare_texts-ArePrepared :
      (image_bytes : Option (List ℕ)) (uz ru : String) (current_has_cover : Bool)
      → leb (len uz) cover_alt_max_chars ≡ true
      → leb (len ru) cover_alt_max_chars ≡ true
      → Ensures
          (ArePrepared current_has_cover)
          (prepare_texts open_image image_bytes uz ru current_has_cover)
  unfolding prepare_texts
  prepare_texts-ArePrepared (some image_bytes) uz ru current_has_cover u r =
      Ensures-require (not (is_empty image_bytes)) _ _ λ filled.
        Ensures-require (leb (length image_bytes) cover_upload_max_bytes) _ _ λ small.
          Ensures-require (not (is_blank uz) && not (is_blank ru)) _ _ λ given.
            Ensures-bind (normalize_image-IsStored image_bytes) λ b stored.
              Ensures.returns (record {
                stored = stored;
                uz = ground arith;
                ru = ground arith;
                alts = λ h. refl;
                typed = refl;
                image = λ h e. ground arith;
              })
  prepare_texts-ArePrepared none uz ru true u r =
      Ensures-require (not (is_blank uz) && not (is_blank ru)) _ _ λ given.
        Ensures.returns (record {
          stored = tt;
          uz = ground arith;
          ru = ground arith;
          alts = λ h. refl;
          typed = refl;
          image = λ h e. refl;
        })
  prepare_texts-ArePrepared none uz ru false u r =
      Ensures-require (is_blank uz && is_blank ru) _ _ λ blank. Ensures.returns tt

  removed-ArePrepared :
      (remove current_has_cover : Bool) (image_bytes : Option (List ℕ)) (uz ru : String)
      → leb (len uz) cover_alt_max_chars ≡ true
      → leb (len ru) cover_alt_max_chars ≡ true
      → Ensures (ArePrepared current_has_cover) (
          if remove
          then ok (
              some (record {
                image_bytes = none;
                media_type = none;
                alt_uz_latn = none;
                alt_ru = none;
                clear = true;
              }))
          else prepare_texts open_image image_bytes uz ru current_has_cover)
  removed-ArePrepared true current_has_cover image_bytes uz ru u r = Ensures.returns (record {
    stored = tt;
    uz = tt;
    ru = tt;
    alts = λ h. ground arith;
    typed = refl;
    image = λ h e. ground arith;
  })
  removed-ArePrepared false current_has_cover image_bytes uz ru u r =
      prepare_texts-ArePrepared image_bytes uz ru current_has_cover u r

  pub prepare_editorial_cover-ArePrepared :
      (image_bytes : Option (List ℕ)) (alt_uz_latn alt_ru : String)
      (remove current_has_cover : Bool)
      → Ensures (ArePrepared current_has_cover) (
          prepare_editorial_cover open_image image_bytes alt_uz_latn alt_ru remove
            current_has_cover)
  unfolding prepare_editorial_cover
  prepare_editorial_cover-ArePrepared image_bytes alt_uz_latn alt_ru remove current_has_cover =
      Ensures-bind (normalize_alt-bounded alt_uz_latn) λ uz u.
        Ensures-bind (normalize_alt-bounded alt_ru)
          λ ru r. removed-ArePrepared remove current_has_cover image_bytes uz ru u r
