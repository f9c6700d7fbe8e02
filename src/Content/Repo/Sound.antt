-- ===== src/Content/Repo/Sound.antt =====
-- What holds of every stored article.
use avvalo.Prelude.{
  ℕ, String, Bool, true, false, not, ◌&&◌, List, [], ◌∷◌, Option, none, some, ◌≡◌, refl, subst,
  arith, leb, nat_eq, Bool-cases, inl, inr, map, All, All-append, contains, is_blank, is_some,
  strip, len,
}
use avvalo.Stdlib.{Stdlib}
use avvalo.Raises.Ensures.{Ensures, Ensures-bind, Ensures-require, Ensures-last}
use avvalo.Overrides.Table.{is_used, is_taken, replaced}
use avvalo.Overrides.Table.Unique.{IsTable, append-IsTable, is_taken-fresh, replaced-IsTable}
use avvalo.Content.Images.{PreparedEditorialCover}
use avvalo.Content.Images.Bounded.{IsAlt, IsStored, IsPrepared, ArePrepared}
use avvalo.Content.Repo.{
  categories, states, slug_re, slug_max_chars, title_max_chars, summary_max_chars,
  article_max_chars, EditorialPostDraft, validate_texts, normalized, Cover, no_cover, EditorialPost,
  apply_cover, is_published, first_published, post_of, rewritten, post_id, post_slug,
  get_admin_post, create_post, update_post,
}

-- A cover has both bytes and a type, or neither, and with them texts in both languages.
pub record IsCover (cover : Cover) : Type 0 where
  pub typed : is_some cover.cover_media_type ≡ is_some cover.cover_bytes
  pub stored : IsStored cover.cover_bytes
  pub uz : IsAlt cover.cover_alt_uz_latn
  pub ru : IsAlt cover.cover_alt_ru
  pub alts :
      is_some cover.cover_bytes ≡ true
      → (is_some cover.cover_alt_uz_latn && is_some cover.cover_alt_ru) ≡ true

no_cover-IsCover : IsCover no_cover
no_cover-IsCover = record { typed = refl; stored = tt; uz = tt; ru = tt; alts = λ h. ground arith }

kept-IsCover :
    (image_bytes : Option (List ℕ)) (media_type alt_uz_latn alt_ru : Option String) (clear : Bool)
    (old : Cover)
    → IsCover old
    → IsPrepared (is_some old.cover_media_type) (record {
      image_bytes = image_bytes;
      media_type = media_type;
      alt_uz_latn = alt_uz_latn;
      alt_ru = alt_ru;
      clear = clear;
    })
    → IsCover (
        apply_cover
          (some (record {
            image_bytes = image_bytes;
            media_type = media_type;
            alt_uz_latn = alt_uz_latn;
            alt_ru = alt_ru;
            clear = clear;
          }))
          old)
kept-IsCover image_bytes media_type alt_uz_latn alt_ru true old o p = no_cover-IsCover
kept-IsCover none media_type alt_uz_latn alt_ru false old o p = record {
  typed = o.typed;
  stored = o.stored;
  uz = p.uz;
  ru = p.ru;
  alts = λ h. p.alts refl;
}
kept-IsCover (some image_bytes) media_type alt_uz_latn alt_ru false old o p = record {
  typed = p.typed;
  stored = p.stored;
  uz = p.uz;
  ru = p.ru;
  alts = λ h. p.alts refl;
}

apply_cover-IsCover :
    (cover : Option PreparedEditorialCover) (old : Cover)
    → IsCover old
    → ArePrepared (is_some old.cover_media_type) cover
    → IsCover (apply_cover cover old)
apply_cover-IsCover none old o p = o
apply_cover-IsCover (some cover) old o p =
    kept-IsCover cover.image_bytes cover.media_type cover.alt_uz_latn cover.alt_ru cover.clear old o
      p

abbrev IsText : String → ℕ → Type 0
IsText value maximum = (not (is_blank value) && leb (len value) maximum) ≡ true

abbrev AreTexts : String → String → String → Type 0
AreTexts title summary article =
    IsText title title_max_chars
    × IsText summary summary_max_chars
    × IsText article article_max_chars

validate_texts-AreTexts :
    (title summary article : String)
    → Ensures
        (λ (u : Unit {0}). AreTexts title summary article)
        (validate_texts title summary article)
unfolding validate_texts
validate_texts-AreTexts title summary article =
    Ensures-require (not (is_blank title) && leb (len title) title_max_chars) _ _ λ t.
      Ensures-require (not (is_blank summary) && leb (len summary) summary_max_chars) _ _ λ s.
        Ensures-last (not (is_blank article) && leb (len article) article_max_chars) _
          λ a. (t, s, a)

abbrev or_post : Option EditorialPost → EditorialPost → EditorialPost
or_post none other = other
or_post (some post) other = post

module _ (py : Stdlib) where
  pub record IsDraft (values : EditorialPostDraft) : Type 0 where
    pub slug :
        (not (is_blank values.slug)
          && leb (len values.slug) slug_max_chars
          && py.re_fullmatch slug_re values.slug)
        ≡ true
    pub category : contains values.category categories ≡ true
    pub state : contains values.state states ≡ true
    pub uz : AreTexts values.title_uz_latn values.summary_uz_latn values.article_uz_latn
    pub ru : AreTexts values.title_ru values.summary_ru values.article_ru

  normalized-IsDraft : (draft : EditorialPostDraft) → Ensures IsDraft (normalized py draft)
  unfolding normalized
  normalized-IsDraft draft =
      let slug = py.casefold (strip draft.slug) in
      Ensures-require
        (not (is_blank slug) && leb (len slug) slug_max_chars && py.re_fullmatch slug_re slug) _ _
        λ s. Ensures-require (contains (strip draft.category) categories) _ _ λ c.
          Ensures-require (contains (strip draft.state) states) _ _ λ t.
            Ensures-bind
              (validate_texts-AreTexts (strip draft.title_uz_latn) (strip draft.summary_uz_latn)
                (strip draft.article_uz_latn))
              λ u uz.
                Ensures-bind
                  (validate_texts-AreTexts (strip draft.title_ru) (strip draft.summary_ru)
                    (strip draft.article_ru))
                  λ r ru.
                    Ensures.returns (record { slug = s; category = c; state = t; uz = uz; ru = ru })

  -- A stored article: its texts are within bounds, its cover is whole, and if it is published it has
  -- the time of its first publication.
  pub record IsPost (post : EditorialPost) : Type 0 where
    pub draft : IsDraft post.values
    pub cover : IsCover post.cover
    pub published : is_published post.values ≡ true → is_some post.published_ts ≡ true

  pub record ArePosts (posts : List EditorialPost) : Type 0 where
    pub table : IsTable post_id post_slug posts
    pub each : All IsPost posts

  first_published-some :
      (values : EditorialPostDraft) (now : ℕ) (old : Option ℕ)
      → is_published values ≡ true
      → is_some (first_published values now old) ≡ true
  first_published-some values now none h = ground arith
  first_published-some values now (some time) h = refl

  rewritten-IsPost :
      (values : EditorialPostDraft) (cover : Option PreparedEditorialCover) (now : ℕ)
      (post : EditorialPost)
      → IsDraft values
      → ArePrepared (is_some post.cover.cover_media_type) cover
      → IsPost post
      → IsPost (rewritten values cover now post)
  rewritten-IsPost values cover now post d c p = record {
    draft = d;
    cover = apply_cover-IsCover cover post.cover p.cover c;
    published = first_published-some values now post.published_ts;
  }

  -- The cover is prepared for the row with the id.
  abbrev PreparedFor : ℕ → Option PreparedEditorialCover → List EditorialPost → Type 0
  PreparedFor id cover posts =
      All
        (λ (post : EditorialPost).
          nat_eq post.id id ≡ true → ArePrepared (is_some post.cover.cover_media_type) cover)
        posts

  unused-PreparedFor :
      (id : ℕ) (cover : Option PreparedEditorialCover) (posts : List EditorialPost)
      → is_used post_id id posts ≡ false
      → PreparedFor id cover posts
  unused-PreparedFor id cover [] u = tt
  unused-PreparedFor id cover (post ∷ posts) u =
      (λ h. ground arith, unused-PreparedFor id cover posts (ground arith))

  -- The condition of the reads carries over to the map, since one row has the id.
  existing-PreparedFor :
      (id : ℕ) (cover : Option PreparedEditorialCover) (posts : List EditorialPost)
      (existing : EditorialPost)
      → IsTable post_id post_slug posts
      → get_admin_post id posts ≡ some existing
      → ArePrepared (is_some existing.cover.cover_media_type) cover
      → PreparedFor id cover posts
  existing-PreparedFor id cover [] existing t h c = tt
  existing-PreparedFor id cover (post ∷ posts) existing t h c =
      elim (Bool-cases (nat_eq post.id id)) [
        | inl found ↦ (
          λ e.
              let same : ◌≡◌ {A = Option EditorialPost} (some existing) (some post) =
                ground arith in
              subst
                (λ (o : Option EditorialPost).
                  ArePrepared (is_some (or_post o post).cover.cover_media_type) cover)
                same c,
          unused-PreparedFor id cover posts (ground (arith, t.0)),
        )
        | inr other ↦
            (λ e. ground arith, existing-PreparedFor id cover posts existing t.2 (ground arith) c)
      ]

  rewritten-All :
      (values : EditorialPostDraft) (cover : Option PreparedEditorialCover) (id now : ℕ)
      (posts : List EditorialPost)
      → IsDraft values
      → PreparedFor id cover posts
      → All IsPost posts
      → All IsPost (map (replaced post_id id (rewritten values cover now)) posts)
  rewritten-All values cover id now [] d c all = tt
  rewritten-All values cover id now (post ∷ posts) d c all = elim (Bool-cases (nat_eq post.id id)) [
    | inl found ↦ rw found (
      rewritten-IsPost values cover now post d (c.0 found) all.0,
      rewritten-All values cover id now posts d c.1 all.1,
    )
    | inr other ↦ rw other (all.0, rewritten-All values cover id now posts d c.1 all.1)
  ]

  -- A new article has no cover before.
  pub create_post-ArePosts :
      (draft : EditorialPostDraft) (cover : Option PreparedEditorialCover) (id now : ℕ)
      (posts : List EditorialPost)
      → is_used post_id id posts ≡ false
      → ArePrepared false cover
      → ArePosts posts
      → Ensures ArePosts (create_post py draft cover id now posts)
  unfolding create_post
  create_post-ArePosts draft cover id now posts u c a =
      Ensures-bind (normalized-IsDraft draft) λ values d.
        Ensures-require (not (is_taken post_id post_slug id values.slug posts)) _ _ λ h.
          Ensures.returns (record {
            table =
                append-IsTable post_id post_slug posts (post_of values cover id now) a.table u
                  (ground (arith, is_taken-fresh post_id post_slug id values.slug posts u));
            each = All-append IsPost posts (post_of values cover id now ∷ []) a.each (
              record {
                draft = d;
                cover = apply_cover-IsCover cover no_cover no_cover-IsCover c;
                published = first_published-some values now none;
              },
              tt,
            );
          })

  pub update_post-ArePosts :
      (draft : EditorialPostDraft) (cover : Option PreparedEditorialCover) (id now : ℕ)
      (posts : List EditorialPost) (existing : EditorialPost)
      → get_admin_post id posts ≡ some existing
      → ArePrepared (is_some existing.cover.cover_media_type) cover
      → ArePosts posts
      → Ensures ArePosts (update_post py draft cover id now posts)
  unfolding update_post
  update_post-ArePosts draft cover id now posts existing h c a =
      Ensures-bind (normalized-IsDraft draft) λ values d.
        Ensures-require (not (is_taken post_id post_slug id values.slug posts)) _ _ λ free.
          Ensures.returns (record {
            table =
                replaced-IsTable post_id post_slug (rewritten values cover now) values.slug
                  (λ post. refl) (λ post. refl) id posts a.table (ground arith);
            each =
                rewritten-All values cover id now posts d
                  (existing-PreparedFor id cover posts existing a.table h c) a.each;
          })
