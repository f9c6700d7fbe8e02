-- ===== src/Web/Editors.antt =====
-- Who may change what the editors of app/web store: cards and articles.
use avvalo.Prelude.{ℕ, String, List, Option, none, some, ◌≡◌, ◌⊎◌}
use avvalo.Content.Images.{Picture}
use avvalo.Content.Repo.{EditorialPostDraft, EditorialPost}
use avvalo.KnowledgeStore.Draft.{KnowledgeCardDraft}
use avvalo.KnowledgeStore.Repo.{get_card}
use avvalo.KnowledgeStore.Publish.{Surroundings, CardStore}
use avvalo.Web.Gate.{Libraries, AdminRequest}
use avvalo.Web.Gate.Guarded.{IsAdmitted, passed-IsAdmitted, both_or}
use avvalo.Web.Cards
use avvalo.Web.Cards.{edited, remaining, admin_card_save, admin_card_delete}
use avvalo.Web.Posts
use avvalo.Web.Posts.{CoverForm, save_admin_post, admin_post_create, admin_post_update}

module _ (s : Surroundings) (lib : Libraries) where
  cards-IsAdmitted :
      (r : AdminRequest) (uuid : String → Option ℕ) (override_id : String)
      (draft : KnowledgeCardDraft) (fresh now id : ℕ) (store : CardStore)
      → IsAdmitted lib r
        ⊎ ((admin_card_save s lib r uuid override_id draft fresh now store).1 ≡ store)
          × ((admin_card_delete s lib r id store).1 ≡ store)
  unfolding admin_card_save admin_card_delete
  cards-IsAdmitted r uuid override_id draft fresh now id store =
      both_or
        (passed-IsAdmitted lib r
          (Cards.committed s r.language (edited s uuid override_id draft fresh now store.rows)
            store)
          store)
        (passed-IsAdmitted lib r
          (Cards.committed s r.language (remaining s (get_card id store.rows) id store.rows) store)
          store)

  posts-IsAdmitted :
      (open_image : List ℕ → Option Picture) (r : AdminRequest) (draft : EditorialPostDraft)
      (form : CoverForm) (fresh now id : ℕ) (posts : List EditorialPost)
      → IsAdmitted lib r
        ⊎ ((admin_post_create lib open_image r draft form fresh now posts).1 ≡ posts)
          × ((admin_post_update lib open_image r draft form id now posts).1 ≡ posts)
  unfolding admin_post_create admin_post_update
  posts-IsAdmitted open_image r draft form fresh now id posts =
      both_or
        (passed-IsAdmitted lib r
          (Posts.committed r.language
            (save_admin_post lib.py open_image none draft form fresh now posts) posts)
          posts)
        (passed-IsAdmitted lib r
          (Posts.committed r.language
            (save_admin_post lib.py open_image (some id) draft form id now posts) posts)
          posts)

  -- A save or a deletion of a card, and a new article or an update of one, leave the stored cards, the
  -- knowledge base in force and the articles as they are, unless the browser does not report their
  -- request as cross-site, the request names no origin or the site's own, an access key is configured,
  -- and the request carries a time that is still ahead with its digest under the secret.
  pub editors-IsAdmitted :
      (open_image : List ℕ → Option Picture) (r : AdminRequest) (uuid : String → Option ℕ)
      (override_id : String) (card : KnowledgeCardDraft) (post : EditorialPostDraft)
      (form : CoverForm) (fresh now id : ℕ) (store : CardStore) (posts : List EditorialPost)
      → IsAdmitted lib r
        ⊎ (((admin_card_save s lib r uuid override_id card fresh now store).1 ≡ store)
            × ((admin_card_delete s lib r id store).1 ≡ store))
          × (((admin_post_create lib open_image r post form fresh now posts).1 ≡ posts)
              × ((admin_post_update lib open_image r post form id now posts).1 ≡ posts))
  editors-IsAdmitted open_image r uuid override_id card post form fresh now id store posts =
      both_or (cards-IsAdmitted r uuid override_id card fresh now id store)
        (posts-IsAdmitted open_image r post form fresh now id posts)
