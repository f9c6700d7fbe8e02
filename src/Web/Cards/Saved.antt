-- ===== src/Web/Cards/Saved.antt =====
-- What a save or a deletion of a card leaves behind.
use avvalo.Prelude.{
  ℕ, String, true, false, List, Option, none, some, ◌≡◌, refl, ap, subst, arith, inl, inr, is_blank,
  Bool-cases,
}
use avvalo.Raises.{Raises, ok, raised}
use avvalo.Engine.Knowledge.Types.{KnowledgeBase, id_of_card}
use avvalo.Engine.Knowledge.Loader.{load}
use avvalo.Overrides.Merge.{find}
use avvalo.Overrides.Table.{is_used}
use avvalo.KnowledgeStore.Draft.{KnowledgeCardDraft}
use avvalo.KnowledgeStore.Repo.{KnowledgeCardOverride, row_id, get_card}
use avvalo.KnowledgeStore.Draft.Stored.{KeepsIds}
use avvalo.KnowledgeStore.Repo.Loaded.{row_of_card, card_by_row}
use avvalo.KnowledgeStore.Publish.{Surroundings, shipped, CardStore, Step, Reachable}
use avvalo.KnowledgeStore.Publish.Reached.{KeepsVersions}
use avvalo.KnowledgeStore.Publish.Refined.{refresh_knowledge_base_lem}
use avvalo.Web.Gate.{Libraries, AdminRequest, Reply, post_gate}
use avvalo.Web.Cards.{
  cards_page, reply_of, committed, updated_rows, updated, edited, remaining, admin_card_save,
}

abbrev or_rows :
    Raises (List KnowledgeCardOverride) → List KnowledgeCardOverride → List KnowledgeCardOverride
or_rows (ok rows) other = rows
or_rows (raised error) other = other

module _ (s : Surroundings) where
  updated-Step :
      (found : Option KnowledgeCardOverride) (draft : KnowledgeCardDraft) (id now : ℕ)
      (store : CardStore) (rows : List KnowledgeCardOverride)
      → updated_rows s found draft id now store.rows ≡ ok rows
      → Step s store (record store { rows = rows })
  updated-Step none draft id now store rows h = ground arith
  updated-Step (some existing) draft id now store rows h = Step.updated draft id now h

  named-Step :
      (id : Option ℕ) (draft : KnowledgeCardDraft) (now : ℕ) (store : CardStore)
      (rows : List KnowledgeCardOverride)
      → updated s id draft now store.rows ≡ ok rows
      → Step s store (record store { rows = rows })
  named-Step none draft now store rows h = ground arith
  named-Step (some id) draft now store rows h =
      updated-Step (get_card id store.rows) draft id now store rows h

  edited-Step :
      (uuid : String → Option ℕ) (override_id : String) (draft : KnowledgeCardDraft) (fresh now : ℕ)
      (store : CardStore) (rows : List KnowledgeCardOverride)
      → is_used row_id fresh store.rows ≡ false
      → edited s uuid override_id draft fresh now store.rows ≡ ok rows
      → Step s store (record store { rows = rows })
  edited-Step uuid override_id draft fresh now store rows u h =
      elim (Bool-cases (is_blank override_id)) [
        | inl blank ↦ Step.created draft fresh now u (ground arith)
        | inr given ↦ named-Step (uuid override_id) draft now store rows (ground arith)
      ]

  remaining-Step :
      (found : Option KnowledgeCardOverride) (id : ℕ) (store : CardStore)
      (rows : List KnowledgeCardOverride)
      → remaining s found id store.rows ≡ ok rows
      → Step s store (record store { rows = rows })
  remaining-Step none id store rows h = ground arith
  remaining-Step (some existing) id store rows h =
      subst
        (λ (r : Raises (List KnowledgeCardOverride)).
          Step s store (record store { rows = or_rows r rows }))
        h (Step.deleted id)

  -- The base in force holds under the id the card that the row of the id decides.
  abbrev pub InForce : KnowledgeBase → CardStore → String → Type 0
  InForce base store id =
      (found : KnowledgeBase) × (load s.py s.model_validate s.files store.active ≡ ok found)
      × (find id_of_card id found.cards
          ≡ card_by_row s.py (row_of_card id store.rows) (find id_of_card id base.cards))

  committed-InForce :
      (language : String) (base : KnowledgeBase) (store : CardStore)
      (rows : List KnowledgeCardOverride) (id : String)
      → KeepsIds s.py
      → KeepsVersions s.py s.strftime
      → shipped s ≡ ok base
      → Reachable s store
      → Step s store (record store { rows = rows })
      → let after = committed s language (ok rows) store in
        (after.0 ≡ Reply.sent (cards_page language))
        × (after.1.rows ≡ rows)
        × InForce base after.1 id
  committed-InForce language base store rows id ids versions h r step =
      let reached = Reachable.stepped r step in
      let f =
        refresh_knowledge_base_lem s base (record store { rows = rows }) id ids versions h
          reached in
      (ap (λ result. reply_of result language) f.1, refl, (f.0, f.2, f.3))

  module _ (lib : Libraries) where
    -- A save that passes the guards and whose edit the table takes never fails where the shipped files
    -- load: it answers with the list of cards, stores the edit, and puts a base in force that holds
    -- under every id the card that the row of the id decides.
    pub admin_card_save-InForce :
        (r : AdminRequest) (uuid : String → Option ℕ) (override_id : String)
        (draft : KnowledgeCardDraft) (fresh now : ℕ) (store : CardStore)
        (rows : List KnowledgeCardOverride) (base : KnowledgeBase) (id : String)
        → KeepsIds s.py
        → KeepsVersions s.py s.strftime
        → shipped s ≡ ok base
        → Reachable s store
        → post_gate lib r ≡ ok none
        → r.storage ≡ true
        → is_used row_id fresh store.rows ≡ false
        → edited s uuid override_id draft fresh now store.rows ≡ ok rows
        → let after = admin_card_save s lib r uuid override_id draft fresh now store in
          (after.0 ≡ Reply.sent (cards_page r.language))
          × (after.1.rows ≡ rows)
          × InForce base after.1 id
    unfolding admin_card_save
    admin_card_save-InForce r uuid override_id draft fresh now store rows base id ids versions h
          reached gate storage u e =
        let step = edited-Step uuid override_id draft fresh now store rows u e in
        rw (gate, storage, e)
          (committed-InForce r.language base store rows id ids versions h reached step)
