-- ===== src/Engine/Knowledge/Loader/Sound.antt =====
-- What a loaded knowledge base satisfies.
use avvalo.Prelude.{
  String, true, false, not, ◌&&◌, List, [], ◌∷◌, ◌++◌, Option, none, some, ◌==◌, ◌≡◌, refl, arith,
  eq_iff, all, contains, contains-map-append, append-Distinct, All, All-append, Distinct,
  Bool-cases, inl, inr, is_empty, is_blank, strip,
}
use avvalo.Stdlib.{Stdlib}
use avvalo.Raises.{Raises, ok, raised}
use avvalo.Raises.Ensures.{Ensures, Ensures-bind, Ensures-then, Ensures-require, Ensures-ok}
use avvalo.Engine.Rules.Yaml.{Yaml, Yamls, get}
use avvalo.Engine.Knowledge.Types.{KnowledgeCard, KnowledgeBase, id_of_card, card_ids}
use avvalo.Engine.Knowledge.Loader.{
  id_re, kb_version_re, File, Files, read_yaml, as_version, as_cards, validated, LoadedCards,
  validate_card, add_card, load_cards, load_paths, load_directory, load_files, or_lookup_error,
  load_yaml_knowledge_base,
}

module _ (py : Stdlib) where
  -- A card that passed `_validate_card`
  pub record IsValidCard (card : KnowledgeCard) : Type 0 where
    pub id : py.re_fullmatch id_re card.id ≡ true
    pub version : py.re_fullmatch kb_version_re card.version ≡ true
    pub reviewed : is_blank (strip card.reviewer) ≡ false
    pub complete :
        (not (is_blank (strip card.mechanism))
          && not (is_empty card.verify_steps)
          && not (is_empty card.questions))
        ≡ true
    pub links : all (py.re_fullmatch id_re) (card.trigger_rule_ids ++ card.reviewed_case_ids) ≡ true

  -- One of the base
  pub record IsShippedCard (card : KnowledgeCard) : Type 0 where
    pub approved : card.status ≡ "approved"
    pub valid : IsValidCard card

  validate_card-IsValidCard :
      (card : KnowledgeCard) (seen : List String)
      → Ensures
          (λ (next : List String).
            (next ≡ card.id ∷ seen) × (contains card.id seen ≡ false) × IsValidCard card)
          (validate_card py card seen)
  unfolding validate_card
  validate_card-IsValidCard card seen = Ensures-require (py.re_fullmatch id_re card.id) _ _ λ id.
      Ensures-require (not (contains card.id seen)) _ _ λ fresh.
        Ensures-require (py.re_fullmatch kb_version_re card.version) _ _ λ version.
          Ensures-require (not (is_blank (strip card.reviewer))) _ _ λ reviewed.
            Ensures-require
              (not (is_blank (strip card.mechanism))
                && not (is_empty card.verify_steps)
                && not (is_empty card.questions))
              _ _
              λ complete.
                Ensures-require
                  (all (py.re_fullmatch id_re) (card.trigger_rule_ids ++ card.reviewed_case_ids)) _
                  _
                  λ links. Ensures.returns (
                    refl,
                    ground arith,
                    record {
                      id = id;
                      version = version;
                      reviewed = ground arith;
                      complete = complete;
                      links = links;
                    },
                  )

  -- Between two cards of the loop
  record IsLoaded (loaded : LoadedCards) : Type 0 where
    pub seen :
        (k : String) → contains k loaded.seen ≡ false → contains k (card_ids loaded.cards) ≡ false
    pub distinct : Distinct (card_ids loaded.cards)
    pub shipped : All IsShippedCard loaded.cards

  added-IsLoaded :
      (card : KnowledgeCard) (loaded : LoadedCards)
      → IsValidCard card
      → contains card.id loaded.seen ≡ false
      → IsLoaded loaded
      → card.status ≡ "approved"
      → IsLoaded (record { seen = card.id ∷ loaded.seen; cards = loaded.cards ++ card ∷ [] })
  added-IsLoaded card loaded v fresh l approved = record {
    seen = λ k h. ground (arith, l.seen k, contains-map-append id_of_card loaded.cards card k);
    distinct = append-Distinct id_of_card loaded.cards card l.distinct (l.seen card.id fresh);
    shipped =
        All-append IsShippedCard loaded.cards (card ∷ []) l.shipped
          (record { approved = approved; valid = v }, tt);
  }

  skipped-IsLoaded :
      (card : KnowledgeCard) (loaded : LoadedCards)
      → IsLoaded loaded
      → IsLoaded (record { seen = card.id ∷ loaded.seen; cards = loaded.cards })
  skipped-IsLoaded card loaded l = record {
    seen = λ k h. ground (arith, l.seen k);
    distinct = l.distinct;
    shipped = l.shipped;
  }

  add_card-IsLoaded :
      (card : KnowledgeCard) (loaded : LoadedCards)
      → IsLoaded loaded
      → Ensures IsLoaded (add_card py card loaded)
  unfolding add_card
  add_card-IsLoaded card loaded l =
      Ensures-bind (validate_card-IsValidCard card loaded.seen) λ next v. rw v.0 (
        Ensures.returns (elim (Bool-cases (card.status == "approved")) [
          | inl approved ↦
              rw approved (
                added-IsLoaded card loaded v.2 v.1 l
                  (ground (arith, eq_iff card.status "approved")))
          | inr other ↦ rw other (skipped-IsLoaded card loaded l)
        ]))

  module _ (model_validate : Yaml → Option KnowledgeCard) where
    load_cards-IsLoaded :
        (items : Yamls) (loaded : LoadedCards)
        → IsLoaded loaded
        → Ensures IsLoaded (load_cards py model_validate items loaded)
    unfolding load_cards
    load_cards-IsLoaded Yamls.nil loaded l = Ensures.returns l
    load_cards-IsLoaded (Yamls.cons raw_card rest) loaded l =
        Ensures-then (validated (model_validate raw_card)) _ λ card.
          Ensures-bind (add_card-IsLoaded card loaded l) λ next n. load_cards-IsLoaded rest next n

    load_paths-IsLoaded :
        (paths : List File) (loaded : LoadedCards)
        → IsLoaded loaded
        → Ensures IsLoaded (load_paths py model_validate paths loaded)
    unfolding load_paths
    load_paths-IsLoaded [] loaded l = Ensures.returns l
    load_paths-IsLoaded (path ∷ paths) loaded l = Ensures-then (read_yaml path) _ λ entries.
        Ensures-then (as_cards (get "cards" entries)) _ λ raw_cards.
          Ensures-bind (load_cards-IsLoaded raw_cards loaded l)
            λ next n. load_paths-IsLoaded paths next n

    -- The shipped base
    pub record IsShipped (base : KnowledgeBase) : Type 0 where
      pub version : py.re_fullmatch kb_version_re base.version ≡ true
      pub distinct : Distinct (card_ids base.cards)
      pub cards : All IsShippedCard base.cards

    as_version-matches :
        (value : Yaml)
        → Ensures
            (λ (version : String). py.re_fullmatch kb_version_re version ≡ true)
            (as_version py value)
    as_version-matches (Yaml.text version) =
        elim (Bool-cases (py.re_fullmatch kb_version_re version)) [
          | inl h ↦ rw h (Ensures.returns h)
          | inr h ↦ rw h Ensures.fails
        ]
    as_version-matches Yaml.null = Ensures.fails
    as_version-matches Yaml.other = Ensures.fails
    as_version-matches (Yaml.boolean b) = Ensures.fails
    as_version-matches (Yaml.number n) = Ensures.fails
    as_version-matches (Yaml.sequence items) = Ensures.fails
    as_version-matches (Yaml.mapping entries) = Ensures.fails

    load_directory-IsShipped :
        (version : String) (paths : Option (List File))
        → py.re_fullmatch kb_version_re version ≡ true
        → Ensures IsShipped (load_directory py model_validate version paths)
    unfolding load_directory
    load_directory-IsShipped version none h = Ensures.fails
    load_directory-IsShipped version (some paths) h =
        Ensures-bind
          (load_paths-IsLoaded paths (record { seen = []; cards = [] })
            (record { seen = λ k e. refl; distinct = tt; shipped = tt }))
          λ loaded l.
            Ensures.returns (record { version = h; distinct = l.distinct; cards = l.shipped })

    or_lookup_error-IsShipped :
        (result : Raises KnowledgeBase)
        → Ensures IsShipped result
        → Ensures IsShipped (or_lookup_error py model_validate result)
    or_lookup_error-IsShipped (ok base) e = e
    or_lookup_error-IsShipped (raised error) e = Ensures.fails

    pub loaded-IsShipped :
        (files : Files) → Ensures IsShipped (load_yaml_knowledge_base py model_validate files)
    unfolding load_yaml_knowledge_base load_files
    loaded-IsShipped files = or_lookup_error-IsShipped _ (
        Ensures-then (read_yaml files.version) _ λ version_data.
          Ensures-bind (as_version-matches (get "version" version_data))
            λ version h. load_directory-IsShipped version files.cards h)

    -- A knowledge base that loads has a version that a check event may carry, distinct card ids, and
    -- only approved cards, each with a reviewer, a mechanism, steps and questions, and with ids and
    -- links of the form that a check event may carry.
    pub load_yaml_knowledge_base-IsShipped :
        (files : Files) (base : KnowledgeBase)
        → load_yaml_knowledge_base py model_validate files ≡ ok base
        → IsShipped base
    load_yaml_knowledge_base-IsShipped files base h = Ensures-ok _ base (loaded-IsShipped files) h
