-- ===== src/KnowledgeStore/Draft/Overlong.antt =====
-- The ids that the editor takes, against those that a check event may carry.
use avvalo.Prelude.{
  ℕ, zero, suc, ◌+◌, ◌≤◌, Char, String, strip, strip_by, rstrip, rstrip_cons, is_space, ◌∙◌, Bool,
  true, false, List, [], ◌∷◌, ◌++◌, ◌≡◌, refl, ap, arith, eq_iff, all, contains, contains-append,
  leb, ltb, len, Bool-cases, inl, inr,
}
use avvalo.Stdlib.{Stdlib}
use avvalo.Raises.{Raises, ok, raised, ◌>>=◌, ◌>>◌, require, raises}
use avvalo.Raises.Ensures.{Ensures-ok}
use avvalo.Data.Store.{CheckEvent, Database}
use avvalo.Data.Events.{
  check_event_statuses, rule_id_re, validate_check_event_metadata, record_check_event,
}
use avvalo.KnowledgeStore.Draft.{KnowledgeCardDraft, normalized, card_of, as_card}
use avvalo.KnowledgeStore.Draft.Run.{IsRun, normalized-IsRun}

-- A text of one letter more than the number
unfoldable pub letters : ℕ → String
letters zero = String.◌∷◌ "b" String.[]
letters (suc n) = String.◌∷◌ "b" (letters n)

-- A card id of two parts
unfoldable pub long_id : ℕ → String
unfolding letters
long_id n = String.◌∷◌ "a" (String.◌∷◌ "." (letters n))

-- What is documented of `re` and `casefold`: `+` takes any number of letters, `{0,79}` at most 79, and
-- small ASCII letters are folded to themselves. The patterns stand as they are written.
pub record MatchesIds (py : Stdlib) : Type 0 where
  pub unbounded : (n : ℕ) → py.re_fullmatch "^[a-z][a-z0-9_]*(?:\\.[a-z0-9_]+)+$" (long_id n) ≡ true
  pub bounded :
      (s : String) → py.re_fullmatch "^[a-z][a-z0-9_.-]{0,79}$" s ≡ true → leb (len s) 80 ≡ true
  pub folded : (n : ℕ) → py.casefold (long_id n) ≡ long_id n

len-letters : (n : ℕ) → len (letters n) ≡ n + 1
unfolding letters
len-letters zero = refl
len-letters (suc n) = omega (arith, len-letters n)

len-long_id : (n : ℕ) → len (long_id n) ≡ n + 3
unfolding long_id
len-long_id n = omega (arith, len-letters n)

rstrip_cons-letters :
    (c : Char) (n : ℕ) → rstrip_cons is_space c (letters n) ≡ String.◌∷◌ c (letters n)
unfolding letters
rstrip_cons-letters c zero = refl
rstrip_cons-letters c (suc n) = refl

rstrip-letters : (n : ℕ) → rstrip is_space (letters n) ≡ letters n
unfolding letters
rstrip-letters zero = refl
rstrip-letters (suc n) =
    ap (rstrip_cons is_space "b") (rstrip-letters n) ∙ rstrip_cons-letters "b" n

strip-long_id : (n : ℕ) → strip (long_id n) ≡ long_id n
unfolding strip strip_by long_id
strip-long_id n =
    ap (λ s. rstrip_cons is_space "a" (rstrip_cons is_space "." s)) (rstrip-letters n)
    ∙ ap (rstrip_cons is_space "a") (rstrip_cons-letters "." n)

raises-require :
    (test : Bool) (m : Raises (Unit {0}))
    → raises m ≡ true
    → raises (require test "ValueError" >> m) ≡ true
raises-require true m h = h
raises-require false m h = refl

refuted :
    (test : String → Bool) (k : String) (ids : List String)
    → contains k ids ≡ true
    → test k ≡ false
    → all test ids ≡ false
refuted test k [] c f = ground arith
refuted test k (id ∷ ids) c f = ground (arith, eq_iff id k, refuted test k ids)

refused :
    (test : Bool) (m : Raises (Unit {0}))
    → test ≡ false
    → raises (require test "ValueError" >> m) ≡ true
refused true m h = ground arith
refused false m h = refl

module _ (py : Stdlib) where
  overlong :
      (id : String) → MatchesIds py → ltb 80 (len id) ≡ true → py.re_fullmatch rule_id_re id ≡ false
  overlong id m long = elim (Bool-cases (py.re_fullmatch rule_id_re id)) [
    | inl h ↦ ground (arith, m.bounded id h)
    | inr h ↦ h
  ]

  raises-validate_check_event_metadata :
      (id : String) (e : CheckEvent)
      → MatchesIds py
      → ltb 80 (len id) ≡ true
      → contains id e.knowledge_card_ids ≡ true
      → raises (validate_check_event_metadata py e) ≡ true
  unfolding validate_check_event_metadata
  raises-validate_check_event_metadata id e bounds long c =
      raises-require (contains e.input_type ("text" ∷ "image" ∷ [])) _ (
        raises-require (contains e.language ("uz_latn" ∷ "ru" ∷ [])) _ (
          raises-require (contains e.status check_event_statuses) _ (
            raises-require (all (py.re_fullmatch rule_id_re) e.rule_ids) _ (
              refused
                (all (py.re_fullmatch rule_id_re) (e.knowledge_card_ids ++ e.reviewed_case_ids)) _
                (refuted (py.re_fullmatch rule_id_re) id
                  (e.knowledge_card_ids ++ e.reviewed_case_ids)
                  (ground (arith, contains-append id e.knowledge_card_ids e.reviewed_case_ids))
                  (overlong id bounds long))))))

  raises-bind :
      (m : Raises (Unit {0})) (f : Unit {0} → Raises (ℕ × Database))
      → raises m ≡ true
      → raises (m >>= f) ≡ true
  raises-bind (ok tt) f h = ground arith
  raises-bind (raised error) f h = refl

  folded_id : (n : ℕ) → MatchesIds py → py.casefold (strip (long_id n)) ≡ long_id n
  folded_id n m = ap py.casefold (strip-long_id n) ∙ m.folded n

  renamed :
      (draft values : KnowledgeCardDraft) (n : ℕ)
      → MatchesIds py
      → IsRun py draft values
      → normalized py (record draft { card_id = long_id n })
        ≡ ok (record values { card_id = long_id n })
  unfolding normalized
  renamed draft values n m r =
      rw
        (
          folded_id n m,
          m.unbounded n,
          r.version_test,
          r.status_test,
          r.reviewer_test,
          r.mechanism_test,
          r.rules,
          r.kinds,
          r.cases,
          r.aliases,
          r.flags,
          r.steps,
          r.questions,
          r.version,
          r.status,
          r.reviewer,
          r.mechanism,
        )
        refl

  -- Every draft that validates also does with the card id `a.bb…b`, of any length from 81 characters on,
  -- and it gives a card with this id; but no check event that lists this card can be recorded.
  pub record_check_event_overlong :
      (draft values : KnowledgeCardDraft) (n : ℕ) (e : CheckEvent) (db : Database)
      → MatchesIds py
      → normalized py draft ≡ ok values
      → 78 ≤ n
      → contains (long_id n) e.knowledge_card_ids ≡ true
      → (len (long_id n) ≡ n + 3)
        × (as_card py (record draft { card_id = long_id n })
            ≡ ok (card_of py (record values { card_id = long_id n })))
        × (raises (record_check_event py e db) ≡ true)
  unfolding as_card record_check_event
  record_check_event_overlong draft values n e db m h long c = (
    len-long_id n,
    ap (λ (result : Raises KnowledgeCardDraft). result >>= λ v. ok (card_of py v))
        (renamed draft values n m (Ensures-ok _ values (normalized-IsRun py draft) h)),
    raises-bind (validate_check_event_metadata py e) _
        (raises-validate_check_event_metadata (long_id n) e m (ground (arith, len-long_id n)) c),
  )
