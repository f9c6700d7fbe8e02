-- ===== src/Data/Retention/Again.antt =====
-- A cleanup leaves nothing that is past its window, so that a second one deletes nothing.
use avvalo.Prelude.{
  ℕ, Bool, true, not, ◌||◌, List, [], ◌∷◌, length, keep, map, ◌≡◌, refl, ap, ◌∙◌, arith,
}
use avvalo.Data.Store.{CheckEvent, Feedback, Database}
use avvalo.Data.Deletion.{has_id}
use avvalo.Data.Retention.{
  RetentionPolicy, RetentionResult, is_before, is_expired, is_stale, is_lapsed, is_spent, is_closed,
  cleanup_expired,
}

module _ {ℓ} {A : Type ℓ} where
  keep-keep_weaker :
      (p q : A → Bool) (xs : List A)
      → ((x : A) → q x ≡ true → p x ≡ true)
      → keep p (keep q xs) ≡ keep q xs
  keep-keep_weaker p q [] h = refl
  keep-keep_weaker p q (x ∷ xs) h = ground (arith, h x, keep-keep_weaker p q xs h)

  keep-keep-not : (p : A → Bool) (xs : List A) → keep p (keep (λ x. not (p x)) xs) ≡ []
  keep-keep-not p [] = refl
  keep-keep-not p (x ∷ xs) = ground (arith, keep-keep-not p xs)

abbrev pub nothing_deleted : RetentionResult
nothing_deleted = record {
  check_events = 0;
  feedback = 0;
  consent = 0;
  rate_limits = 0;
  deletion_logs = 0;
}

module _ (policy : RetentionPolicy) (now : ℕ) where
  -- When no event is expired, the answers that a cleanup keeps are not stale.
  kept_answers :
      (events : List CheckEvent) (answers : List Feedback)
      → keep
          (λ f. not (is_stale policy now [] f))
          (keep (λ f. not (is_stale policy now events f)) answers)
        ≡ keep (λ f. not (is_stale policy now events f)) answers
  kept_answers events answers = keep-keep_weaker _ _ answers (λ f h. ground arith)

  no_answer :
      (events : List CheckEvent) (answers : List Feedback)
      → keep (is_stale policy now []) (keep (λ f. not (is_stale policy now events f)) answers) ≡ []
  no_answer events [] = refl
  no_answer events (f ∷ answers) = ground (arith, no_answer events answers)

  counted :
      (events : List CheckEvent) (answers : List Feedback)
      → length (
          keep
            (is_stale policy now (keep (λ e. not (is_expired policy now e)) events))
            (keep (λ f. not (is_stale policy now events f)) answers))
        ≡ 0
  counted events answers =
      ap
        (λ es. length (
          keep
            (λ (f : Feedback).
              is_before now policy.feedback_days f.ts
              || has_id f.check_id (map (λ (e : CheckEvent). e.id) es))
            (keep (λ f. not (is_stale policy now events f)) answers)))
        (keep-keep-not (is_expired policy now) events)
      ∙ ap length (no_answer events answers)

  twice :
      {A : Type 0} (p : A → Bool) (xs : List A)
      → keep (λ x. not (p x)) (keep (λ x. not (p x)) xs) ≡ keep (λ x. not (p x)) xs
  twice p xs = keep-keep_weaker _ _ xs (λ x h. h)

  -- At the same time a second cleanup changes nothing and reports no row.
  cleanup_expired_again :
      (db : Database)
      → (let after = (cleanup_expired policy now db).0 in
          cleanup_expired policy now after ≡ (after, nothing_deleted))
  unfolding cleanup_expired
  cleanup_expired_again db =
      simp
        (
          kept_answers db.check_events db.feedback,
          twice (is_expired policy now) db.check_events,
          twice (is_lapsed policy now) db.consents,
          twice (is_spent policy now) db.rate_limits,
          twice (is_closed policy now) db.deletion_log,
          keep-keep-not (is_expired policy now) db.check_events,
          keep-keep-not (is_lapsed policy now) db.consents,
          keep-keep-not (is_spent policy now) db.rate_limits,
          keep-keep-not (is_closed policy now) db.deletion_log,
        )
        (ap (λ n. ((cleanup_expired policy now db).0, record nothing_deleted { feedback = n }))
          (counted db.check_events db.feedback))
