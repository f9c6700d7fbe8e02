-- ===== src/Data/Retention/Linked.antt =====
-- What the cleanup leaves, and the answers whose checks are stored.
use avvalo.Prelude.{
  ℕ, ◌+◌, String, Bool, true, false, not, List, [], ◌∷◌, length, keep, map, ◌==◌, All, ◌≡◌, refl,
  arith,
}
use avvalo.Data.Store.{CheckEvent, Feedback, Database}
use avvalo.Data.Deletion.{has_id, check_ids, delete_user_data}
use avvalo.Data.Retention.{
  RetentionPolicy, RetentionResult, is_expired, is_stale, is_lapsed, is_spent, is_closed,
  cleanup_expired,
}

abbrev event_ids : List CheckEvent → List ℕ
event_ids events = map (λ (e : CheckEvent). e.id) events

-- Each answer is to a check that is stored.
abbrev pub IsLinked : Database → Type 0
IsLinked db =
    All (λ (f : Feedback). has_id f.check_id (event_ids db.check_events) ≡ true) db.feedback

-- An id that no dropped event has is still there.
has_id-kept :
    (n : ℕ) (drop : CheckEvent → Bool) (events : List CheckEvent)
    → has_id n (event_ids events) ≡ true
    → has_id n (event_ids (keep drop events)) ≡ false
    → has_id n (event_ids (keep (λ e. not (drop e)) events)) ≡ true
has_id-kept n drop [] h d = h
has_id-kept n drop (e ∷ events) h d = ground (arith, has_id-kept n drop events)

-- Rows are dropped with the answers to them.
linked_if_dropped :
    (drop : CheckEvent → Bool) (stale : Feedback → Bool) (events : List CheckEvent)
    (answers : List Feedback)
    → ((f : Feedback) → stale f ≡ false → has_id f.check_id (event_ids (keep drop events)) ≡ false)
    → All (λ (f : Feedback). has_id f.check_id (event_ids events) ≡ true) answers
    → All
        (λ (f : Feedback). has_id f.check_id (event_ids (keep (λ e. not (drop e)) events)) ≡ true)
        (keep (λ f. not (stale f)) answers)
linked_if_dropped drop stale events [] s h = tt
linked_if_dropped drop stale events (f ∷ answers) s h = ground (
  arith,
  h.0,
  s f,
  has_id-kept f.check_id drop events h.0,
  linked_if_dropped drop stale events answers s h.1,
)

-- The cleanup and a deletion keep each answer with its check: when every answer is to a stored check,
-- so is every answer that is left.
pub cleanup_expired-IsLinked :
    (policy : RetentionPolicy) (now : ℕ) (audit_key : String → String) (user_key : String)
    (db : Database)
    → IsLinked db
    → IsLinked (cleanup_expired policy now db).0
      × IsLinked (delete_user_data audit_key user_key now db)
unfolding cleanup_expired delete_user_data
cleanup_expired-IsLinked policy now audit_key user_key db h = (
  linked_if_dropped (is_expired policy now) (is_stale policy now db.check_events) db.check_events
      db.feedback (λ f s. ground arith) h,
  linked_if_dropped (λ e. e.user_key == user_key) (λ f. has_id f.check_id (check_ids user_key db))
      db.check_events db.feedback (λ f s. s) h,
)

length-keep-not {ℓ} :
    {A : Type ℓ} (p : A → Bool) (xs : List A)
    → length (keep (λ x. not (p x)) xs) + length (keep p xs) ≡ length xs
length-keep-not p [] = refl
length-keep-not p (x ∷ xs) = ground (arith, length-keep-not p xs)

-- The reported counts are the rows that are gone, table by table.
record Accounts (before after : Database) (result : RetentionResult) : Type 0 where
  pub check_events : length after.check_events + result.check_events ≡ length before.check_events
  pub feedback : length after.feedback + result.feedback ≡ length before.feedback
  pub consent : length after.consents + result.consent ≡ length before.consents
  pub rate_limits : length after.rate_limits + result.rate_limits ≡ length before.rate_limits
  pub deletion_logs : length after.deletion_log + result.deletion_logs ≡ length before.deletion_log

cleanup_expired-Accounts :
    (policy : RetentionPolicy) (now : ℕ) (db : Database)
    → Accounts db (cleanup_expired policy now db).0 (cleanup_expired policy now db).1
unfolding cleanup_expired
cleanup_expired-Accounts policy now db = record {
  check_events = length-keep-not (is_expired policy now) db.check_events;
  feedback = length-keep-not (is_stale policy now db.check_events) db.feedback;
  consent = length-keep-not (is_lapsed policy now) db.consents;
  rate_limits = length-keep-not (is_spent policy now) db.rate_limits;
  deletion_logs = length-keep-not (is_closed policy now) db.deletion_log;
}
