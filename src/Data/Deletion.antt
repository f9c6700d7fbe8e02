-- ===== src/Data/Deletion.antt =====
-- `delete_user_data` of app/data/repo.py.
use avvalo.Prelude.{
  ℕ, String, Bool, not, List, [], ◌∷◌, ◌++◌, none, some, ◌≡◌, refl, ap, arith, ◌==◌, eq_iff, nat_eq,
  any, keep, map, if◌then◌else◌, Bool-cases, inl, inr,
}
use avvalo.Data.Store.{Consent, CheckEvent, Feedback, RateLimit, UsageKey, Database}
use avvalo.Data.Usage.{count_of}
use avvalo.Data.Events.{find_consent, get_consent, find_feedback}

abbrev pub has_id : ℕ → List ℕ → Bool
has_id n ids = any (λ i. nat_eq i n) ids

-- The ids of a user's check events.
abbrev pub check_ids : String → Database → List ℕ
check_ids user_key db =
    map (λ (e : CheckEvent). e.id) (keep (λ e. e.user_key == user_key) db.check_events)

-- The audit key is a hash of the user's key; the function is given.
unfoldable pub delete_user_data : (String → String) → String → ℕ → Database → Database
delete_user_data audit_key user_key now db = record {
  feedback = keep (λ f. not (has_id f.check_id (check_ids user_key db))) db.feedback;
  check_events = keep (λ e. not (e.user_key == user_key)) db.check_events;
  consents = keep (λ c. not (c.user_key == user_key)) db.consents;
  rate_limits = keep (λ r. not (r.key.user_key == user_key)) db.rate_limits;
  deletion_log =
      db.deletion_log
      ++ record { user_key = audit_key user_key; requested_ts = now; completed_ts = some now } ∷ [];
}

-- The checks that a key has made
unfoldable pub events_of : String → Database → List CheckEvent
events_of user_key db = keep (λ e. e.user_key == user_key) db.check_events

find_consent-keep :
    (user_key k : String) (rows : List Consent)
    → find_consent k (keep (λ c. not (c.user_key == user_key)) rows)
      ≡ (if user_key == k then none else find_consent k rows)
unfolding find_consent
find_consent-keep user_key k [] = ground arith
find_consent-keep user_key k (row ∷ rows) = ground (
  arith,
  eq_iff row.user_key user_key,
  eq_iff row.user_key k,
  eq_iff user_key k,
  find_consent-keep user_key k rows,
)

count_of-keep :
    (user_key : String) (key : UsageKey) (rows : List RateLimit)
    → count_of key (keep (λ r. not (r.key.user_key == user_key)) rows)
      ≡ (if user_key == key.user_key then 0 else count_of key rows)
unfolding count_of
count_of-keep user_key key [] = ground arith
count_of-keep user_key key (row ∷ rows) = ground (
  arith,
  eq_iff row.key.user_key user_key,
  eq_iff row.key.user_key key.user_key,
  eq_iff user_key key.user_key,
  count_of-keep user_key key rows,
)

events_of-keep :
    (user_key k : String) (rows : List CheckEvent)
    → keep (λ e. e.user_key == k) (keep (λ e. not (e.user_key == user_key)) rows)
      ≡ (if user_key == k then [] else keep (λ e. e.user_key == k) rows)
events_of-keep user_key k [] = ground arith
events_of-keep user_key k (row ∷ rows) = ground (
  arith,
  eq_iff row.user_key user_key,
  eq_iff row.user_key k,
  eq_iff user_key k,
  events_of-keep user_key k rows,
)

find_feedback-keep :
    (ids : List ℕ) (id : ℕ) (rows : List Feedback)
    → find_feedback id (keep (λ f. not (has_id f.check_id ids)) rows)
      ≡ (if has_id id ids then none else find_feedback id rows)
unfolding find_feedback
find_feedback-keep ids id [] = ground arith
find_feedback-keep ids id (row ∷ rows) = elim (Bool-cases (nat_eq row.check_id id)) [
  | inl same ↦
      let e : row.check_id ≡ id = ground arith in
      ground (arith, ap (λ n. has_id n ids) e, find_feedback-keep ids id rows)
  | inr other ↦ ground (arith, find_feedback-keep ids id rows)
]

-- After a deletion every look-up finds nothing of the user and of anybody else what it found before: a
-- consent, a counter, the checks of a key, and the answer to a check, which is gone where the check was
-- the user's. The log of deletions, which is kept, gets one row, under the user's audit key.
pub delete_user_data_lem :
    (audit_key : String → String) (user_key : String) (now : ℕ) (db : Database) (k : String)
    (key : UsageKey) (id : ℕ)
    → let after = delete_user_data audit_key user_key now db in
      (get_consent k after ≡ (if user_key == k then none else get_consent k db))
      × (count_of key after.rate_limits
          ≡ (if user_key == key.user_key then 0 else count_of key db.rate_limits))
      × (events_of k after ≡ (if user_key == k then [] else events_of k db))
      × (find_feedback id after.feedback ≡ (
          if has_id id (map (λ (e : CheckEvent). e.id) (events_of user_key db))
          then none
          else find_feedback id db.feedback))
      × (after.deletion_log
          ≡ db.deletion_log
            ++ record { user_key = audit_key user_key; requested_ts = now; completed_ts = some now }
              ∷ [])
unfolding delete_user_data events_of
delete_user_data_lem audit_key user_key now db k key id = (
  find_consent-keep user_key k db.consents,
  count_of-keep user_key key db.rate_limits,
  events_of-keep user_key k db.check_events,
  find_feedback-keep (check_ids user_key db) id db.feedback,
  refl,
)
