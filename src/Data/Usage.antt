-- ===== src/Data/Usage.antt =====
-- The daily counters of app/data/repo.py.
use avvalo.Prelude.{
  ℕ, ◌+◌, ◌-◌, String, Bool, true, ◌&&◌, ◌||◌, List, [], ◌∷◌, ◌≡◌, refl, arith, ◌==◌, eq_iff,
  nat_eq, ltb, if◌then◌else◌,
}
use avvalo.Raises.{Raises, ok, ◌>>◌, require}
use avvalo.Data.Store.{UsageKey, RateLimit, Database}

abbrev pub same_key : UsageKey → UsageKey → Bool
same_key a b = a.user_key == b.user_key && (a.scope == b.scope && nat_eq a.day b.day)

-- `row.count if row else 0`
unfoldable pub count_of : UsageKey → List RateLimit → ℕ
count_of key [] = 0
count_of key (row ∷ rows) = if same_key row.key key then row.count else count_of key rows

-- `INSERT … ON CONFLICT DO UPDATE SET count = count + 1`
unfoldable pub increment : UsageKey → List RateLimit → List RateLimit
increment key [] = record { key = key; count = 1 } ∷ []
increment key (row ∷ rows) =
    if same_key row.key key
    then record row { count = row.count + 1 } ∷ rows
    else row ∷ increment key rows

-- `UPDATE … SET count = count - 1 WHERE … AND count > 0`; the key is primary, so one row fits.
pub refund : UsageKey → List RateLimit → List RateLimit
refund key [] = []
refund key (row ∷ rows) =
    if same_key row.key key
    then record row { count = if ltb 0 row.count then row.count - 1 else row.count } ∷ rows
    else row ∷ refund key rows

-- `_validate_scope`
unfoldable pub validate_scope : String → Raises (Unit {0})
validate_scope scope = require (scope == "user" || scope == "web_ip") "ValueError"

unfoldable pub get_usage : UsageKey → Database → Raises ℕ
unfolding validate_scope
get_usage key db = do validate_scope key.scope; ok (count_of key db.rate_limits)

-- The new count, and the database behind the write.
unfoldable pub increment_usage : UsageKey → Database → Raises (ℕ × Database)
unfolding validate_scope
increment_usage key db = do
  validate_scope key.scope
  let rows = increment key db.rate_limits
  ok (count_of key rows, record db { rate_limits = rows })

unfoldable pub refund_usage : UsageKey → Database → Raises Database
unfolding validate_scope
refund_usage key db = do
  validate_scope key.scope
  ok (record db { rate_limits = refund key db.rate_limits })

-- The scope of a user's counter is valid, so that neither write raises.
pub increment_usage-user :
    (user_key : String) (day : ℕ) (db : Database)
    → (let key : UsageKey = record { user_key = user_key; scope = "user"; day = day } in
        let rows = increment key db.rate_limits in
        increment_usage key db ≡ ok (count_of key rows, record db { rate_limits = rows }))
unfolding increment_usage validate_scope
increment_usage-user user_key day db = refl

pub refund_usage-user :
    (user_key : String) (day : ℕ) (db : Database)
    → (let key : UsageKey = record { user_key = user_key; scope = "user"; day = day } in
        refund_usage key db ≡ ok (record db { rate_limits = refund key db.rate_limits }))
unfolding refund_usage validate_scope
refund_usage-user user_key day db = refl

pub same_key-eq : (a b : UsageKey) → same_key a b ≡ true → a ≡ b
same_key-eq a b h = ground (arith, eq_iff a.user_key b.user_key, eq_iff a.scope b.scope)

pub same_key_refl : (a : UsageKey) → same_key a a ≡ true
same_key_refl a = ground (arith, eq_iff a.user_key a.user_key, eq_iff a.scope a.scope)

-- Incrementing a key adds one to its counter, whether or not it has a row, and to no other.
pub count_of-increment :
    (key other : UsageKey) (rows : List RateLimit)
    → count_of other (increment key rows)
      ≡ (if same_key key other then count_of other rows + 1 else count_of other rows)
unfolding count_of increment
count_of-increment key other [] = ground arith
count_of-increment key other (row ∷ rows) = ground (
  arith,
  count_of-increment key other rows,
  same_key-eq row.key key,
  same_key-eq row.key other,
  same_key-eq key other,
  same_key_refl key,
)

-- A refund takes one from the counter of its key, and stops at zero.
pub count_of-refund :
    (key other : UsageKey) (rows : List RateLimit)
    → count_of other (refund key rows)
      ≡ (if same_key key other then count_of other rows - 1 else count_of other rows)
unfolding count_of refund
count_of-refund key other [] = ground arith
count_of-refund key other (row ∷ rows) = ground (
  arith,
  count_of-refund key other rows,
  same_key-eq row.key key,
  same_key-eq row.key other,
  same_key-eq key other,
  same_key_refl key,
)

-- A reservation that is refunded leaves every counter as it was.
pub refund-increment :
    (key other : UsageKey) (rows : List RateLimit)
    → count_of other (refund key (increment key rows)) ≡ count_of other rows
refund-increment key other rows =
    ground
      (arith, count_of-refund key other (increment key rows), count_of-increment key other rows)
