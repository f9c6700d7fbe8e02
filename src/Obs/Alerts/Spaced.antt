-- ===== src/Obs/Alerts/Spaced.antt =====
-- How the alerts of a run follow one another.
use avvalo.Prelude.{
  ℕ, ◌+◌, ◌≤◌, String, Bool, true, false, not, ◌||◌, List, [], ◌∷◌, Option, none, some, ◌==◌, leb,
  if◌then◌else◌, lookup, insert, lookup-insert, eq_iff, All, ◌≡◌, arith,
}
use avvalo.Obs.Alerts.{
  Emission, Alert, is_alert, alert_key, is_debounced, emit_record, emit, add_alert, alerts,
}

-- Not an alert of the key, or one that comes late enough.
abbrev is_later : ℕ → String → ℕ → Alert → Bool
is_later debounce key now alert = not (alert.key == key) || leb (now + debounce) alert.now

-- Two alerts of one key are the window apart.
abbrev pub IsSpaced : ℕ → List Alert → Type 0
IsSpaced debounce [] = Unit
IsSpaced debounce (alert ∷ rest) =
    All (λ (later : Alert). is_later debounce alert.key alert.now later ≡ true) rest
    × IsSpaced debounce rest

either {ℓ} : {A : Type ℓ} (P : A → Type 0) (b : Bool) {x y : A} → P x → P y → P (if b then x else y)
either P true p q = p
either P false p q = q

module _ (debounce : ℕ) where
  -- Once an alert of the key went out at `now` or later, no other comes before the window is over.
  waits :
      (key : String) (now last : ℕ) (emissions : List Emission) (last_sent : List (String × ℕ))
      → lookup key last_sent ≡ some last
      → now ≤ last
      → All
          (λ (later : Alert). is_later debounce key now later ≡ true)
          (alerts debounce emissions last_sent)
  unfolding alerts emit
  waits key now last [] last_sent h le = tt
  waits key now last (e ∷ emissions) last_sent h le =
      elim e.fields
        as (λ fields.
          let result = emit_record debounce fields e.now e.looping last_sent in
          All (λ (later : Alert). is_later debounce key now later ≡ true)
            (add_alert debounce result.1 (alerts debounce emissions result.0))) [
              | none ↦ waits key now last emissions last_sent h le
              | some fields ↦ ground (
                arith,
                eq_iff (alert_key fields) key,
                lookup-insert (alert_key fields) key e.now last_sent,
                waits key now last emissions last_sent h le,
                waits key now last emissions (insert (alert_key fields) e.now last_sent),
                waits key now e.now emissions (insert (alert_key fields) e.now last_sent),
              )
            ]

  abbrev Rest : List Emission → List (String × ℕ) × Option Alert → Type 0
  Rest emissions result =
      IsSpaced debounce (add_alert debounce result.1 (alerts debounce emissions result.0))

  -- In any run, two alerts of one stage and error type are at least the debounce window apart.
  pub alerts-IsSpaced :
      (emissions : List Emission) (last_sent : List (String × ℕ))
      → IsSpaced debounce (alerts debounce emissions last_sent)
  unfolding alerts emit
  alerts-IsSpaced [] last_sent = tt
  alerts-IsSpaced (e ∷ emissions) last_sent =
      elim e.fields
        as (λ fields. Rest emissions (emit_record debounce fields e.now e.looping last_sent)) [
          | none ↦ alerts-IsSpaced emissions last_sent
          | some fields ↦
              let key = alert_key fields in
              let noted = insert key e.now last_sent in
              either (Rest emissions) (not (is_alert fields)) (alerts-IsSpaced emissions last_sent)
                (either (Rest emissions) (is_debounced debounce e.now (lookup key last_sent))
                  (alerts-IsSpaced emissions last_sent)
                  (either (λ sent. Rest emissions (noted, sent)) e.looping
                    (
                      waits key e.now e.now emissions noted
                          (ground (arith, eq_iff key key, lookup-insert key key e.now last_sent))
                          (omega arith),
                      alerts-IsSpaced emissions noted,
                    )
                    (alerts-IsSpaced emissions noted)))
        ]
