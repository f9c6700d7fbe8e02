-- ===== src/Engine/Url/Distance.antt =====
-- `_levenshtein_at_most_one` and `_looks_like_brand` of app/engine/url.py, against the recursive
-- definition of the edit distance. The indices `i` and `j` stand as the suffixes that begin there.
use avvalo.Prelude.{
  ℕ, suc, ◌+◌, ◌-◌, ◌≤◌, min, code, String, Bool, true, false, ◌||◌, ◌≡◌, refl, arith, ◌==◌, eq_iff,
  if◌then◌else◌, ltb, leb, nat_eq, len,
}

-- `abs(a - b)`
abbrev gap : ℕ → ℕ → ℕ
gap a b = (a - b) + (b - a)

-- The loop; the lengths are those of the whole texts, and `edits` those made so far.
pub compare_from : ℕ → ℕ → ℕ → String → String → Bool
compare_from n m edits String.[] right = true
compare_from n m edits (String.◌∷◌ c s) String.[] = true
compare_from n m edits (String.◌∷◌ c s) (String.◌∷◌ d t) =
    let same = compare_from n m edits s t in
    let both = compare_from n m (edits + 1) s t in
    let left = compare_from n m (edits + 1) s (String.◌∷◌ d t) in
    let right = compare_from n m (edits + 1) (String.◌∷◌ c s) t in
    if nat_eq (code c) (code d)
    then same
    else if ltb 1 (edits + 1)
    then false
    else if nat_eq n m
    then both
    else if ltb m n
    then left
    else right

pub levenshtein_at_most_one : String → String → Bool
unfolding compare_from
levenshtein_at_most_one left right =
    if left == right
    then true
    else if ltb 1 (gap (len left) (len right))
    then false
    else compare_from (len left) (len right) 0 left right

pub looks_like_brand : String → String → Bool
unfolding levenshtein_at_most_one
looks_like_brand label brand =
    if ltb (len brand) 4 || ltb 2 (gap (len label) (len brand))
    then false
    else if label == brand
    then true
    else levenshtein_at_most_one label brand

-- The edit distance: insertions, deletions and substitutions of one character.
pub distance : String → String → ℕ
distance String.[] right = len right
distance (String.◌∷◌ c s) String.[] = suc (len s)
distance (String.◌∷◌ c s) (String.◌∷◌ d t) =
    let same = distance s t in
    let edited = suc (min same (min (distance s (String.◌∷◌ d t)) (distance (String.◌∷◌ c s) t))) in
    if nat_eq (code c) (code d) then same else edited

-- The distance is at least the difference of the lengths.
gap-le-distance : (s t : String) → (len s ≤ len t + distance s t) × (len t ≤ len s + distance s t)
unfolding distance
gap-le-distance String.[] t = (omega arith, omega arith)
gap-le-distance (String.◌∷◌ c s) String.[] = (omega arith, omega arith)
gap-le-distance (String.◌∷◌ c s) (String.◌∷◌ d t) = ground (
  arith,
  gap-le-distance s t,
  gap-le-distance s (String.◌∷◌ d t),
  gap-le-distance (String.◌∷◌ c s) t,
)

-- After one edit the loop asks whether the rests are equal.
compare_from_after_edit :
    (n m : ℕ) (s t : String) → len s ≡ len t → compare_from n m 1 s t ≡ nat_eq (distance s t) 0
unfolding compare_from distance
compare_from_after_edit n m String.[] String.[] h = refl
compare_from_after_edit n m String.[] (String.◌∷◌ d t) h = absurd (omega arith)
compare_from_after_edit n m (String.◌∷◌ c s) String.[] h = absurd (omega arith)
compare_from_after_edit n m (String.◌∷◌ c s) (String.◌∷◌ d t) h =
    ground (arith, compare_from_after_edit n m s t (omega arith))

-- Before an edit both indices stand at the same distance from their starts.
compare_from_before_edit :
    (n m : ℕ) (s t : String)
    → n + len t ≡ m + len s
    → gap n m ≤ 1
    → compare_from n m 0 s t ≡ leb (distance s t) 1
unfolding compare_from distance
compare_from_before_edit n m String.[] String.[] h g = refl
compare_from_before_edit n m String.[] (String.◌∷◌ d t) h g = ground arith
compare_from_before_edit n m (String.◌∷◌ c s) String.[] h g = ground arith
compare_from_before_edit n m (String.◌∷◌ c s) (String.◌∷◌ d t) h g = ground (
  arith,
  compare_from_before_edit n m s t,
  gap-le-distance s t,
  gap-le-distance s (String.◌∷◌ d t),
  gap-le-distance (String.◌∷◌ c s) t,
  compare_from_after_edit n m s t,
  compare_from_after_edit n m s (String.◌∷◌ d t),
  compare_from_after_edit n m (String.◌∷◌ c s) t,
)

distance_self : (s : String) → distance s s ≡ 0
unfolding distance
distance_self String.[] = refl
distance_self (String.◌∷◌ c s) = ground (arith, distance_self s)

-- The two-pointer comparison returns true exactly when the edit distance of the texts is at most 1.
pub levenshtein_at_most_one-eq-distance :
    (left right : String) → levenshtein_at_most_one left right ≡ leb (distance left right) 1
unfolding levenshtein_at_most_one
levenshtein_at_most_one-eq-distance left right = ground (
  arith,
  eq_iff left right,
  distance_self left,
  gap-le-distance left right,
  compare_from_before_edit (len left) (len right) left right,
)
