-- ===== src/Prelude/Keys.antt =====
-- Sets and dictionaries of Python with text keys. A `set` is a list that is only tested for
-- membership; a `dict` is an association list in insertion order.
use Prim.Native.Nat.{ℕ, zero, suc}
use Prim.Native.String.{String}
use mathlib.Core.Path.{◌≡◌, refl}
use mathlib.Core.Bool.{Bool, true, false, not, ◌&&◌, ◌||◌}
use mathlib.Core.Option.{Option, none, some}
use mathlib.Core.List.{List, [], ◌∷◌, ◌++◌, map}
use native.Mathlib.Omega.{arith}
use text.Mathlib.Text.{◌==◌}
use text.Mathlib.TextEquality.{eq_iff}
use avvalo.Prelude.Tests.{if◌then◌else◌}
use avvalo.Prelude.Lists.{all, any, take, keep, All}

-- `k in keys`
abbrev pub contains : String → List String → Bool
contains k [] = false
contains k (j ∷ js) = j == k || contains k js

-- `left.isdisjoint(right)`, on sets
abbrev pub is_disjoint : List String → List String → Bool
is_disjoint left right = not (any (λ k. contains k left) right)

-- `left.issuperset(right)`
abbrev pub is_superset : List String → List String → Bool
is_superset left right = all (λ k. contains k left) right

-- `dict.fromkeys(keys)`: each key once, where it stood first; `seen` holds the keys before.
abbrev pub fresh_from : List String → List String → List String
fresh_from seen [] = []
fresh_from seen (k ∷ ks) =
    let skipped = fresh_from seen ks in
    let rest = fresh_from (k ∷ seen) ks in if contains k seen then skipped else k ∷ rest

abbrev pub from_keys : List String → List String
from_keys = fresh_from []

module _ {ℓ} {V : Type ℓ} where
  -- `d.get(k)`
  abbrev pub lookup : String → List (String × V) → Option V
  lookup k [] = none
  lookup k ((j, v) ∷ d) = if j == k then some v else lookup k d

  -- `d[k] = v`: a key that is there keeps its place.
  abbrev pub insert : String → V → List (String × V) → List (String × V)
  insert k v [] = (k, v) ∷ []
  insert k v ((j, w) ∷ d) = if j == k then (j, v) ∷ d else (j, w) ∷ insert k v d

  abbrev pub keys : List (String × V) → List String
  keys = map (λ e. e.0)

  abbrev pub values : List (String × V) → List V
  values = map (λ e. e.1)

-- No key stands twice.
abbrev pub Distinct : List String → Type 0
Distinct [] = Unit
Distinct (k ∷ ks) = (contains k ks ≡ false) × Distinct ks

module _ {ℓ} {V : Type ℓ} where
  pub lookup-insert :
      (k j : String) (v : V) (d : List (String × V))
      → lookup j (insert k v d) ≡ (if k == j then some v else lookup j d)
  lookup-insert k j v [] = refl
  lookup-insert k j v ((i, w) ∷ d) =
      ground (arith, eq_iff k j, eq_iff i k, eq_iff i j, lookup-insert k j v d)

  pub contains-insert :
      (k j : String) (v : V) (d : List (String × V))
      → contains j (keys (insert k v d)) ≡ (k == j || contains j (keys d))
  contains-insert k j v [] = refl
  contains-insert k j v ((i, w) ∷ d) =
      ground (arith, eq_iff k j, eq_iff i k, eq_iff i j, contains-insert k j v d)

  pub insert-Distinct :
      (k : String) (v : V) (d : List (String × V))
      → Distinct (keys d)
      → Distinct (keys (insert k v d))
  insert-Distinct k v [] h = (refl, tt)
  insert-Distinct k v ((i, w) ∷ d) h =
      ground (arith, eq_iff i k, eq_iff k i, contains-insert k i v d, insert-Distinct k v d h.1)

pub contains-fresh_from :
    (k : String) (seen ks : List String)
    → contains k (fresh_from seen ks) ≡ true
    → contains k ks ≡ true
contains-fresh_from k seen [] h = h
contains-fresh_from k seen (j ∷ js) h =
    ground (arith, contains-fresh_from k seen js, contains-fresh_from k (j ∷ seen) js)

fresh_from_skips :
    (k : String) (seen ks : List String)
    → contains k seen ≡ true
    → contains k (fresh_from seen ks) ≡ false
fresh_from_skips k seen [] h = refl
fresh_from_skips k seen (j ∷ js) h =
    ground (arith, eq_iff j k, fresh_from_skips k seen js h, fresh_from_skips k (j ∷ seen) js)

pub fresh_from-Distinct : (seen ks : List String) → Distinct (fresh_from seen ks)
fresh_from-Distinct seen [] = tt
fresh_from-Distinct seen (j ∷ js) = ground (
  arith,
  eq_iff j j,
  fresh_from-Distinct seen js,
  fresh_from-Distinct (j ∷ seen) js,
  fresh_from_skips j (j ∷ seen) js,
)

pub contains-take :
    (k : String) (n : ℕ) (ks : List String) → contains k (take n ks) ≡ true → contains k ks ≡ true
contains-take k zero ks h = cc
contains-take k (suc n) [] h = h
contains-take k (suc n) (j ∷ js) h = ground (arith, contains-take k n js)

pub take-Distinct : (n : ℕ) (ks : List String) → Distinct ks → Distinct (take n ks)
take-Distinct zero ks d = tt
take-Distinct (suc n) [] d = tt
take-Distinct (suc n) (j ∷ js) d = ground (arith, contains-take j n js, take-Distinct n js d.1)

pub contains-append :
    (k : String) (xs ys : List String) → contains k (xs ++ ys) ≡ (contains k xs || contains k ys)
contains-append k [] ys = refl
contains-append k (x ∷ xs) ys = ground (arith, contains-append k xs ys)

-- `dict.fromkeys` keeps the members.
pub contains-fresh_from-eq :
    (k : String) (seen ks : List String)
    → contains k (fresh_from seen ks) ≡ (not (contains k seen) && contains k ks)
contains-fresh_from-eq k seen [] = ground arith
contains-fresh_from-eq k seen (j ∷ js) =
    ground
      (arith, eq_iff j k, contains-fresh_from-eq k seen js, contains-fresh_from-eq k (j ∷ seen) js)

pub contains-keep :
    (k : String) (p : String → Bool) (ks : List String)
    → contains k (keep p ks) ≡ true
    → (p k ≡ true) × (contains k ks ≡ true)
contains-keep k p [] h = cc
contains-keep k p (j ∷ js) h = ground (arith, eq_iff j k, contains-keep k p js)

Disjoint_cons :
    (j : String) (seen ks : List String)
    → contains j ks ≡ false
    → All (λ k. contains k seen ≡ false) ks
    → All (λ k. contains k (j ∷ seen) ≡ false) ks
Disjoint_cons j seen [] h all = tt
Disjoint_cons j seen (k ∷ ks) h all =
    ground (arith, eq_iff j k, eq_iff k j, Disjoint_cons j seen ks, all.0, all.1)

fresh_from_self :
    (seen ks : List String)
    → Distinct ks
    → All (λ k. contains k seen ≡ false) ks
    → fresh_from seen ks ≡ ks
fresh_from_self seen [] d all = refl
fresh_from_self seen (k ∷ ks) d all =
    ground (arith, all.0, fresh_from_self (k ∷ seen) ks d.1 (Disjoint_cons k seen ks d.0 all.1))

none_seen : (ks : List String) → All (λ k. contains k [] ≡ false) ks
none_seen [] = tt
none_seen (k ∷ ks) = (refl, none_seen ks)

-- Keys that are distinct are left alone.
pub from_keys_self : (ks : List String) → Distinct ks → from_keys ks ≡ ks
from_keys_self ks d = fresh_from_self [] ks d (none_seen ks)

-- The keys of a list that grows at its end
module _ {A : Type 0} (id_of : A → String) where
  pub contains-map-append :
      (xs : List A) (x : A) (k : String)
      → contains k (map id_of (xs ++ x ∷ [])) ≡ (contains k (map id_of xs) || (id_of x == k))
  contains-map-append [] x k = ground arith
  contains-map-append (a ∷ xs) x k = ground (arith, contains-map-append xs x k)

  pub append-Distinct :
      (xs : List A) (x : A)
      → Distinct (map id_of xs)
      → contains (id_of x) (map id_of xs) ≡ false
      → Distinct (map id_of (xs ++ x ∷ []))
  append-Distinct [] x d h = (refl, tt)
  append-Distinct (a ∷ xs) x d h = ground (
    arith,
    d.0,
    contains-map-append xs x (id_of a),
    eq_iff (id_of a) (id_of x),
    eq_iff (id_of x) (id_of a),
    append-Distinct xs x d.1,
  )
