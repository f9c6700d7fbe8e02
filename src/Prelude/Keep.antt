-- ===== src/Prelude/Keep.antt =====
-- When `keep` and `take` change nothing.
use Prim.Native.Nat.{ℕ, zero, suc, ◌≤◌}
use mathlib.Core.Path.{◌≡◌, refl, ap}
use mathlib.Core.Bool.{Bool, true, false}
use mathlib.Core.List.{List, [], ◌∷◌, ◌++◌}
use native.Mathlib.Omega.{arith}
use avvalo.Prelude.Lists.{keep, take, length, All, All-keep, All-take, length-keep-le, is_empty}

module _ {ℓ} {A : Type ℓ} where
  pub keep_self : (p : A → Bool) (xs : List A) → All (λ x. p x ≡ true) xs → keep p xs ≡ xs
  keep_self p [] h = refl
  keep_self p (x ∷ xs) h = ground (arith, keep_self p xs h.1, h.0)

  pub keep-eq_of_length :
      (p : A → Bool) (xs : List A) → length xs ≤ length (keep p xs) → keep p xs ≡ xs
  keep-eq_of_length p [] h = refl
  keep-eq_of_length p (x ∷ xs) h = ground (arith, keep-eq_of_length p xs, length-keep-le p xs)

  pub keep-take-keep :
      (p : A → Bool) (n : ℕ) (xs : List A) → keep p (take n (keep p xs)) ≡ take n (keep p xs)
  keep-take-keep p n xs =
      keep_self p (take n (keep p xs)) (All-take (λ x. p x ≡ true) n (keep p xs) (All-keep p xs))

  pub is_empty-eq : (xs : List A) → is_empty xs ≡ true → xs ≡ []
  is_empty-eq [] h = refl
  is_empty-eq (x ∷ xs) h = cc

  pub take-append : (n : ℕ) (xs ys : List A) → n ≤ length xs → take n (xs ++ ys) ≡ take n xs
  take-append zero xs ys h = refl
  take-append (suc n) [] ys h = elim h [ ]
  take-append (suc n) (x ∷ xs) ys h = ap (λ zs. x ∷ zs) (take-append n xs ys (omega arith))

  pub take-take : (n : ℕ) (xs : List A) → take n (take n xs) ≡ take n xs
  take-take zero xs = refl
  take-take (suc n) [] = refl
  take-take (suc n) (x ∷ xs) = ap (λ ys. x ∷ ys) (take-take n xs)

  -- What holds of all holds of those kept.
  pub All-keep_of_All {κ} :
      (P : A → Type κ) (p : A → Bool) (xs : List A) → All P xs → All P (keep p xs)
  All-keep_of_All P p [] h = tt
  All-keep_of_All P p (x ∷ xs) h = ground (arith, All-keep_of_All P p xs h.1)

  -- A test that keeps nothing fails everywhere.
  pub All-of_keep_empty :
      (p : A → Bool) (xs : List A) → is_empty (keep p xs) ≡ true → All (λ x. p x ≡ false) xs
  All-of_keep_empty p [] h = tt
  All-of_keep_empty p (x ∷ xs) h = ground (arith, All-of_keep_empty p xs)
