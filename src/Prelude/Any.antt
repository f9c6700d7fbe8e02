-- ===== src/Prelude/Any.antt =====
-- `any` and `keep` together, and membership of a mapped list.
use mathlib.Core.Path.{◌≡◌, refl}
use mathlib.Core.Bool.{Bool, true, false, ◌&&◌}
use mathlib.Core.List.{List, [], ◌∷◌}
use native.Mathlib.Omega.{arith}
use avvalo.Prelude.Lists.{any, keep, is_empty}

module _ {ℓ} {A : Type ℓ} where
  pub any-keep : (p q : A → Bool) (xs : List A) → any p (keep q xs) ≡ any (λ x. q x && p x) xs
  any-keep p q [] = refl
  any-keep p q (x ∷ xs) = ground (arith, any-keep p q xs)

  pub is_empty-keep : (p : A → Bool) (xs : List A) → any p xs ≡ true → is_empty (keep p xs) ≡ false
  is_empty-keep p [] h = cc
  is_empty-keep p (x ∷ xs) h = ground (arith, is_empty-keep p xs)
