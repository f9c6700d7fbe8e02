-- ===== src/Prelude/Stripped.antt =====
-- A stripped text has nothing to strip, and mapping a list of such texts changes nothing.
use Prim.Native.Char.{Char}
use Prim.Native.String.{String}
use mathlib.Core.Path.{◌≡◌, refl, ap, ◌∙◌}
use mathlib.Core.Logic.{inl, inr}
use mathlib.Core.Bool.{Bool, true, false}
use mathlib.Core.List.{List, [], ◌∷◌, map}
use native.Mathlib.Omega.{arith}
use avvalo.Prelude.Tests.{Bool-cases}
use avvalo.Prelude.Lists.{All, keep}
use avvalo.Prelude.Keep.{keep_self}
use avvalo.Prelude.Texts.{lstrip, rstrip_cons, rstrip, strip_by, strip, is_space}

module _ (p : Char → Bool) where
  rstrip_cons_again :
      (c : Char) (s : String) → rstrip p s ≡ s → rstrip p (rstrip_cons p c s) ≡ rstrip_cons p c s
  rstrip_cons_again c String.[] h = elim (Bool-cases (p c)) [
    | inl skipped ↦ rw skipped refl
    | inr kept ↦ rw kept (rw kept refl)
  ]
  rstrip_cons_again c (String.◌∷◌ d s) h = ap (rstrip_cons p c) h

  rstrip_again : (s : String) → rstrip p (rstrip p s) ≡ rstrip p s
  rstrip_again String.[] = refl
  rstrip_again (String.◌∷◌ c s) = rstrip_cons_again c (rstrip p s) (rstrip_again s)

  lstrip-rstrip_cons :
      (c : Char) (s : String) → p c ≡ false → lstrip p (rstrip_cons p c s) ≡ rstrip_cons p c s
  lstrip-rstrip_cons c String.[] h = ground arith
  lstrip-rstrip_cons c (String.◌∷◌ d s) h = ground arith

  lstrip_again : (s : String) → lstrip p (rstrip p (lstrip p s)) ≡ rstrip p (lstrip p s)
  lstrip_again String.[] = refl
  lstrip_again (String.◌∷◌ c s) = elim (Bool-cases (p c)) [
    | inl skipped ↦ rw skipped (lstrip_again s)
    | inr kept ↦ rw kept (lstrip-rstrip_cons c (rstrip p s) kept)
  ]

pub strip_again : (s : String) → strip (strip s) ≡ strip s
unfolding strip strip_by
strip_again s =
    ap (rstrip is_space) (lstrip_again is_space s) ∙ rstrip_again is_space (lstrip is_space s)

module _ {ℓ} {A : Type ℓ} where
  pub map_self : (f : A → A) (xs : List A) → All (λ x. f x ≡ x) xs → map f xs ≡ xs
  map_self f [] h = refl
  map_self f (x ∷ xs) h = rw (h.0, map_self f xs h.1) refl

  -- Mapping and keeping again, where each element that is left is one that the map leaves.
  pub keep-map_self :
      (f : A → A) (p : A → Bool) (xs : List A)
      → All (λ x. f x ≡ x) xs
      → All (λ x. p x ≡ true) xs
      → keep p (map f xs) ≡ xs
  keep-map_self f p xs fixed kept = ap (keep p) (map_self f xs fixed) ∙ keep_self p xs kept
