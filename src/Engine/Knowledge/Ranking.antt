-- ===== src/Engine/Knowledge/Ranking.antt =====
-- The sort of `retrieve_knowledge` in app/engine/knowledge/retrieve.py: `sorted` with a key is an
-- insertion sort by the order of the keys, which keeps equal elements in place.
use Prim.Native.Nat.{Ordering}
use Prim.Native.String.{compare}
use avvalo.Prelude.{
  ℕ, zero, suc, String, Bool, true, false, not, ◌&&◌, ◌||◌, List, [], ◌∷◌, ◌≡◌, refl, arith, ◌==◌,
  eq_iff, if◌then◌else◌, ltb, nat_eq, contains, take, All, any, Distinct, Bool-cases, inl, inr,
}

-- `a < b` of texts, by code points
abbrev pub text_lt : String → String → Bool
text_lt a b = elim (compare a b) [ Ordering.lt ↦ true | _ ↦ false ]

module _ (before : String → String → Bool) where
  -- `a` goes in front of the first element that it is not behind.
  unfoldable pub insert_sorted : String → List String → List String
  insert_sorted a [] = a ∷ []
  insert_sorted a (b ∷ bs) =
      let rest = insert_sorted a bs in if before b a then b ∷ rest else a ∷ b ∷ bs

  unfoldable pub sorted : List String → List String
  unfolding insert_sorted
  sorted [] = []
  sorted (a ∷ rest) = insert_sorted a (sorted rest)

  contains-insert_sorted :
      (k a : String) (bs : List String)
      → contains k (insert_sorted a bs) ≡ (a == k || contains k bs)
  unfolding insert_sorted
  contains-insert_sorted k a [] = refl
  contains-insert_sorted k a (b ∷ bs) = ground (arith, contains-insert_sorted k a bs)

  pub contains-sorted : (k : String) (xs : List String) → contains k (sorted xs) ≡ contains k xs
  unfolding sorted
  contains-sorted k [] = refl
  contains-sorted k (a ∷ xs) =
      ground (arith, contains-insert_sorted k a (sorted xs), contains-sorted k xs)

  insert_sorted-Distinct :
      (a : String) (bs : List String)
      → contains a bs ≡ false
      → Distinct bs
      → Distinct (insert_sorted a bs)
  unfolding insert_sorted
  insert_sorted-Distinct a [] h d = (refl, tt)
  insert_sorted-Distinct a (b ∷ bs) h d =
      ground
        (arith, contains-insert_sorted b a bs, eq_iff a b, eq_iff b a, insert_sorted-Distinct a bs)

  pub sorted-Distinct : (xs : List String) → Distinct xs → Distinct (sorted xs)
  unfolding sorted
  sorted-Distinct [] d = tt
  sorted-Distinct (a ∷ xs) d =
      insert_sorted-Distinct a (sorted xs) (ground (arith, contains-sorted a xs))
        (sorted-Distinct xs d.1)

-- The key of the source: mandatory cards first, then by falling score, then by id.
unfoldable pub ranks_before : (String → Bool) → (String → ℕ) → String → String → Bool
ranks_before mandatory score a b =
    if mandatory a
    then if mandatory b
      then ltb (score b) (score a) || nat_eq (score a) (score b) && text_lt a b
      else true
    else if mandatory b
    then false
    else ltb (score b) (score a) || nat_eq (score a) (score b) && text_lt a b

module _ (mandatory : String → Bool) (score : String → ℕ) where
  -- Behind an element that is not mandatory none is.
  abbrev pub MandatoryFirst : List String → Type 0
  MandatoryFirst [] = Unit
  MandatoryFirst (a ∷ rest) =
      (mandatory a ≡ false → All (λ b. mandatory b ≡ false) rest) × MandatoryFirst rest

  insert-All_optional :
      (a : String) (bs : List String)
      → mandatory a ≡ false
      → All (λ b. mandatory b ≡ false) bs
      → All (λ b. mandatory b ≡ false) (insert_sorted (ranks_before mandatory score) a bs)
  unfolding insert_sorted
  insert-All_optional a [] h all = (h, tt)
  insert-All_optional a (b ∷ bs) h all = ground (arith, insert-All_optional a bs h all.1)

  optional_behind :
      (a b : String)
      → ranks_before mandatory score b a ≡ true
      → mandatory b ≡ false
      → mandatory a ≡ false
  unfolding ranks_before
  optional_behind a b h hb = ground arith

  optional_in_front :
      (a b : String)
      → ranks_before mandatory score b a ≡ false
      → mandatory a ≡ false
      → mandatory b ≡ false
  unfolding ranks_before
  optional_in_front a b h ha = ground arith

  insert-MandatoryFirst :
      (a : String) (bs : List String)
      → MandatoryFirst bs
      → MandatoryFirst (insert_sorted (ranks_before mandatory score) a bs)
  unfolding insert_sorted
  insert-MandatoryFirst a [] m = (λ h. tt, tt)
  insert-MandatoryFirst a (b ∷ bs) m = elim (Bool-cases (ranks_before mandatory score b a)) [
    | inl behind ↦ rw behind (
      λ hb. insert-All_optional a bs (optional_behind a b behind hb) (m.0 hb),
      insert-MandatoryFirst a bs m.1,
    )
    | inr front ↦ rw front (λ ha. let hb = optional_in_front a b front ha in (hb, m.0 hb), m)
  ]

  pub sorted-MandatoryFirst :
      (xs : List String) → MandatoryFirst (sorted (ranks_before mandatory score) xs)
  unfolding sorted
  sorted-MandatoryFirst [] = tt
  sorted-MandatoryFirst (a ∷ xs) =
      insert-MandatoryFirst a (sorted (ranks_before mandatory score) xs) (sorted-MandatoryFirst xs)

  none_mandatory :
      (k : String) (xs : List String)
      → All (λ b. mandatory b ≡ false) xs
      → mandatory k ≡ true
      → contains k xs ≡ false
  none_mandatory k [] all m = refl
  none_mandatory k (x ∷ xs) all m = ground (arith, eq_iff x k, none_mandatory k xs all.1 m, all.0)

  -- Where a selection holds an optional element, no mandatory one was cut off.
  pub take-MandatoryFirst :
      (n : ℕ) (xs : List String) (k : String)
      → MandatoryFirst xs
      → any (λ x. not (mandatory x)) (take n xs) ≡ true
      → contains k xs ≡ true
      → mandatory k ≡ true
      → contains k (take n xs) ≡ true
  take-MandatoryFirst zero xs k f o c m = cc
  take-MandatoryFirst (suc n) [] k f o c m = c
  take-MandatoryFirst (suc n) (x ∷ xs) k f o c m = elim (Bool-cases (mandatory x)) [
    | inl front ↦ ground (arith, take-MandatoryFirst n xs k f.1)
    | inr optional ↦ ground (arith, none_mandatory k xs (f.0 optional) m)
  ]
