-- ===== src/Web/Cookie/Split.antt =====
-- Laws of `rsplit_dot`.
use Prim.Native.String.{◌++◌}
use text.Mathlib.TextLemmas.{nil-append, cons-append}
use text.Mathlib.TextEquality.{Char-path}
use avvalo.Prelude.{
  Char, code, String, Bool, true, false, not, ◌||◌, ◌&&◌, Option, none, some, nat_eq, ltb, any_char,
  ◌≡◌, refl, ap, sym, ◌∙◌, arith,
}
use avvalo.Web.Cookie.{rsplit_dot, or_here, has_dot, is_ascii}

rsplit_dot-none : (s : String) → has_dot s ≡ false → rsplit_dot s ≡ none
unfolding rsplit_dot
rsplit_dot-none String.[] h = refl
rsplit_dot-none (String.◌∷◌ c s) h = ground (arith, rsplit_dot-none s)

dot-append : (s : String) → "." ++ s ≡ String.◌∷◌ "." s
dot-append s = cons-append "." "" s ∙ ap (String.◌∷◌ ".") (nil-append s)

-- A text behind the dot that has none is found again.
pub rsplit_dot-append :
    (left right : String)
    → has_dot right ≡ false
    → rsplit_dot (left ++ ("." ++ right)) ≡ some (left, right)
unfolding rsplit_dot
rsplit_dot-append String.[] right h =
    simp (nil-append, dot-append right) (ground (arith, rsplit_dot-none right h))
rsplit_dot-append (String.◌∷◌ c left) right h =
    simp cons-append (ground (arith, rsplit_dot-append left right h))

any_char-append :
    (p : Char → Bool) (s t : String) → any_char p (s ++ t) ≡ (any_char p s || any_char p t)
any_char-append p String.[] t = simp nil-append
any_char-append p (String.◌∷◌ c s) t = simp cons-append (ground (arith, any_char-append p s t))

is_dot : (c : Char) (s : String) → nat_eq (code c) 46 ≡ true → String.◌∷◌ c s ≡ "." ++ s
is_dot c s h = ap (λ d. String.◌∷◌ d s) (Char-path c "." (ground arith)) ∙ sym (dot-append s)

parts_here :
    (c : Char) (s left right : String) (found : Option (String × String))
    → ((l r : String) → found ≡ some (l, r) → s ≡ l ++ ("." ++ r))
    → or_here c s found ≡ some (left, right)
    → String.◌∷◌ c s ≡ left ++ ("." ++ right)
parts_here c s left right none k h =
    is_dot c s (ground arith)
    ∙ sym (nil-append ("." ++ s))
    ∙ ap (λ (p : String × String). p.0 ++ ("." ++ p.1)) (ground arith)
parts_here c s left right (some (l, r)) k h =
    ap (String.◌∷◌ c) (k l r refl)
    ∙ sym (cons-append c l ("." ++ r))
    ∙ ap (λ (p : String × String). p.0 ++ ("." ++ p.1)) (ground arith)

-- The parts are those of the text.
pub rsplit_dot_parts :
    (s left right : String) → rsplit_dot s ≡ some (left, right) → s ≡ left ++ ("." ++ right)
unfolding rsplit_dot
rsplit_dot_parts String.[] left right h = ground arith
rsplit_dot_parts (String.◌∷◌ c s) left right h =
    parts_here c s left right (rsplit_dot s) (rsplit_dot_parts s) h

pub has_dot-none : (s : String) → rsplit_dot s ≡ none → has_dot s ≡ false
unfolding rsplit_dot
has_dot-none String.[] h = refl
has_dot-none (String.◌∷◌ c s) h = ground (arith, has_dot-none s)

any_char-joined :
    (p : Char → Bool) (left right : String)
    → any_char p (left ++ ("." ++ right)) ≡ (any_char p left || (p "." || any_char p right))
any_char-joined p left right =
    any_char-append p left ("." ++ right)
    ∙ ap (λ s. any_char p left || any_char p s) (dot-append right)

pub has_dot-joined : (left right : String) → has_dot (left ++ ("." ++ right)) ≡ true
has_dot-joined left right = any_char-joined (λ c. nat_eq (code c) 46) left right ∙ ground arith

pub is_ascii-joined :
    (left right : String) → is_ascii (left ++ ("." ++ right)) ≡ (is_ascii left && is_ascii right)
is_ascii-joined left right =
    ap not (any_char-joined (λ c. not (ltb (code c) 128)) left right) ∙ ground arith
