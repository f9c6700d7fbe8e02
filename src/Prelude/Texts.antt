-- ===== src/Prelude/Texts.antt =====
-- The methods of Python's `str` that need no Unicode table but that of white space.
use Prim.Native.Nat.{ℕ, zero, suc, ◌-◌}
use Prim.Native.Char.{Char, code}
use Prim.Native.String.{String, ◌++◌}
use mathlib.Core.Bool.{Bool, true, false, ◌&&◌, ◌||◌}
use mathlib.Core.Option.{Option, none, some}
use mathlib.Core.List.{List, [], ◌∷◌}
use text.Mathlib.Text.{◌==◌}
use avvalo.Prelude.Tests.{leb, nat_eq, if◌then◌else◌}

-- `str.isspace` of one character: the white space of Unicode and the four separators below 32.
abbrev pub is_space : Char → Bool
is_space c =
    let n = code c in
    leb 9 n && leb n 13
    || leb 28 n && leb n 32
    || nat_eq n 0x85
    || nat_eq n 0xa0
    || nat_eq n 0x1680
    || leb 0x2000 n && leb n 0x200a
    || leb 0x2028 n && leb n 0x2029
    || nat_eq n 0x202f
    || nat_eq n 0x205f
    || nat_eq n 0x3000

abbrev pub lstrip : (Char → Bool) → String → String
lstrip p String.[] = ""
lstrip p (String.◌∷◌ c s) = if p c then lstrip p s else String.◌∷◌ c s

-- A character goes only where nothing is left behind it.
abbrev pub rstrip_cons : (Char → Bool) → Char → String → String
rstrip_cons p c String.[] = if p c then "" else String.◌∷◌ c String.[]
rstrip_cons p c (String.◌∷◌ d s) = String.◌∷◌ c (String.◌∷◌ d s)

abbrev pub rstrip : (Char → Bool) → String → String
rstrip p String.[] = ""
rstrip p (String.◌∷◌ c s) = rstrip_cons p c (rstrip p s)

-- `s.strip(chars)`, the characters given by a test
unfoldable pub strip_by : (Char → Bool) → String → String
strip_by p s = rstrip p (lstrip p s)

-- `s.strip()`
unfoldable pub strip : String → String
unfolding strip_by
strip s = strip_by is_space s

-- `c == "…"` for a character given by its code point
abbrev pub char_is : ℕ → Char → Bool
char_is n c = nat_eq (code c) n

abbrev pub char_in : Char → String → Bool
char_in c String.[] = false
char_in c (String.◌∷◌ d s) = nat_eq (code c) (code d) || char_in c s

-- `len(s)`
abbrev pub len : String → ℕ
len String.[] = 0
len (String.◌∷◌ c s) = suc (len s)

-- `not s`
abbrev pub is_blank : String → Bool
is_blank String.[] = true
is_blank (String.◌∷◌ c s) = false

-- `sep.join(parts)`
abbrev pub join : String → List String → String
join sep [] = ""
join sep (s ∷ []) = s
join sep (s ∷ t ∷ rest) = s ++ (sep ++ join sep (t ∷ rest))

-- What follows the prefix, where it is one.
abbrev pub after_prefix : String → String → Option String
after_prefix String.[] s = some s
after_prefix (String.◌∷◌ c p) String.[] = none
after_prefix (String.◌∷◌ c p) (String.◌∷◌ d s) =
    if nat_eq (code c) (code d) then after_prefix p s else none

abbrev pub is_some {ℓ} : {A : Type ℓ} → Option A → Bool
is_some none = false
is_some (some a) = true

-- `s.startswith(p)` and `s.removeprefix(p)`
abbrev pub starts_with : String → String → Bool
starts_with p s = is_some (after_prefix p s)

abbrev or_self : String → Option String → String
or_self s none = s
or_self s (some rest) = rest

abbrev pub remove_prefix : String → String → String
remove_prefix p s = or_self s (after_prefix p s)

-- `p in s`
unfoldable pub has_sub : String → String → Bool
has_sub p String.[] = is_blank p
has_sub p (String.◌∷◌ c s) = starts_with p (String.◌∷◌ c s) || has_sub p s

-- `s.endswith(p)`
unfoldable pub ends_with : String → String → Bool
ends_with p String.[] = is_blank p
ends_with p (String.◌∷◌ c s) = (String.◌∷◌ c s == p) || ends_with p s

-- `s.replace(p, r)` for a `p` that is not empty; the counter skips what is left of a match.
abbrev replace_from : ℕ → String → String → String → String
replace_from skip p r String.[] = ""
replace_from (suc skip) p r (String.◌∷◌ c s) = replace_from skip p r s
replace_from zero p r (String.◌∷◌ c s) =
    let found = r ++ replace_from (len p - 1) p r s in
    let kept = String.◌∷◌ c (replace_from 0 p r s) in
    if starts_with p (String.◌∷◌ c s) then found else kept

unfoldable pub replace : String → String → String → String
replace = replace_from 0

abbrev split_cons : Char → List String → List String
split_cons c [] = String.◌∷◌ c String.[] ∷ []
split_cons c (s ∷ parts) = String.◌∷◌ c s ∷ parts

-- The parts of a text between the characters that the test accepts.
unfoldable pub split_by : (Char → Bool) → String → List String
split_by p String.[] = "" ∷ []
split_by p (String.◌∷◌ c s) =
    let parts = split_by p s in if p c then "" ∷ parts else split_cons c parts

-- `s.translate(table)`, and `s.replace` for single characters
unfoldable pub translate : (Char → Char) → String → String
translate f String.[] = ""
translate f (String.◌∷◌ c s) = String.◌∷◌ (f c) (translate f s)

unfoldable pub keep_chars : (Char → Bool) → String → String
keep_chars p String.[] = ""
keep_chars p (String.◌∷◌ c s) = let rest = keep_chars p s in if p c then String.◌∷◌ c rest else rest

-- `any(p(c) for c in s)`
abbrev pub any_char : (Char → Bool) → String → Bool
any_char p String.[] = false
any_char p (String.◌∷◌ c s) = p c || any_char p s
