-- ===== src/Web/Cookie.antt =====
-- What the two signed cookies of app/web/session.py and app/web/admin_auth.py share.
pub mod Split
use Prim.Native.String.{◌++◌}
use avvalo.Prelude.{
  ℕ, Char, code, String, Bool, true, false, not, ◌&&◌, ◌||◌, Option, none, some, ltb, nat_eq, ◌==◌,
  if◌then◌else◌, any_char,
}
use avvalo.Raises.{Raises, ok, raised}

-- `value.rsplit(".", 1)`: the last dot parts the text.
abbrev or_here : Char → String → Option (String × String) → Option (String × String)
or_here c s none = if nat_eq (code c) 46 then some ("", s) else none
or_here c s (some (left, right)) = some (String.◌∷◌ c left, right)

unfoldable pub rsplit_dot : String → Option (String × String)
rsplit_dot String.[] = none
rsplit_dot (String.◌∷◌ c s) = or_here c s (rsplit_dot s)

abbrev pub has_dot : String → Bool
has_dot s = any_char (λ c. nat_eq (code c) 46) s

abbrev pub is_ascii : String → Bool
is_ascii s = not (any_char (λ c. not (ltb (code c) 128)) s)

-- `hmac.compare_digest` of two texts, which wants ASCII.
abbrev pub compare_digest : String → String → Raises Bool
compare_digest left right =
    if is_ascii left && is_ascii right then ok (left == right) else raised "TypeError"
