-- ===== src/Engine/Rules/Yaml.antt =====
-- What `yaml.safe_load` gives, and the readers of its values in app/engine/rules/loader.py. A number
-- is not negative, and `other` stands for all values that the loader tells apart from none of these.
use avvalo.Prelude.{
  ℕ, String, Bool, true, false, List, [], ◌∷◌, Option, none, some, ◌==◌, nat_eq, if◌then◌else◌,
  is_blank, strip,
}
use avvalo.Raises.{Raises, ok, raised, ◌>>=◌}

mutual
  pub data Yaml : Type 0 where
    null other : Yaml
    boolean : Bool → Yaml
    number : ℕ → Yaml
    text : String → Yaml
    sequence : Yamls → Yaml
    mapping : Entries → Yaml

  pub data Yamls : Type 0 where
    nil : Yamls
    cons : Yaml → Yamls → Yamls

  -- A key that is no text is `none`. A mapping has each key once.
  pub data Entries : Type 0 where
    empty : Entries
    entry : Option String → Yaml → Entries → Entries

abbrev is_key : String → Option String → Bool
is_key key none = false
is_key key (some k) = k == key

-- `data.get(key)`
abbrev pub get : String → Entries → Yaml
get key Entries.empty = Yaml.null
get key (Entries.entry k value rest) = if is_key key k then value else get key rest

-- `isinstance(items, list) and all(isinstance(item, str) for item in items)`, with the texts.
add_text : Yaml → Option (List String) → Option (List String)
add_text (Yaml.text s) (some texts) = some (s ∷ texts)
add_text _ _ = none

texts_of : Yamls → Option (List String)
unfolding add_text
texts_of Yamls.nil = some []
texts_of (Yamls.cons item items) = add_text item (texts_of items)

unfoldable pub texts : Yaml → Option (List String)
unfolding texts_of
texts (Yaml.sequence items) = texts_of items
texts _ = none

-- A value that Python counts as false.
is_false : Yaml → Bool
is_false Yaml.null = true
is_false (Yaml.boolean b) = if b then false else true
is_false (Yaml.number n) = nat_eq n 0
is_false (Yaml.text s) = is_blank s
is_false (Yaml.sequence Yamls.nil) = true
is_false (Yaml.mapping Entries.empty) = true
is_false _ = false

-- `yaml.safe_load(handle) or {}`
unfoldable pub document : Yaml → Yaml
unfolding is_false
document value = if is_false value then Yaml.mapping Entries.empty else value

abbrev as_dict : Yaml → Raises Entries
as_dict (Yaml.mapping entries) = ok entries
as_dict _ = raised "ValueError"

abbrev as_list : Yaml → Raises Yamls
as_list (Yaml.sequence items) = ok items
as_list _ = raised "ValueError"

abbrev as_str : Yaml → Raises String
as_str (Yaml.text s) = if is_blank (strip s) then raised "ValueError" else ok s
as_str _ = raised "ValueError"

abbrev as_optional_str : Yaml → Raises (Option String)
as_optional_str Yaml.null = ok none
as_optional_str (Yaml.text s) = if is_blank (strip s) then raised "ValueError" else ok (some s)
as_optional_str _ = raised "ValueError"

-- A Boolean is an `int` too.
abbrev as_int : Yaml → Raises ℕ
as_int (Yaml.number n) = ok n
as_int (Yaml.boolean b) = ok (if b then 1 else 0)
as_int _ = raised "ValueError"

-- The readers of a key of `data`: `_require_dict`, `_require_list`, `_require_str`, `_require_int`
-- and `_optional_str`.
unfoldable pub as_mapping : Yaml → Raises Entries
as_mapping value = as_dict value

unfoldable pub require_dict : Yaml → String → Raises Entries
require_dict value key = as_dict value >>= λ entries. as_dict (get key entries)

unfoldable pub require_list : Yaml → String → Raises Yamls
require_list value key = as_dict value >>= λ entries. as_list (get key entries)

unfoldable pub require_str : Yaml → String → Raises String
require_str value key = as_dict value >>= λ entries. as_str (get key entries)

unfoldable pub require_int : Yaml → String → Raises ℕ
require_int value key = as_dict value >>= λ entries. as_int (get key entries)

unfoldable pub optional_str : Entries → String → Raises (Option String)
optional_str entries key = as_optional_str (get key entries)
