-- ===== src/Stdlib.antt =====
-- What the sources take from Python's standard library and is not defined here: the Unicode tables,
-- the engine of `re`, and the parsers of URLs and addresses. Every function is total; where Python
-- raises, the field returns `none`.
use avvalo.Prelude.{ℕ, Char, String, Bool, List, Option}

-- `urllib.parse.urlsplit`: `hostname`, `username` and `password`.
pub record SplitUrl : Type 0 where
  pub hostname : Option String
  pub username : Option String
  pub password : Option String

pub record Stdlib : Type 0 where
  -- `unicodedata.normalize("NFKC", s)`, `s.casefold()`, `c.isdigit()` of one character
  pub nfkc : String → String
  pub casefold : String → String
  pub is_digit : Char → Bool
  -- `unicodedata.category(c) == "Cf"`
  pub is_format_control : Char → Bool
  -- `re.compile(p)` raises no `re.error`
  pub re_compiles : String → Bool
  -- `re.search(p, s)` and `re.fullmatch(p, s)`, as truth values
  pub re_search : String → String → Bool
  pub re_fullmatch : String → String → Bool
  -- `re.sub(p, r, s)`, with the pattern and the replacement first
  pub re_sub : String → String → String → String
  -- `re.sub(p, f, s)` where `f` maps the text of a match
  pub re_sub_by : String → (String → String) → String → String
  -- The matches of `re.finditer(p, s)`, each behind the text before it, and the text after the last.
  pub re_pieces : String → String → List (String × String) × String
  pub re_escape : String → String
  -- `[m.group(0) for m in re.finditer(p, s)]`
  pub re_find_all : String → String → List String
  -- `re.split(p, s)`
  pub re_split : String → String → List String
  -- `none` where `urlsplit` or a property of its result raises `ValueError`
  pub url_split : String → Option SplitUrl
  -- `unquote(s, encoding="utf-8", errors="strict")`
  pub unquote : String → Option String
  -- `s.encode("ascii").decode("idna")`
  pub idna_decode : String → Option String
  -- `s.encode("utf-8")`, as the numbers of its bytes
  pub utf8 : String → List ℕ
  -- `ipaddress.ip_address(s)` raises no `ValueError`
  pub is_ip_address : String → Bool
