-- ===== src/Engine/Url.antt =====
-- app/engine/url.py: the shape of a submitted link, read without opening it.
pub mod Tables
pub mod Distance
pub mod Punctuation
pub mod Classify
pub mod Catalog
use Prim.Native.String.{◌++◌}
use avvalo.Prelude.{
  ℕ, suc, zero, ◌+◌, ◌-◌, Char, code, String, Bool, true, false, not, ◌&&◌, ◌||◌, List, [], ◌∷◌,
  map, Option, none, some, ◌==◌, leb, ltb, nat_eq, if◌then◌else◌, length, any, keep, take, contains,
  from_keys, insert, strip, strip_by, char_is, char_in, len, is_blank, is_space, starts_with,
  remove_prefix, has_sub, ends_with, replace, split_by, translate, any_char,
}
use avvalo.Stdlib.{Stdlib, SplitUrl}
use Tables.{
  trailing_punctuation, label_shortened, label_lookalike, label_domain_in_subdomain,
  label_mixed_script, label_credentials, label_ip, confusable_to_ascii, baseline_brands,
  baseline_shorteners, baseline_nested_suffixes,
}

pub record OfficialDomainCatalog : Type 0 where
  pub brands : List (String × List String)
  pub shorteners : List String
  pub nested_suffixes : List String

pub record LinkShape : Type 0 where
  pub domain : Option String
  pub has_userinfo : Bool
  pub is_ip : Bool
  pub mixed_script : Bool

-- `core[-1]` and `core[:-1]` of a text that is not empty
abbrev pub last_of : Char → String → Char
last_of c String.[] = c
last_of c (String.◌∷◌ d s) = last_of d s

abbrev pub but_last : Char → String → String
but_last c String.[] = ""
but_last c (String.◌∷◌ d s) = String.◌∷◌ c (but_last d s)

-- The text behind the last character that the test accepts: `value.rsplit(c, 1)[-1]`.
after_last : (Char → Bool) → String → String → String
after_last p found String.[] = found
after_last p found (String.◌∷◌ c s) = after_last p (if p c then s else found) s

-- The text before the first character that the test accepts.
before_first : (Char → Bool) → String → String
before_first p String.[] = ""
before_first p (String.◌∷◌ c s) =
    let rest = before_first p s in if p c then "" else String.◌∷◌ c rest

-- `value.split("://", 1)[1]` of a text that holds "://"
after_scheme : String → String
after_scheme String.[] = ""
after_scheme (String.◌∷◌ c s) =
    let rest = after_scheme s in
    if starts_with "://" (String.◌∷◌ c s) then remove_prefix "://" (String.◌∷◌ c s) else rest

or_else : String → Option String → String
or_else s none = s
or_else s (some t) = t

module _ (py : Stdlib) where
  with_scheme : String → String
  unfolding has_sub
  with_scheme value = if has_sub "://" value then value else "https://" ++ value

  -- `_ends_with_bracketed_host`; `find("]") == len - 1` says that the only "]" is at the end.
  pub ends_with_bracketed_host : String → Bool
  unfolding with_scheme after_scheme after_last before_first has_sub ends_with
  ends_with_bracketed_host value =
      let candidate = with_scheme (py.re_sub "(?i)^hxxp" "http" value) in
      let authority = before_first (λ c. char_in c "/?#") (after_scheme candidate) in
      let host_port = after_last (char_is b'@') authority authority in
      starts_with "[" host_port
      && nat_eq (len (before_first (char_is b']') host_port) + 1) (len host_port)

  -- The loop of `split_url_trailing_punctuation`; each round takes a character, so the length of
  -- the text is fuel enough.
  pub trim_punctuation : ℕ → String → String → String × String
  trim_punctuation zero core suffix = (core, suffix)
  trim_punctuation (suc fuel) String.[] suffix = (String.[], suffix)
  trim_punctuation (suc fuel) (String.◌∷◌ c s) suffix =
      let core = String.◌∷◌ c s in
      let last = last_of c s in
      let rest = trim_punctuation fuel (but_last c s) (String.◌∷◌ last suffix) in
      if not (char_in last trailing_punctuation)
      then (core, suffix)
      else if char_is b']' last && ends_with_bracketed_host core
      then (core, suffix)
      else rest

  pub split_url_trailing_punctuation : String → String × String
  split_url_trailing_punctuation value =
      let core = strip value in trim_punctuation (len core) core ""

  -- `_scripts`, as a list without repetition
  script_of : Char → Option String
  script_of c =
      let n = code c in
      if char_in c ".-_" || py.is_digit c
      then none
      else if leb 97 n && leb n 122
      then some "latin"
      else if leb 0x0400 n && leb n 0x04ff
      then some "cyrillic"
      else if leb 0x0370 n && leb n 0x03ff
      then some "greek"
      else if ltb 0x7f n
      then some "other"
      else none

  script_names : String → List String
  script_names String.[] = []
  script_names (String.◌∷◌ c s) = elim (script_of c) [
    | none ↦ script_names s
    | some name ↦ name ∷ script_names s
  ]

  pub scripts : String → List String
  unfolding script_of script_names
  scripts value = from_keys (script_names value)

  is_ip_literal : String → Bool
  unfolding strip_by
  is_ip_literal domain = py.is_ip_address (strip_by (λ c. char_in c "[]") domain)

  no_domain : Bool → LinkShape
  no_domain userinfo = record {
    domain = none;
    has_userinfo = userinfo;
    is_ip = false;
    mixed_script = false;
  }

  is_present : Option String → Bool
  is_present none = false
  is_present (some s) = not (is_blank s)

  or_blank : Option String → String
  or_blank none = ""
  or_blank (some s) = s

  -- The shape of a host that is neither escaped nor malformed.
  shape_of_domain : Bool → String → LinkShape
  unfolding no_domain scripts is_ip_literal or_else strip_by
  shape_of_domain userinfo raw =
      if is_blank raw
      then no_domain userinfo
      else let decoded = or_else raw (py.idna_decode raw) in
        let domain = strip_by (char_is b'.') (py.casefold (py.nfkc decoded)) in
        if is_blank domain then no_domain userinfo else record {
          domain = some domain;
          has_userinfo = userinfo;
          is_ip = is_ip_literal domain;
          mixed_script = ltb 1 (length (scripts domain));
        }

  is_bad_host_char : Char → Bool
  is_bad_host_char c = is_space c || ltb (code c) 0x20 || char_in c "/?#@\\[]"

  shape_of_host : Bool → String → LinkShape
  unfolding no_domain shape_of_domain is_bad_host_char strip_by
  shape_of_host userinfo host =
      if has_sub "%" host || any_char is_bad_host_char host
      then no_domain userinfo
      else shape_of_domain userinfo
          (remove_prefix "www." (py.casefold (strip_by (char_is b'.') host)))

  shape_of_split : SplitUrl → LinkShape
  unfolding no_domain shape_of_host is_present or_blank
  shape_of_split parts =
      let userinfo = is_present parts.username || is_present parts.password in
      elim (py.unquote (or_blank parts.hostname)) [
        | none ↦ no_domain userinfo
        | some host ↦ shape_of_host userinfo host
      ]

  pub describe_link : String → LinkShape
  unfolding split_url_trailing_punctuation with_scheme no_domain shape_of_split replace
  describe_link raw_url =
      let cleaned = (split_url_trailing_punctuation raw_url).0 in
      let plain = replace "(.)" "." (replace "[.]" "." cleaned) in
      let full = with_scheme (py.re_sub "(?i)^hxxp" "http" plain) in
      elim (py.url_split full) [ none ↦ no_domain false | some parts ↦ shape_of_split parts ]

  pub normalize_domain : String → Option String
  normalize_domain value = (describe_link value).domain
