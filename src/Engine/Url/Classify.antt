-- ===== src/Engine/Url/Classify.antt =====
-- `classify_link` of app/engine/url.py.
use Prim.Native.String.{◌++◌}
use avvalo.Prelude.{
  Char, code, String, Bool, not, ◌&&◌, ◌||◌, List, [], ◌∷◌, Option, none, some, ◌==◌, nat_eq,
  if◌then◌else◌, any, contains, char_is, is_blank, has_sub, ends_with, split_by, translate,
}
use avvalo.Stdlib.{Stdlib}
use avvalo.Engine.Url.{OfficialDomainCatalog, LinkShape, describe_link}
use avvalo.Engine.Url.Distance.{looks_like_brand}
use avvalo.Engine.Url.Tables.{
  label_shortened, label_lookalike, label_domain_in_subdomain, label_mixed_script,
  label_credentials, label_ip, confusable_to_ascii,
}

-- `c.translate(_CONFUSABLE_TABLE)` of one character
fold_char : List (Char × Char) → Char → Char
fold_char [] c = c
fold_char ((from, to) ∷ table) c = if nat_eq (code from) (code c) then to else fold_char table c

unfoldable pub domain_is_allowed : String → List String → Bool
domain_is_allowed domain allowed_domains =
    any (λ allowed. domain == allowed || ends_with ("." ++ allowed) domain) allowed_domains

-- `labels[:-2]`
abbrev pub but_last_two : List String → List String
but_last_two [] = []
but_last_two (a ∷ []) = []
but_last_two (a ∷ b ∷ []) = []
but_last_two (a ∷ b ∷ c ∷ rest) = a ∷ but_last_two (b ∷ c ∷ rest)

unfoldable pub has_nested_suffix : String → List String → Bool
has_nested_suffix domain nested_suffixes =
    any (λ label. contains label nested_suffixes) (but_last_two (split_by (char_is b'.') domain))

-- The body of the loop over the brands, where it returns.
imitates : LinkShape → String → String → List String → String × List String → Bool
unfolding domain_is_allowed
imitates shape domain folded labels (brand, allowed_domains) =
    not (not shape.mixed_script && domain_is_allowed domain allowed_domains)
    && (has_sub brand folded || any (λ label. looks_like_brand label brand) labels)

module _ (py : Stdlib) (catalog : OfficialDomainCatalog) where
  -- The part of `classify_link` behind `if not shape.domain`.
  pub classify_shape : LinkShape → String → Option String
  unfolding imitates fold_char has_nested_suffix
  classify_shape shape domain =
      let folded = translate (fold_char confusable_to_ascii) domain in
      let folded_labels = py.re_split "[^a-z0-9]+" folded in
      if shape.has_userinfo
      then some label_credentials
      else if shape.is_ip
      then some label_ip
      else if contains domain catalog.shorteners
      then some label_shortened
      else if any (imitates shape domain folded folded_labels) catalog.brands
      then some label_lookalike
      else if has_nested_suffix domain catalog.nested_suffixes
      then some label_domain_in_subdomain
      else if shape.mixed_script
      then some label_mixed_script
      else none

  classify_domain : LinkShape → Option String → Option String
  unfolding classify_shape
  classify_domain shape none = none
  classify_domain shape (some domain) =
      if is_blank domain then none else classify_shape shape domain

  pub classify_link : String → Option String
  unfolding classify_domain
  classify_link raw_url = let shape = describe_link py raw_url in classify_domain shape shape.domain
