-- ===== src/Engine/Url/Catalog.antt =====
-- The loading of the official domains in app/engine/url.py.
pub mod Floor
use avvalo.Prelude.{
  String, Bool, true, false, not, ◌||◌, List, [], ◌∷◌, ◌++◌, Option, none, some, if◌then◌else◌,
  strip, is_blank, is_empty, insert,
}
use avvalo.Stdlib.{Stdlib}
use avvalo.Engine.Url.{OfficialDomainCatalog, normalize_domain}
use avvalo.Engine.Url.Tables.{baseline_brands, baseline_shorteners, baseline_nested_suffixes}

-- What `yaml.safe_load` of the catalog file gives: a failure, no mapping, or the three keys. An
-- entry of `brands` that is no mapping is left out; a key that is no list is `none`.
pub data RawCatalog : Type 0 where
  unreadable malformed : RawCatalog
  parsed : List (String × List String) → Option (List String) → Option (List String) → RawCatalog

pub baseline_catalog : OfficialDomainCatalog
baseline_catalog = record {
  brands = baseline_brands;
  shorteners = baseline_shorteners;
  nested_suffixes = baseline_nested_suffixes;
}

abbrev add_domain : Option String → List String → List String
add_domain none domains = domains
add_domain (some domain) domains = domain ∷ domains

module _ (py : Stdlib) where
  stripped_entries : List String → List String
  stripped_entries [] = []
  stripped_entries (item ∷ items) =
      let rest = stripped_entries items in
      if is_blank (strip item) then rest else py.casefold (strip item) ∷ rest

  -- `_string_set`; a set may hold an entry twice here.
  pub string_set : Option (List String) → List String → List String
  unfolding stripped_entries
  string_set none floor = floor
  string_set (some items) floor = stripped_entries items ++ floor

  usable_domains : List String → List String
  usable_domains [] = []
  usable_domains (domain ∷ domains) =
      add_domain (normalize_domain py domain) (usable_domains domains)

  -- The loop over the entries of `brands`.
  pub add_brands :
      List (String × List String) → List (String × List String) → List (String × List String)
  unfolding usable_domains
  add_brands [] brands = brands
  add_brands ((name, domains) ∷ entries) brands =
      let brand = py.casefold (strip name) in
      let usable = usable_domains domains in
      add_brands entries
        (if is_blank brand || is_empty usable then brands else insert brand usable brands)

  pub load_official_domains : RawCatalog → OfficialDomainCatalog
  unfolding baseline_catalog string_set add_brands
  load_official_domains RawCatalog.unreadable = baseline_catalog
  load_official_domains RawCatalog.malformed = baseline_catalog
  load_official_domains (RawCatalog.parsed entries shorteners nested_suffixes) = record {
    brands = add_brands entries baseline_brands;
    shorteners = string_set shorteners baseline_shorteners;
    nested_suffixes = string_set nested_suffixes baseline_nested_suffixes;
  }
