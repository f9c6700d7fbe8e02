-- ===== src/Engine/Url/Catalog/Floor.antt =====
-- What every loaded catalog of official domains holds.
use avvalo.Prelude.{
  any, String, true, false, List, [], ◌∷◌, Option, none, some, ◌≡◌, refl, arith, contains,
  contains-append, contains-insert, keys, strip, is_empty, insert, All,
}
use avvalo.Stdlib.{Stdlib}
use avvalo.Engine.Url.{OfficialDomainCatalog}
use avvalo.Engine.Url.Tables.{baseline_brands, baseline_shorteners, baseline_nested_suffixes}
use avvalo.Engine.Url.Catalog.{
  RawCatalog, baseline_catalog, stripped_entries, string_set, usable_domains, add_brands,
  load_official_domains,
}

abbrev HasDomains : List (String × List String) → Type 0
HasDomains brands = All (λ (b : String × List String). is_empty b.1 ≡ false) brands

-- The floor in the code, and a domain for each brand.
record IsFloored (catalog : OfficialDomainCatalog) : Type 0 where
  pub brands :
      (b : String)
      → contains b (keys baseline_brands) ≡ true
      → contains b (keys catalog.brands) ≡ true
  pub shorteners :
      (s : String) → contains s baseline_shorteners ≡ true → contains s catalog.shorteners ≡ true
  pub nested_suffixes :
      (s : String)
      → contains s baseline_nested_suffixes ≡ true
      → contains s catalog.nested_suffixes ≡ true
  pub domains : HasDomains catalog.brands

HasDomains-of_any :
    (brands : List (String × List String))
    → any (λ (b : String × List String). is_empty b.1) brands ≡ false
    → HasDomains brands
HasDomains-of_any [] h = tt
HasDomains-of_any (b ∷ brands) h = ground (arith, HasDomains-of_any brands)

baseline-HasDomains : HasDomains baseline_brands
baseline-HasDomains = HasDomains-of_any baseline_brands refl

insert-HasDomains :
    (name : String) (domains : List String) (brands : List (String × List String))
    → is_empty domains ≡ false
    → HasDomains brands
    → HasDomains (insert name domains brands)
insert-HasDomains name domains [] h k = (h, tt)
insert-HasDomains name domains ((n, d) ∷ brands) h k =
    ground (arith, insert-HasDomains name domains brands h k.1)

module _ (py : Stdlib) where
  string_set-floor :
      (items : Option (List String)) (floor : List String) (s : String)
      → contains s floor ≡ true
      → contains s (string_set py items floor) ≡ true
  unfolding string_set
  string_set-floor none floor s h = h
  string_set-floor (some items) floor s h =
      ground (arith, contains-append s (stripped_entries py items) floor)

  add_brands-keeps :
      (entries brands : List (String × List String)) (b : String)
      → contains b (keys brands) ≡ true
      → contains b (keys (add_brands py entries brands)) ≡ true
  unfolding add_brands
  add_brands-keeps [] brands b h = h
  add_brands-keeps ((name, domains) ∷ entries) brands b h = ground (
    arith,
    add_brands-keeps entries brands b,
    add_brands-keeps entries (insert (py.casefold (strip name)) (usable_domains py domains) brands)
        b,
    contains-insert (py.casefold (strip name)) b (usable_domains py domains) brands,
  )

  add_brands-HasDomains :
      (entries brands : List (String × List String))
      → HasDomains brands
      → HasDomains (add_brands py entries brands)
  unfolding add_brands
  add_brands-HasDomains [] brands h = h
  add_brands-HasDomains ((name, domains) ∷ entries) brands h = ground (
    arith,
    add_brands-HasDomains entries brands,
    add_brands-HasDomains entries
        (insert (py.casefold (strip name)) (usable_domains py domains) brands),
    insert-HasDomains (py.casefold (strip name)) (usable_domains py domains) brands,
  )

  -- Whatever the catalog file holds, every brand, shortener and nested suffix of the floor in the code
  -- is in the loaded catalog, and each of its brands has a domain.
  load_official_domains-IsFloored : (raw : RawCatalog) → IsFloored (load_official_domains py raw)
  unfolding load_official_domains baseline_catalog
  load_official_domains-IsFloored RawCatalog.unreadable = record {
    brands = λ b h. h;
    shorteners = λ s h. h;
    nested_suffixes = λ s h. h;
    domains = baseline-HasDomains;
  }
  load_official_domains-IsFloored RawCatalog.malformed = record {
    brands = λ b h. h;
    shorteners = λ s h. h;
    nested_suffixes = λ s h. h;
    domains = baseline-HasDomains;
  }
  load_official_domains-IsFloored (RawCatalog.parsed entries shorteners suffixes) = record {
    brands = add_brands-keeps entries baseline_brands;
    shorteners = string_set-floor shorteners baseline_shorteners;
    nested_suffixes = string_set-floor suffixes baseline_nested_suffixes;
    domains = add_brands-HasDomains entries baseline_brands baseline-HasDomains;
  }
