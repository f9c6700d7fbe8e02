-- ===== src/Engine/Rules/Loader/Sound.antt =====
-- What a loaded rule pack satisfies.
use avvalo.Prelude.{
  String, true, not, List, [], ◌∷◌, Option, none, some, ◌≡◌, refl, arith, contains-map-append,
  append-Distinct, contains, All, All-append, Distinct,
}
use avvalo.Raises.{Raises, ok}
use avvalo.Raises.Ensures.{Ensures, Ensures-bind, Ensures-then, Ensures-require, Ensures-ok}
use avvalo.Engine.Rules.Pack.{RuleDefinition, RulePack, id_of_rule, ids, validate_requires_graph}
use avvalo.Engine.Rules.Yaml.{
  Yaml, Yamls, Entries, require_str, require_list, require_dict, require_int, optional_str,
  as_mapping, document, get,
}
use avvalo.Engine.Rules.Loader.{
  has_entries, parse_pattern_groups, parse_exclude, parse_match_mode, parse_requires, parse_match,
  parse_rule, Loaded, add_rule, load_rules, load_families, load_rule_file, load_files, make_pack,
  load_yaml_rule_pack, descriptions_of,
}

-- Some language has a pattern.
abbrev pub HasPattern : RuleDefinition → Type 0
HasPattern rule = has_entries rule.match ≡ true

parse_match-has_entries :
    (entries : Entries) → Ensures (λ groups. has_entries groups ≡ true) (parse_match entries)
unfolding parse_match
parse_match-has_entries entries =
    Ensures-then (parse_pattern_groups entries) _
      (λ groups. Ensures-require (has_entries groups) _ _ (λ h. Ensures.returns h))

parse_rule-HasPattern :
    (value : Yaml) (family : String) → Ensures HasPattern (parse_rule value family)
unfolding parse_rule
parse_rule-HasPattern value family = Ensures-then (as_mapping value) _ λ entries.
    Ensures-then (require_dict value "match") _ λ match.
      Ensures-then (require_str value "id") _ λ id.
        Ensures-then (require_str value "desc") _ λ desc.
          Ensures-then (require_str value "message_key") _ λ message_key.
            Ensures-then (require_int value "severity") _ λ severity.
              Ensures-bind (parse_match-has_entries match) λ groups h.
                Ensures-then (optional_str entries "emits_signal") _ λ emits_signal.
                  Ensures-then (parse_exclude (get "exclude" entries)) _ λ exclude.
                    Ensures-then (parse_match_mode (get "match_mode" entries)) _ λ match_mode.
                      Ensures-then (parse_requires (get "requires" entries)) _
                        λ requires. Ensures.returns h

-- Between two rules of the loop: the ids are distinct, those seen are theirs, and each has a pattern.
record IsLoaded (loaded : Loaded) : Type 0 where
  pub seen : (k : String) → contains k loaded.seen ≡ contains k (ids loaded.rules)
  pub distinct : Distinct (ids loaded.rules)
  pub patterns : All HasPattern loaded.rules

add_rule-IsLoaded :
    (rule : RuleDefinition) (loaded : Loaded)
    → HasPattern rule
    → IsLoaded loaded
    → Ensures IsLoaded (add_rule rule loaded)
unfolding add_rule
add_rule-IsLoaded rule loaded h l =
    Ensures-require (not (contains rule.id loaded.seen)) _ _ λ fresh. Ensures.returns (record {
      seen = λ k. ground (arith, contains-map-append id_of_rule loaded.rules rule k, l.seen k);
      distinct =
          append-Distinct id_of_rule loaded.rules rule l.distinct (ground (arith, l.seen rule.id));
      patterns = All-append HasPattern loaded.rules (rule ∷ []) l.patterns (h, tt);
    })

load_rules-IsLoaded :
    (items : Yamls) (family : String) (loaded : Loaded)
    → IsLoaded loaded
    → Ensures IsLoaded (load_rules items family loaded)
unfolding load_rules
load_rules-IsLoaded Yamls.nil family loaded l = Ensures.returns l
load_rules-IsLoaded (Yamls.cons value rest) family loaded l =
    Ensures-bind (parse_rule-HasPattern value family) λ rule h.
      Ensures-bind (add_rule-IsLoaded rule loaded h l)
        λ next k. load_rules-IsLoaded rest family next k

load_families-IsLoaded :
    (items : Yamls) (loaded : Loaded)
    → IsLoaded loaded
    → Ensures IsLoaded (load_families items loaded)
unfolding load_families
load_families-IsLoaded Yamls.nil loaded l = Ensures.returns l
load_families-IsLoaded (Yamls.cons value rest) loaded l =
    Ensures-then (require_str value "family") _ λ family.
      Ensures-then (require_list value "rules") _ λ items.
        Ensures-bind (load_rules-IsLoaded items family loaded l)
          λ next k. load_families-IsLoaded rest next k

load_files-IsLoaded :
    (files : List (Raises Yaml)) (loaded : Loaded)
    → IsLoaded loaded
    → Ensures IsLoaded (load_files files loaded)
unfolding load_files load_rule_file
load_files-IsLoaded [] loaded l = Ensures.returns l
load_files-IsLoaded (file ∷ files) loaded l = Ensures-then file _ λ value.
    Ensures-bind
      (Ensures-then (require_list (document value) "families") _
        λ families. load_families-IsLoaded families loaded l)
      λ next k. load_files-IsLoaded files next k

-- A pack that the rules engine can rely on: no id stands twice, no gate names a gated rule, and the
-- descriptions are those of the rules.
pub record IsPack (pack : RulePack) : Type 0 where
  pub distinct : Distinct (ids pack.rules)
  pub gates : validate_requires_graph pack.rules ≡ true
  pub descriptions : pack.descriptions ≡ descriptions_of pack.rules

pub make_pack-IsPack :
    (rules : List RuleDefinition) → Distinct (ids rules) → Ensures IsPack (make_pack rules)
unfolding make_pack
make_pack-IsPack rules d =
    Ensures-require (validate_requires_graph rules) _ _
      λ h. Ensures.returns (record { distinct = d; gates = h; descriptions = refl })

pub make_pack_rules :
    (rules : List RuleDefinition) → Ensures (λ pack. pack.rules ≡ rules) (make_pack rules)
unfolding make_pack
make_pack_rules rules =
    Ensures-require (validate_requires_graph rules) _ _ λ _. Ensures.returns refl

make_pack-patterns :
    (rules : List RuleDefinition)
    → All HasPattern rules
    → Ensures (λ pack. All HasPattern pack.rules) (make_pack rules)
unfolding make_pack
make_pack-patterns rules h =
    Ensures-require (validate_requires_graph rules) _ _ λ _. Ensures.returns h

no_rules-IsLoaded : IsLoaded (record { seen = []; rules = [] })
no_rules-IsLoaded = record { seen = λ k. refl; distinct = tt; patterns = tt }

pub loaded-IsPack :
    (files : Option (List (Raises Yaml))) → Ensures IsPack (load_yaml_rule_pack files)
unfolding load_yaml_rule_pack
loaded-IsPack none = Ensures.fails
loaded-IsPack (some files) =
    Ensures-bind (load_files-IsLoaded files _ no_rules-IsLoaded)
      λ loaded l. make_pack-IsPack loaded.rules l.distinct

loaded-patterns :
    (files : Option (List (Raises Yaml)))
    → Ensures (λ pack. All HasPattern pack.rules) (load_yaml_rule_pack files)
unfolding load_yaml_rule_pack
loaded-patterns none = Ensures.fails
loaded-patterns (some files) =
    Ensures-bind (load_files-IsLoaded files _ no_rules-IsLoaded)
      λ loaded l. make_pack-patterns loaded.rules l.patterns

-- A rule pack that loads from the YAML files has distinct ids, gates that name only rules without a
-- gate, and the rules' descriptions; and each of its rules has a pattern.
pub load_yaml_rule_pack-IsPack :
    (files : Option (List (Raises Yaml))) (pack : RulePack)
    → load_yaml_rule_pack files ≡ ok pack
    → IsPack pack × All HasPattern pack.rules
load_yaml_rule_pack-IsPack files pack h =
    (Ensures-ok _ pack (loaded-IsPack files) h, Ensures-ok _ pack (loaded-patterns files) h)
