-- ===== src/Examples/Lookups.antt =====
-- Rules, knowledge and links: app/engine/rules, app/engine/knowledge and app/engine/url.py.
use avvalo.Prelude.{
  true, false, not, ◌&&◌, [], ◌∷◌, ◌≡◌, none, some, refl, any, contains, is_empty, leb, strip,
  has_sub, translate, Distinct,
}
use Prim.Native.String.{◌++◌}
use avvalo.Engine.Rules.Matching.{rule_matches, normalize_text, translate_char, fold_io}
use avvalo.Engine.Rules.Pack.{find_rule, ids}
use avvalo.Engine.Rules.Passes.{run_rules, matching_patterns}
use avvalo.Engine.Rules.Passes.Preview.{run_rules_fires, matching_patterns-run_rules, hit_ids}
use avvalo.Engine.Knowledge.Types.{KnowledgeCard}
use avvalo.Engine.Knowledge.Retrieve.{
  retrieve_knowledge, retrieve_from, ask_router, assemble, select, cards_of, cards_by_id,
  insert_cards, mandatory_ids, rule_triggered, score_of, cue_scores, cue_matches, add_score,
  add_scores,
}
use avvalo.Engine.Knowledge.Ranking.{sorted, insert_sorted, ranks_before}
use avvalo.Engine.Knowledge.Retrieve.Selection.{IsAllowed, retrieve_knowledge-IsAllowed}
use avvalo.Engine.Url.{split_url_trailing_punctuation}
use avvalo.Engine.Url.Distance.{
  levenshtein_at_most_one, distance, levenshtein_at_most_one-eq-distance,
}
use avvalo.Engine.Url.Punctuation.{IsTrimmed, split_url_trailing_punctuation_lem}
use avvalo.Examples.Fixtures.{py, catalog, pack, otp_rule, otp_hit, base, router}

one_rule : Distinct (ids pack.rules)
one_rule = (refl, tt)

otp_found : find_rule "otp_request" pack.rules ≡ some otp_rule
unfolding find_rule
otp_found = refl

run_rules_fires_example :
    contains "otp_request" (hit_ids (run_rules py catalog pack "sms kod").0)
    ≡ (rule_matches py otp_rule (normalize_text py "sms kod") && true)
run_rules_fires_example =
    run_rules_fires py catalog pack "sms kod" "otp_request" otp_rule one_rule otp_found

matching_patterns-run_rules_example :
    is_empty (matching_patterns py catalog pack otp_rule "sms kod")
    ≡ not (contains "otp_request" (hit_ids (run_rules py catalog pack "sms kod").0))
matching_patterns-run_rules_example =
    matching_patterns-run_rules py catalog pack "sms kod" "otp_request" otp_rule one_rule otp_found

retrieve_knowledge-IsAllowed_example :
    IsAllowed base (retrieve_knowledge py (some base) "salom" [] [] (some router))
retrieve_knowledge-IsAllowed_example =
    retrieve_knowledge-IsAllowed py base "salom" [] [] (some router)

otp_selected :
    is_empty (retrieve_knowledge py (some base) "sms" (otp_hit ∷ []) [] none).cards ≡ false
unfolding retrieve_knowledge retrieve_from ask_router assemble select cards_of cards_by_id
    insert_cards mandatory_ids rule_triggered score_of cue_scores cue_matches add_score add_scores
    sorted insert_sorted ranks_before normalize_text translate_char fold_io strip has_sub translate
otp_selected = refl

otp_mandatory : contains "card_otp" (mandatory_ids base.cards ("otp_request" ∷ []) []) ≡ true
unfolding mandatory_ids
otp_mandatory = refl

sms_selected :
    any
      (λ (c : KnowledgeCard).
        not (contains c.id (mandatory_ids base.cards ("otp_request" ∷ []) [])))
      (retrieve_knowledge py (some base) "sms" (otp_hit ∷ []) [] (some router)).cards
    ≡ true
unfolding retrieve_knowledge retrieve_from ask_router assemble select cards_of cards_by_id
    insert_cards mandatory_ids rule_triggered score_of cue_scores cue_matches add_score add_scores
    sorted insert_sorted ranks_before normalize_text translate_char fold_io strip has_sub translate
sms_selected = refl

levenshtein_at_most_one-eq-distance_example :
    levenshtein_at_most_one "click" "clock" ≡ leb (distance "click" "clock") 1
levenshtein_at_most_one-eq-distance_example = levenshtein_at_most_one-eq-distance "click" "clock"

split_url_trailing_punctuation_lem_example :
    (let parts = split_url_trailing_punctuation py "click.uz)." in
      (parts.0 ++ parts.1 ≡ strip "click.uz).") × IsTrimmed py parts.0)
split_url_trailing_punctuation_lem_example = split_url_trailing_punctuation_lem py "click.uz)."
