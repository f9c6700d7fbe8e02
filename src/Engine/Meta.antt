-- ===== src/Engine/Meta.antt =====
-- app/engine/meta.py: chatter that is no situation to check.
pub mod Phrases
use avvalo.Prelude.{String, Bool, contains, strip}
use avvalo.Stdlib.{Stdlib}
use Phrases.{meta_phrases}

abbrev leading_address_re : String
leading_address_re = "^(avvalo|аввало)[,:\\s]+"

abbrev trailing_punct_re : String
trailing_punct_re = "[?!.,;:…\\s]+$"

module _ (py : Stdlib) where
  -- `_normalize`
  unfoldable pub normalize : String → String
  normalize text =
      let lowered = py.casefold (strip text) in
      let unaddressed = py.re_sub leading_address_re "" lowered in
      let bare = py.re_sub trailing_punct_re "" unaddressed in strip (py.re_sub "\\s+" " " bare)

  unfoldable pub is_meta_message : String → Bool
  unfolding normalize
  is_meta_message text = contains (normalize text) meta_phrases
