-- ===== src/Engine/Format.antt =====
-- app/engine/format.py: the text that a user reads.
pub mod Copy
pub mod Share
use Prim.Native.String.{◌++◌}
use avvalo.Prelude.{
  String, Bool, true, false, List, [], ◌∷◌, Option, none, some, if◌then◌else◌, map, take, is_empty,
  is_blank, join,
}
use avvalo.Engine.Types.{DraftOutput, Evidence, Language}
use Copy.{
  heading_red_flags, heading_pattern, heading_verify, heading_ask, heading_no_signal,
  heading_limitation,
}

abbrev concat : List String → List String → List String
concat = mathlib.Core.List.◌++◌

-- `_section`
section : String → List String → String
section title bullets = title ++ ("\n" ++ join "\n" (map (λ bullet. "- " ++ bullet) bullets))

-- `if bullets: blocks.append(_section(…))`
section_if : String → List String → List String
section_if title bullets = if is_empty bullets then [] else section title bullets ∷ []

pattern_if : Language → Option String → List String
pattern_if language none = []
pattern_if language (some text) =
    if is_blank text then [] else (heading_pattern language ++ (" " ++ text)) ∷ []

-- `format_result`: only the text of a red flag is shown.
unfoldable pub format_result : DraftOutput → Language → Bool → String
unfolding section section_if pattern_if
format_result draft language no_signal =
    let red_flag_texts = map (λ (flag : Evidence). flag.text) (take 3 draft.red_flags) in
    let first =
      if no_signal
      then heading_no_signal language ∷ []
      else section_if (heading_red_flags language) red_flag_texts in
    join "\n\n" (
      concat first (
        concat (pattern_if language draft.pattern) (
          concat (section_if (heading_verify language) (take 3 draft.verify))
            (heading_limitation language ∷ section_if (heading_ask language) (take 3 draft.ask)))))
