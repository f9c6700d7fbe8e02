-- ===== src/Engine/Language.antt =====
-- app/engine/language.py: the language of a reply. `langdetect` is a third-party package: the function
-- `detect_langs` gives its first guess with the probability in millionths, or nothing where it fails.
use avvalo.Prelude.{
  ℕ, String, Bool, false, ◌||◌, List, [], ◌∷◌, Option, none, some, ◌==◌, ltb, if◌then◌else◌, any,
  length, has_sub, String,
}
use Prim.Native.String.{◌++◌}
use avvalo.Stdlib.{Stdlib}
use avvalo.Engine.Types.{Language}

abbrev cyrillic_word_re : String
cyrillic_word_re = "[\\u0400-\\u04ff]+"

abbrev latin_word_re : String
latin_word_re = "[A-Za-z\\u02bc']+"

abbrev uz_cyrl_marker_re : String
uz_cyrl_marker_re = "[\\u040e\\u045e\\u0492\\u0493\\u049a\\u049b\\u04b2\\u04b3]"

-- `_UZ_LATN_MARKERS`
abbrev uz_latn_markers : List String
uz_latn_markers =
    " o'" ∷ " g'" ∷ " sh" ∷ " ch" ∷ " xavf" ∷ " yubor" ∷ " tekshir" ∷ " so'm" ∷ " to'lov" ∷ " bugun"
    ∷ " hozir" ∷ " uchun" ∷ " kart" ∷ " hisob" ∷ []

-- `_UZ_CYRL_WORDS`
abbrev uz_cyrl_words : List String
uz_cyrl_words =
    "хавф" ∷ "текшир" ∷ "юбор" ∷ "учун" ∷ "бугун" ∷ "ҳозир" ∷ "тўлов" ∷ "сўм" ∷ "карта" ∷ []

abbrev LangDetect : Type 0
LangDetect = String → Option (String × ℕ)

-- `_langdetect`, behind the call of the package
confident : Option (String × ℕ) → Option String
confident none = none
confident (some (lang, prob)) = if ltb prob 750000 then none else some lang

abbrev is_lang : String → Option String → Bool
is_lang lang none = false
is_lang lang (some found) = found == lang

-- Russian answers a Cyrillic text where nothing points to Uzbek.
abbrev cyrillic_fallback : Language → Language
cyrillic_fallback Language.uz_latn = Language.ru
cyrillic_fallback fallback = fallback

module _ (py : Stdlib) (detect_langs : String → Option (String × ℕ)) where
  resolve_cyrillic : String → Language → Language
  unfolding confident
  resolve_cyrillic text fallback =
      let detected = confident (detect_langs text) in
      if py.re_search uz_cyrl_marker_re text || any (λ marker. has_sub marker text) uz_cyrl_words
      then Language.uz_latn
      else if is_lang "ru" detected
      then Language.ru
      else if is_lang "uz" detected
      then Language.uz_latn
      else cyrillic_fallback fallback

  resolve_latin : String → Language → Language
  unfolding confident
  resolve_latin text fallback =
      if any (λ marker. has_sub marker text) uz_latn_markers
      then Language.uz_latn
      else if is_lang "uz" (confident (detect_langs text))
      then Language.uz_latn
      else fallback

  unfoldable pub resolve_content_language : String → Language → Language
  unfolding resolve_cyrillic resolve_latin
  resolve_content_language text fallback =
      let normalized = " " ++ (py.casefold text ++ " ") in
      let cyrillic = length (py.re_find_all cyrillic_word_re normalized) in
      let latin = length (py.re_find_all latin_word_re normalized) in
      if ltb latin cyrillic
      then resolve_cyrillic normalized fallback
      else if ltb cyrillic latin
      then resolve_latin normalized fallback
      else fallback
