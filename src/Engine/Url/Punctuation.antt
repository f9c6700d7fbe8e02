-- ===== src/Engine/Url/Punctuation.antt =====
-- `split_url_trailing_punctuation` of app/engine/url.py loses no character.
use Prim.Native.String.{◌++◌}
use text.Mathlib.TextLemmas.{nil-append, cons-append, append-nil}
use avvalo.Prelude.{
  ℕ, zero, suc, ◌≤◌, ◌⊎◌, inl, inr, Bool-cases, Char, String, true, false, ◌&&◌, ◌≡◌, refl, ap, ◌∙◌,
  arith, len, strip, char_in, char_is,
}
use avvalo.Stdlib.{Stdlib}
use avvalo.Engine.Url.{
  last_of, but_last, trim_punctuation, split_url_trailing_punctuation, ends_with_bracketed_host,
}
use avvalo.Engine.Url.Tables.{trailing_punctuation}

but_last-append-last :
    (c : Char) (s t : String) → but_last c s ++ String.◌∷◌ (last_of c s) t ≡ String.◌∷◌ c s ++ t
but_last-append-last c String.[] t = simp (nil-append, cons-append)
but_last-append-last c (String.◌∷◌ d s) t =
    simp (nil-append, cons-append)
      (ap (String.◌∷◌ c) (but_last-append-last d s t ∙ cons-append d s t))

len-but_last : (c : Char) (s : String) → len (but_last c s) ≡ len s
len-but_last c String.[] = refl
len-but_last c (String.◌∷◌ d s) = ap suc (len-but_last d s)

-- Why a text is left alone: nothing is left, its last character is no punctuation, or that is the
-- bracket that closes an IPv6 host.
abbrev pub IsTrimmed : Stdlib → String → Type 0
IsTrimmed py String.[] = Unit
IsTrimmed py (String.◌∷◌ c s) =
    (char_in (last_of c s) trailing_punctuation ≡ false)
    ⊎ (char_is b']' (last_of c s) && ends_with_bracketed_host py (String.◌∷◌ c s) ≡ true)

module _ (py : Stdlib) where
  trim_punctuation-append :
      (fuel : ℕ) (core suffix : String)
      → (let parts = trim_punctuation py fuel core suffix in parts.0 ++ parts.1 ≡ core ++ suffix)
  unfolding trim_punctuation
  trim_punctuation-append zero core suffix = refl
  trim_punctuation-append (suc fuel) String.[] suffix = refl
  trim_punctuation-append (suc fuel) (String.◌∷◌ c s) suffix = ground (
    arith,
    trim_punctuation-append fuel (but_last c s) (String.◌∷◌ (last_of c s) suffix),
    but_last-append-last c s suffix,
  )

  trim_punctuation-IsTrimmed :
      (fuel : ℕ) (core suffix : String)
      → len core ≤ fuel
      → IsTrimmed py (trim_punctuation py fuel core suffix).0
  unfolding trim_punctuation
  trim_punctuation-IsTrimmed zero String.[] suffix h = tt
  trim_punctuation-IsTrimmed zero (String.◌∷◌ c s) suffix h = elim h [ ]
  trim_punctuation-IsTrimmed (suc fuel) String.[] suffix h = tt
  trim_punctuation-IsTrimmed (suc fuel) (String.◌∷◌ c s) suffix h =
      elim (Bool-cases (char_in (last_of c s) trailing_punctuation)) [
        | inr plain ↦ rw plain (inl plain)
        | inl mark ↦
            elim (Bool-cases
              (char_is b']' (last_of c s) && ends_with_bracketed_host py (String.◌∷◌ c s))) [
                | inl host ↦ rw (mark, host) (inr host)
                | inr more ↦
                    rw (mark, more)
                      (trim_punctuation-IsTrimmed fuel (but_last c s)
                        (String.◌∷◌ (last_of c s) suffix) (omega (arith, len-but_last c s)))
              ]
      ]

  -- The core and the suffix make up the stripped text, and the core ends in no further punctuation
  -- but the closing bracket of a host: the loop ends, and it loses no character.
  pub split_url_trailing_punctuation_lem :
      (value : String)
      → (let parts = split_url_trailing_punctuation py value in
          (parts.0 ++ parts.1 ≡ strip value) × IsTrimmed py parts.0)
  unfolding split_url_trailing_punctuation
  split_url_trailing_punctuation_lem value = (
    trim_punctuation-append (len (strip value)) (strip value) "" ∙ append-nil (strip value),
    trim_punctuation-IsTrimmed (len (strip value)) (strip value) "" (omega arith),
  )
