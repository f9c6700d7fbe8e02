-- ===== src/Engine/Minimize.antt =====
-- app/engine/minimize.py: a view of the submitted text without protected identifiers.
mod Patterns
use Prim.Native.String.{◌++◌}
use avvalo.Prelude.{
  Char, String, Bool, true, false, ◌&&◌, List, [], ◌∷◌, Option, none, some, leb, if◌then◌else◌, len,
  is_blank, char_is,
}
use avvalo.Stdlib.{Stdlib}
use avvalo.Engine.Url.{OfficialDomainCatalog, split_url_trailing_punctuation, last_of}
use avvalo.Engine.Url.Classify.{classify_link}
use avvalo.Engine.Url.Tables.{url_re}
use Patterns.{
  email_re, tme_re, handle_re, phone_re, code_value_re, secret_value_re, passport_re, card_re,
  address_re, name_re,
}

link_token : Option String → String
link_token none = "[LINK]"
link_token (some label) = "[LINK: " ++ (label ++ "]")

-- The last character is "@".
ends_in_at : String → Bool
ends_in_at String.[] = false
ends_in_at (String.◌∷◌ c s) = char_is b'@' (last_of c s)

module _ (py : Stdlib) (catalog : OfficialDomainCatalog) where
  -- `_replace_link`
  replace_link : String → String
  unfolding link_token
  replace_link value =
      let (core, suffix) = split_url_trailing_punctuation py value in
      link_token (classify_link py catalog core) ++ suffix

  -- `_replace_card`
  replace_card : String → String
  replace_card value =
      let digits = py.re_sub "\\D" "" value in
      if leb 13 (len digits) && leb (len digits) 19 then "[CARD]" else value

  -- `_minimize_protected_values`
  pub minimize_protected_values : String → Bool → String
  unfolding replace_link replace_card
  minimize_protected_values raw_text preserve_names =
      let email = py.re_sub email_re "[EMAIL]" raw_text in
      let tme = py.re_sub tme_re "[HANDLE]" email in
      let link = py.re_sub_by url_re replace_link tme in
      let handle = py.re_sub handle_re "[HANDLE]" link in
      let phone = py.re_sub phone_re "[PHONE]" handle in
      let secret = py.re_sub secret_value_re "\\1[SECRET]" phone in
      let code = py.re_sub code_value_re "\\1[CODE]" secret in
      let passport = py.re_sub passport_re "[PASSPORT]" code in
      let card = py.re_sub_by card_re replace_card passport in
      let address = py.re_sub address_re "[ADDRESS]" card in
      if preserve_names then address else py.re_sub name_re "[NAME]" address

  -- The loop of `_minimize_around_urls`: `pending` is the text since the cursor, `before` the match
  -- that came last, for the character in front of the next.
  around_urls : Bool → String → String → List (String × String) → String → String
  around_urls names pending before [] tail = minimize_protected_values (pending ++ tail) names
  around_urls names pending before ((between, url) ∷ pieces) tail =
      let span = pending ++ between in
      let skipped = around_urls names (span ++ url) url pieces tail in
      let kept =
        minimize_protected_values span names ++ (url ++ around_urls names "" url pieces tail) in
      if ends_in_at (if is_blank between then before else between) then skipped else kept

  pub minimize : String → Bool → Bool → String
  unfolding around_urls
  minimize raw_text preserve_names preserve_urls =
      let (pieces, tail) = py.re_pieces url_re raw_text in
      if preserve_urls
      then around_urls preserve_names "" "" pieces tail
      else minimize_protected_values raw_text preserve_names
