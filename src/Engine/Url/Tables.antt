-- ===== src/Engine/Url/Tables.antt =====
-- Constants of app/engine/url.py.
use avvalo.Prelude.{Char, String, List, [], ◌∷◌}

-- `URL_RE`
abbrev pub url_re : String
url_re =
    "(?ix)\\b(?:https?|hxxps?)://[^\\s<>()]+|\\b(?:www\\.)?[a-z0-9\\u0080-\\uffff][a-z0-9\\u0080-\\uffff.-]*(?:\\.|\\[\\.\\]|\\(\\.\\))[a-z\\u0080-\\uffff]{2,}(?:/[^\\s<>()]*)?"

-- `_TRAILING_PUNCTUATION`
abbrev pub trailing_punctuation : String
trailing_punctuation = ".,;:!?)]}\"'"

abbrev pub label_shortened : String
label_shortened = "shortened"

abbrev pub label_lookalike : String
label_lookalike = "lookalike-domain"

abbrev pub label_domain_in_subdomain : String
label_domain_in_subdomain = "domain-in-subdomain"

abbrev pub label_mixed_script : String
label_mixed_script = "mixed-script-domain"

abbrev pub label_credentials : String
label_credentials = "credentials-in-url"

abbrev pub label_ip : String
label_ip = "ip-address"

-- `_CONFUSABLE_TO_ASCII`
abbrev pub confusable_to_ascii : List (Char × Char)
confusable_to_ascii =
    ("а", "a")
    ∷ ("в", "b")
    ∷ ("е", "e")
    ∷ ("ё", "e")
    ∷ ("к", "k")
    ∷ ("м", "m")
    ∷ ("н", "h")
    ∷ ("о", "o")
    ∷ ("р", "p")
    ∷ ("с", "c")
    ∷ ("т", "t")
    ∷ ("у", "y")
    ∷ ("х", "x")
    ∷ ("і", "i")
    ∷ ("ј", "j")
    ∷ ("ѕ", "s")
    ∷ ("ԁ", "d")
    ∷ ("һ", "h")
    ∷ ("ԛ", "q")
    ∷ ("ԝ", "w")
    ∷ ("α", "a")
    ∷ ("ε", "e")
    ∷ ("ι", "i")
    ∷ ("κ", "k")
    ∷ ("ν", "v")
    ∷ ("ο", "o")
    ∷ ("ρ", "p")
    ∷ ("τ", "t")
    ∷ ("υ", "u")
    ∷ ("χ", "x")
    ∷ []

-- `_BASELINE_BRANDS`
abbrev pub baseline_brands : List (String × List String)
baseline_brands =
    ("agrobank", "agrobank.uz" ∷ [])
    ∷ ("anorbank", "anorbank.uz" ∷ [])
    ∷ ("beeline", "beeline.uz" ∷ [])
    ∷ ("click", "click.uz" ∷ [])
    ∷ ("hamkorbank", "hamkorbank.uz" ∷ [])
    ∷ ("humo", "humocard.uz" ∷ "humo.uz" ∷ [])
    ∷ ("ipoteka", "ipotekabank.uz" ∷ [])
    ∷ ("kapitalbank", "kapitalbank.uz" ∷ [])
    ∷ ("olx", "olx.uz" ∷ [])
    ∷ ("payme", "payme.uz" ∷ [])
    ∷ ("telegram", "telegram.org" ∷ "t.me" ∷ [])
    ∷ ("uzcard", "uzcard.uz" ∷ [])
    ∷ ("uzum", "uzum.uz" ∷ "uzumbank.uz" ∷ [])
    ∷ ("xalqqbank", "xb.uz" ∷ [])
    ∷ []

-- `_BASELINE_SHORTENERS`
abbrev pub baseline_shorteners : List String
baseline_shorteners =
    "bit.ly" ∷ "clck.ru" ∷ "cutt.ly" ∷ "goo.gl" ∷ "is.gd" ∷ "lnkd.in" ∷ "ow.ly" ∷ "s.id"
    ∷ "shorturl.at" ∷ "t.co" ∷ "tiny.cc" ∷ "tinyurl.com" ∷ []

-- `_BASELINE_NESTED_SUFFIXES`
abbrev pub baseline_nested_suffixes : List String
baseline_nested_suffixes = "uz" ∷ "com" ∷ "net" ∷ "org" ∷ "ru" ∷ []
