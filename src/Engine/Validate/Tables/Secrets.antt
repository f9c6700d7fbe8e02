-- ===== src/Engine/Validate/Tables/Secrets.antt =====
-- Patterns of app/engine/validate.py for contacts, secrets and verdicts.
use avvalo.Prelude.{String, List, [], ◌∷◌}

-- `_PHONE_RE`
abbrev pub phone_re : String
phone_re = "(?i)(?<!\\d)(?:\\+?\\d[\\d\\s().-]{6,}\\d)(?!\\d)"

-- `_EMAIL_RE`
abbrev pub email_re : String
email_re = "(?i)\\b[a-z0-9._%+-]+@[a-z0-9.-]+\\.[a-z]{2,}\\b"

-- `_URL_OR_DOMAIN_RE`
abbrev pub url_or_domain_re : String
url_or_domain_re =
    "(?ix)\\b(?:https?|hxxps?)://[^\\s<>()]+|\\bwww\\.[a-z0-9.-]+\\.[a-z]{2,}(?:/[^\\s<>()]*)?|\\b(?:[a-z0-9](?:[a-z0-9-]{0,61}[a-z0-9])?\\.)+[a-z]{2,63}\\b(?:/[^\\s<>()]*)?"

-- `_CARD_RE`
abbrev pub card_re : String
card_re = "(?<!\\d)(?:\\d[ -]?){13,19}(?!\\d)"

-- `_PASSPORT_RE`
abbrev pub passport_re : String
passport_re = "(?i)(?<![a-z0-9])(?:[a-z]{2}\\s?\\d{7})(?![a-z0-9])"

-- `_OTP_LABELED_RE`
abbrev pub otp_labeled_re : String
otp_labeled_re =
    "(?iu)\\b(?:otp|sms\\s*code|sms\\s*kod|kod|code|код|смс\\s*код)[^\\d]{0,20}\\d{4,8}(?!\\d)"

-- `_PASSWORD_VALUE_RE`
abbrev pub password_value_re : String
password_value_re = "(?iu)\\b(?:password|parol|пароль)[\\s:=\\-]{0,10}\\S{3,}"

-- `_DIRECT_VERDICT_PATTERNS`
abbrev pub direct_verdict_patterns : List String
direct_verdict_patterns =
    "(?iu)\\bмошенничеств\\w*\\b" ∷ "(?i)\\bfiribgarlik\\w*\\b" ∷ "(?iu)\\bфирибгарлик\\w*\\b"
    ∷ "(?i)\\bno\\s+(?:risk|danger|warning\\s+signs?)\\s+(?:was\\s+|were\\s+)?(?:detected|found|identified)\\b"
    ∷ "(?i)\\b(?:the\\s+)?(?:company|organization|business)\\s+(?:is|appears|seems)\\s+(?:trustworthy|reliable)\\b"
    ∷ "(?iu)\\bриск\\w*\\s+не\\s+(?:выявлен\\w*|обнаружен\\w*|найден\\w*)\\b"
    ∷ "(?iu)\\bкомпани\\w*\\s+можно\\s+доверять\\b"
    ∷ "(?i)\\bxavf\\w*\\s+(?:aniqlanmadi|topilmadi|ko['’]?rinmadi)\\b"
    ∷ "(?i)\\b(?:bu\\s+)?(?:kompaniya|tashkilot)(?:ga)?\\s+ishon(?:sa|ish)\\w*\\b" ∷ []

-- `_RISK_SCORE_PATTERNS`
abbrev pub risk_score_patterns : List String
risk_score_patterns =
    "(?i)\\b(?:risk|danger|trust|safety)\\s+(?:score|rating|probability)\\b"
    ∷ "(?iu)\\b(?:уровень|оценка|вероятность)\\s+(?:риска|опасности|доверия)\\b"
    ∷ "(?i)\\b(?:xavf|ishonch)\\s+(?:darajasi|bali|bahosi|ehtimoli)\\b"
    ∷ "(?iu)\\b(?:хавф|ишонч)\\s+(?:даражаси|бали|баҳоси|эҳтимоли)\\b"
    ∷ "(?i)\\b(?:risk|danger|trust|safety|probability|chance)\\b.{0,24}\\b\\d{1,3}(?:[.,]\\d+)?\\s*(?:%|percent(?:age)?)"
    ∷ "(?i)\\b\\d{1,3}(?:[.,]\\d+)?\\s*(?:%|percent(?:age)?)\\b.{0,24}\\b(?:risk|danger|likely|probability|chance)\\b"
    ∷ "(?iu)\\b(?:риск|опасност|довер|вероятност)\\w*\\b.{0,24}\\b\\d{1,3}(?:[.,]\\d+)?\\s*(?:%|процент(?:а|ов)?)"
    ∷ "(?i)\\b(?:xavf|ishonch|ehtimol)\\w*\\b.{0,24}\\b\\d{1,3}(?:[.,]\\d+)?\\s*(?:%|foiz)"
    ∷ "(?iu)\\b(?:хавф|ишонч|эҳтимол)\\w*\\b.{0,24}\\b\\d{1,3}(?:[.,]\\d+)?\\s*(?:%|фоиз)" ∷ []
