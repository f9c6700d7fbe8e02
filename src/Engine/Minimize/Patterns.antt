-- ===== src/Engine/Minimize/Patterns.antt =====
-- The patterns of app/engine/minimize.py; a flag of `re.compile` stands in the pattern.
use avvalo.Prelude.{String}

-- `_EMAIL_RE`
abbrev pub email_re : String
email_re = "(?i)\\b[a-z0-9._%+-]+@[a-z0-9.-]+\\.[a-z]{2,}\\b"

-- `_TME_RE`
abbrev pub tme_re : String
tme_re = "(?i)\\b(?:https?|hxxps?)://t\\.me/[a-z0-9_]{4,32}\\b"

-- `_HANDLE_RE`
abbrev pub handle_re : String
handle_re = "(?i)(?<!\\w)@[a-z0-9_]{4,32}\\b"

-- `_PHONE_RE`
abbrev pub phone_re : String
phone_re =
    "(?<!\\d)(?:\\+\\d{1,3}(?:[\\s().-]*\\d){6,14}|(?:\\+?998[\\s().-]?)?(?:\\(?[2-9]\\d\\)?[\\s().-]?)\\d{3}[\\s().-]?\\d{2}[\\s().-]?\\d{2})(?!\\d)"

-- `_CODE_VALUE_RE`
abbrev pub code_value_re : String
code_value_re =
    "(?iu)\\b((?:sms\\s*)?(?:otp|kod|code|код|parol|пароль?|password)[^\\d]{0,20})(\\d{4,8})(?!\\d)"

-- `_SECRET_VALUE_RE`
abbrev pub secret_value_re : String
secret_value_re =
    "(?iu)\\b((?:password|parol|пароль?)(?:\\s+(?:is|bu|это))?[ \\t:=\\-\\u2013\\u2014]{1,10})(\\S{3,128})"

-- `_PASSPORT_RE`
abbrev pub passport_re : String
passport_re = "(?i)(?<![a-z0-9])(?:[a-z]{2}\\s?\\d{7})(?![a-z0-9])"

-- `_CARD_RE`
abbrev pub card_re : String
card_re = "(?<!\\d)(?:\\d[ -]?){13,19}(?!\\d)"

-- `_ADDRESS_RE`
abbrev pub address_re : String
address_re =
    "(?iu)\\b(?:ko['\\u2018\\u2019]chasi|\\u043a\\u0443\\u0447\\u0430\\u0441\\u0438|\\u043a\\u045e\\u0447\\u0430\\u0441\\u0438|\\u0443\\u043b\\u0438\\u0446\\u0430|\\u0443\\u043b\\.|street|st\\.)\\s+[^\\n,.;]{2,50}\\d*"

-- `_NAME_RE`
abbrev pub name_re : String
name_re =
    "(?<![\\w\\[])(?:[A-Z\\u0410-\\u042f\\u0401\\u040e\\u049a\\u0492\\u04b2][a-z\\u0430-\\u044f\\u0451\\u045e\\u049b\\u0493\\u04b3']{2,}\\s+){1,2}[A-Z\\u0410-\\u042f\\u0401\\u040e\\u049a\\u0492\\u04b2][a-z\\u0430-\\u044f\\u0451\\u045e\\u049b\\u0493\\u04b3']{2,}(?![\\w\\]])"
