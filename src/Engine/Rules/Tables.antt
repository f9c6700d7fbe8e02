-- ===== src/Engine/Rules/Tables.antt =====
-- Constants of app/engine/rules/engine.py. The flag `re.IGNORECASE` stands as `(?i)` in the pattern.
use avvalo.Prelude.{Char, String, List, [], ◌∷◌}

-- `_EMAIL_RE`
abbrev pub email_re : String
email_re = "(?i)\\b[a-z0-9._%+-]+@[a-z0-9.-]+\\.[a-z]{2,}\\b"

-- `_HANDLE_RE`
abbrev pub handle_re : String
handle_re = "(?i)(?<!\\w)@[a-z0-9_]{4,32}\\b"

-- `_PHONE_RE`
abbrev pub phone_re : String
phone_re =
    "(?<!\\d)(?:\\+\\d{1,3}(?:[\\s().-]*\\d){6,14}|(?:\\+?998[\\s().-]?)?(?:\\(?[2-9]\\d\\)?[\\s().-]?)\\d{3}[\\s().-]?\\d{2}[\\s().-]?\\d{2})(?!\\d)"

-- `_CARD_RE`
abbrev pub card_re : String
card_re = "(?<!\\d)(?:\\d[ -]?){13,19}(?!\\d)"

-- `_CODE_RE`
abbrev pub code_re : String
code_re = "(?iu)\\b(?:sms\\s*)?(?:otp|kod|code|код|парол|password)[^\\d]{0,20}(\\d{4,8})(?!\\d)"

-- `_TRANSFER_NEAR_CARD_RE`
abbrev pub transfer_near_card_re : String
transfer_near_card_re =
    "(?iu)(?:karta|карта|card|перевод|perevod|o'tkaz|ўтказ|tashla|ташла|qaytar|қайтар).{0,80}(?:\\d[ -]?){13,19}|(?:\\d[ -]?){13,19}.{0,80}(?:karta|карта|card|перевод|perevod|o'tkaz|ўтказ|tashla|ташла|qaytar|қайтар)"

-- `_APOSTROPHES`
abbrev pub apostrophes : List (Char × Char)
apostrophes = ("’", "'") ∷ ("‘", "'") ∷ ("`", "'") ∷ ("ʼ", "'") ∷ ("՚", "'") ∷ ("´", "'") ∷ []
