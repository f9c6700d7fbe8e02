-- ===== src/Engine/Validate/Tables/Words.antt =====
-- Banned words of app/engine/validate.py.
use avvalo.Prelude.{String, List, [], ◌∷◌}

-- `_BANNED_WORDS[Language.ru]`
abbrev pub banned_ru : List String
banned_ru =
    "безопасно" ∷ "мошенничество" ∷ "мошенник" ∷ "аферист" ∷ "афёрист" ∷ "надежный" ∷ "надёжный"
    ∷ "законно" ∷ []

-- `_BANNED_WORDS[Language.uz_latn]`
abbrev pub banned_uz_latn : List String
banned_uz_latn = "xavfsiz" ∷ "firibgar" ∷ "firibgarlik" ∷ "ishonchli" ∷ "qonuniy" ∷ []

-- `_UZ_CYRL_BANNED`
abbrev pub uz_cyrl_banned : List String
uz_cyrl_banned = "хавфсиз" ∷ "фирибгар" ∷ "фирибгарлик" ∷ "ишончли" ∷ "қонуний" ∷ []

-- `_EN_BANNED`
abbrev pub en_banned : List String
en_banned =
    "safe" ∷ "verified" ∷ "legitimate" ∷ "not a scam" ∷ "scammer" ∷ "fraudster" ∷ "fraud confirmed"
    ∷ "fraud" ∷ []
