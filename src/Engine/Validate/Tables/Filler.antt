-- ===== src/Engine/Validate/Tables/Filler.antt =====
-- Stock phrases of app/engine/validate.py.
use avvalo.Prelude.{Char, String, List, [], ◌∷◌}

-- `_FILLER_PATTERNS`
abbrev pub filler_patterns : List String
filler_patterns =
    "(?:пожалуйста,?\\s*)?будьте\\s+(?:осторожны|бдительны|внимательны)(?:\\s+в\\s+интернете)?"
    ∷ "(?:пожалуйста,?\\s*)?соблюдайте\\s+осторожность(?:\\s+в\\s+интернете)?"
    ∷ "проявляйте\\s+(?:бдительность|осторожность|внимательность)"
    ∷ "всегда\\s+проверяйте\\s+(?:информацию|источники|официальные\\s+источники)"
    ∷ "не\\s+доверяйте\\s+(?:незнакомцам|незнакомым\\s+людям)"
    ∷ "это\\s+может\\s+быть\\s+(?:опасно|небезопасно)"
    ∷ "(?:iltimos,?\\s*)?(?:ehtiyot|hushyor|diqqatli)\\s+bo'ling(?:\\s+internetda)?"
    ∷ "doimo\\s+(?:rasmiy\\s+)?(?:manbalarni|ma'lumotlarni)\\s+tekshiring"
    ∷ "notanish\\s+(?:odamlarga|kishilarga)\\s+ishonmang" ∷ "bu\\s+xavfli\\s+bo'lishi\\s+mumkin"
    ∷ "(?:илтимос,?\\s*)?(?:эҳтиёт|ҳушёр|диққатли)\\s+бўлинг"
    ∷ "доимо\\s+(?:расмий\\s+)?манбаларни\\s+текширинг"
    ∷ "(?:please\\s+)?be\\s+(?:careful|vigilant|cautious)(?:\\s+online)?"
    ∷ "exercise\\s+caution(?:\\s+online)?" ∷ "stay\\s+safe(?:\\s+online)?"
    ∷ "always\\s+verify\\s+(?:information|sources|official\\s+sources)" ∷ []

-- `_BULLET_EDGE_RE`
abbrev pub bullet_edge_re : String
bullet_edge_re = "^[\\s\\W_]+|[\\s\\W_]+$"

-- `_UZ_APOSTROPHES`
abbrev pub uz_apostrophes : List (Char × Char)
uz_apostrophes = ("’", "'") ∷ ("‘", "'") ∷ ("`", "'") ∷ ("ʼ", "'") ∷ ("՚", "'") ∷ ("´", "'") ∷ []
