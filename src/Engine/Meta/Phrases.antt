-- ===== src/Engine/Meta/Phrases.antt =====
-- `_META_PHRASES` of app/engine/meta.py.
use avvalo.Prelude.{String, List, [], ◌∷◌}

abbrev pub meta_phrases : List String
meta_phrases =
    "привет" ∷ "приветик" ∷ "здравствуй" ∷ "здравствуйте" ∷ "хай" ∷ "хеллоу" ∷ "алло"
    ∷ "что ты умеешь" ∷ "что вы умеете" ∷ "что ты можешь" ∷ "что вы можете" ∷ "что ты умеешь делать"
    ∷ "что ты можешь делать" ∷ "чем ты можешь помочь" ∷ "чем поможешь" ∷ "чем можешь помочь"
    ∷ "как ты работаешь" ∷ "как это работает" ∷ "как ты помогаешь" ∷ "что это" ∷ "что это такое"
    ∷ "что за бот" ∷ "кто ты" ∷ "кто вы" ∷ "ты кто" ∷ "вы кто" ∷ "help" ∷ "помощь" ∷ "справка"
    ∷ "спасибо" ∷ "спасибо большое" ∷ "благодарю" ∷ "ок" ∷ "окей" ∷ "test" ∷ "тест"
    ∷ "проверка связи" ∷ "salom" ∷ "assalomu alaykum" ∷ "alaykum assalom" ∷ "sen kimsan"
    ∷ "siz kimsiz" ∷ "sen nima qila olasan" ∷ "siz nima qila olasiz" ∷ "nima qila olasan"
    ∷ "nima qila olasiz" ∷ "nimalar qila olasan" ∷ "sen nima qilasan" ∷ "siz nima qilasiz"
    ∷ "nima ish qilasan" ∷ "qanday yordam bera olasan" ∷ "qanday ishlaydi" ∷ "bu nima"
    ∷ "bu qanday ishlaydi" ∷ "sen nima uchun kerak" ∷ "yordam" ∷ "rahmat" ∷ "katta rahmat"
    ∷ "tashakkur" ∷ "xop" ∷ "sinov" ∷ "салом" ∷ "сен кимсан" ∷ "нима қила оласан" ∷ "раҳмат" ∷ []
