-- ===== src/Engine/Validate/Tables/Claims.antt =====
-- Patterns of app/engine/validate.py for unsafe advice and unsupported claims.
use avvalo.Prelude.{String, List, [], ◌∷◌}

-- `_UNSAFE_PATTERNS`
abbrev pub unsafe_patterns : List String
unsafe_patterns =
    "(?i)\\b(?:open|click|follow|visit)\\s+(?:the\\s+)?(?:link|url)\\b"
    ∷ "(?i)\\bscan\\s+(?:the\\s+)?qr\\b"
    ∷ "(?i)\\b(?:call|text|write|message)\\s+(?:the\\s+)?(?:number|phone)\\s+(?:from|in|inside)\\s+(?:the\\s+)?message\\b"
    ∷ "(?i)\\breply\\s+(?:to\\s+)?(?:check|test)\\b"
    ∷ "(?iu)\\b(?:откройте|открой|перейдите|перейди|нажмите|нажми)\\s+(?:по\\s+)?(?:ссылк[ауе]|линк)\\b"
    ∷ "(?iu)\\b(?:отсканируйте|сканируйте|сканируй)\\s+(?:qr|qr-код|код)\\b"
    ∷ "(?iu)\\b(?:позвоните|позвони|напишите|напиши)\\s+(?:на\\s+)?(?:номер|телефон)\\s+(?:из|в)\\s+(?:сообщени[яие]|чата)\\b"
    ∷ "(?iu)\\b(?:ответьте|ответь)\\s+(?:чтобы\\s+)?(?:проверить|протестировать)\\b"
    ∷ "(?i)\\b(?:linkni|havolani)\\s+(?:och|oching|bosing)\\b"
    ∷ "(?i)\\bqr\\s*(?:kodni|kodingizni)?\\s*(?:skanerlang|skaner qil)\\b"
    ∷ "(?i)\\b(?:xabardagi|chatdagi)\\s+(?:raqam|telefon)(?:ga)?\\s+(?:qo'ng'iroq|qongiroq|yoz)\\b"
    ∷ "(?iu)\\b(?:линкни|ҳаволани|хаволани)\\s+(?:очинг|босинг)\\b"
    ∷ "(?iu)\\bqr\\s*(?:кодни)?\\s*(?:сканерланг|сканер қилинг)\\b"
    ∷ "(?iu)\\b(?:хабардаги|чатдаги)\\s+(?:рақам|телефон)(?:га)?\\s+(?:қўнғироқ|ёз)\\b" ∷ []

-- `_UNSUPPORTED_LOOKUP_PATTERNS`
abbrev pub unsupported_lookup_patterns : List String
unsupported_lookup_patterns =
    "(?i)\\b(?:i|we|avvalo)\\s+(?:checked|searched|verified)\\s+(?:the\\s+)?(?:(?:external|public|internal)\\s+)?(?:database|records|account|identity|website|organization)\\b"
    ∷ "(?iu)\\b(?:я|мы|avvalo)\\s+проверил(?:а|и)?\\s+(?:базу|аккаунт|сч[её]т|личность|сайт|организацию)\\b"
    ∷ "(?i)\\b(?:men|biz|avvalo)\\s+(?:baza|hisob|shaxs|sayt|tashkilot)(?:ni)?\\s+tekshird(?:im|ik|i)\\b"
    ∷ "(?iu)\\b(?:мен|биз|avvalo)\\s+(?:база|ҳисоб|шахс|сайт|ташкилот)(?:ни)?\\s+текширд(?:им|ик|и)\\b"
    ∷ "(?i)\\b(?:i|we|avvalo)\\s+(?:checked|searched|verified)\\s+(?:all|every)\\s+(?:the\\s+)?official\\s+(?:databases?|records?)\\b"
    ∷ "(?iu)\\b(?:я|мы|avvalo)\\s+проверил(?:а|и)?\\s+все\\s+официальн\\w*\\s+(?:баз\\w*|реестр\\w*)\\b"
    ∷ "(?i)\\b(?:men|biz|avvalo)\\s+barcha\\s+rasmiy\\s+(?:baza|reyestr)(?:larni|ni)?\\s+tekshird(?:im|ik|i)\\b"
    ∷ "(?i)\\b(?:this\\s+)?(?:phone\\s+number|phone|number)\\s+(?:has\\s+been\\s+|was\\s+)?reported\\b"
    ∷ "(?iu)\\b(?:этот\\s+)?(?:номер|телефон)\\s+(?:был\\s+)?(?:отмечен|зарегистрирован)\\b"
    ∷ "(?i)\\b(?:bu\\s+)?(?:telefon\\s+)?raqam\\s+(?:haqida\\s+)?xabar\\s+berilgan\\b"
    ∷ "(?i)\\b(?:the\\s+)?(?:company|organization|business)\\s+(?:does\\s+not|doesn['’]?t)\\s+exist\\b"
    ∷ "(?iu)\\b(?:компани\\w*|организаци\\w*)\\s+не\\s+существует\\b"
    ∷ "(?i)\\b(?:kompaniya|tashkilot)\\s+mavjud\\s+emas\\b"
    ∷ "(?i)\\b(?:the\\s+)?(?:(?:external|public|internal)\\s+)?(?:database|records)\\s+(?:shows?|indicates?|confirms?|verified|found|returned|contains?|has)\\b"
    ∷ "(?iu)\\bпо\\s+(?:(?:внешн|публичн|внутренн)\\w*\\s+)?базе(?:\\s+данных)?\\b.{0,80}\\b(?:совпадени\\w*\\s+нет|ничего\\s+не\\s+найдено|подтвержд\\w*|показыва\\w*|найден\\w*)\\b"
    ∷ "(?iu)\\b(?:(?:внешн|публичн|внутренн)\\w*\\s+)?база(?:\\s+данных)?\\s+(?:показывает|подтверждает|не\\s+нашла|нашла|содержит)\\b"
    ∷ "(?i)\\b(?:(?:tashqi|ochiq|ichki)\\s+)?baza(?:da|si)?\\b.{0,80}\\b(?:tasdiq|ko['‘’]?rsat|topil|aniqla)\\w*\\b"
    ∷ "(?iu)\\b(?:(?:ташқи|очиқ|ички)\\s+)?база(?:да|си)?\\b.{0,80}\\b(?:тасдиқ|кўрсат|топил|аниқла)\\w*\\b"
    ∷ []

-- `_PAYMENT_CONFIRMED_PATTERNS`
abbrev pub payment_confirmed_patterns : List String
payment_confirmed_patterns =
    "(?iu)\\b(?:деньги|средства)\\s+(?:пришли|поступили|получены)\\b"
    ∷ "(?iu)\\b(?:оплата|платёж|платеж|перевод)\\s+(?:прошла|прошёл|прошел|получен(?:а)?|поступил(?:а)?|подтвержд[её]н(?:а)?)\\b"
    ∷ "(?iu)\\b(?:платёж|платеж|перевод|чек|квитанция)\\s+(?:настоящий|настоящая|подлинный|подлинная)\\b"
    ∷ "(?i)\\bpul\\s+(?:keldi|tushdi|o['‘’ʻ]?tdi)\\b"
    ∷ "(?i)\\bto['‘’ʻ]?lov\\s+(?:o['‘’ʻ]?tdi|keldi|tushdi|tasdiqlandi)\\b"
    ∷ "(?iu)\\bпул\\s+(?:келди|тушди)\\b" ∷ "(?iu)\\bтўлов\\s+(?:ўтди|келди|тушди|тасдиқланди)\\b"
    ∷ []

-- `_PAYMENT_DISCLAIMER_RE`
abbrev pub payment_disclaimer_re : String
payment_disclaimer_re =
    "(?iu)(?:не\\s+(?:доказыва|подтвержда|означа|значит|гарантиру|явля)\\w*|не\\s+доказательств\\w*|(?:пока|ещ[её])\\s+не\\b|не\\s+факт\\b|isbot\\s*(?:emas|lamaydi)|tasdiqla(?:maydi|nmagan)|degani\\s+emas|hali\\s+emas|исбот\\s*(?:эмас|ламайди)|тасдиқла(?:майди|нмаган)|дегани\\s+эмас)"

-- `_SENTENCE_SPLIT_RE`
abbrev pub sentence_split_re : String
sentence_split_re = "[.!?\\n;]+"

-- `_CASE_PROOF_PATTERNS`
abbrev pub case_proof_patterns : List String
case_proof_patterns =
    "(?i)\\b(?:same|identical)\\s+(?:reviewed\\s+)?case\\b.*\\b(?:proves?|confirms?)\\b"
    ∷ "(?iu)\\b(?:тот\\s+же|такой\\s+же)\\s+случай\\b.*\\b(?:доказывает|подтверждает)\\b"
    ∷ "(?i)\\b(?:aynan\\s+o'sha|xuddi\\s+shu)\\s+(?:holat|voqea)\\b.*\\b(?:isbot|tasdiq)\\b"
    ∷ "(?iu)\\b(?:айнан\\s+ўша|худди\\s+шу)\\s+(?:ҳолат|воқеа)\\b.*\\b(?:исбот|тасдиқ)\\b" ∷ []

-- `_INTERNAL_KNOWLEDGE_ID_RE`
abbrev pub internal_knowledge_id_re : String
internal_knowledge_id_re = "(?i)\\b(?:family|merchants)\\.[a-z0-9_.-]+\\b"

-- `_BLOCKLIST_CLAIM_RE`
abbrev pub blocklist_claim_re : String
blocklist_claim_re =
    "(?iu)\\b(?:blocklist|blacklist|ч[её]рн\\w*\\s+спис\\w*|блоклист\\w*|bloklist\\w*|qora\\s+ro.yxat\\w*|(?:public\\s+)?phishing\\s+(?:list|feed|database)|фишинг\\w*\\s+(?:спис\\w*|баз\\w*|лент\\w*)|(?:ochiq\\s+)?fishing\\s+(?:ro.yxat\\w*|list|baza)|фишинг\\w*\\s+(?:рўйхат\\w*|база\\w*))\\b"
