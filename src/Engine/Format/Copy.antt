-- ===== src/Engine/Format/Copy.antt =====
-- The copy of app/engine/format.py.
use avvalo.Prelude.{String, List, [], ◌∷◌}
use avvalo.Engine.Types.{Language, CheckStatus}

-- `_FAMILY_LABELS`: the family with its labels in Uzbek and Russian
abbrev pub family_labels : List (String × String × String)
family_labels =
    ("credential_theft", "kod yoki maxfiy ma'lumot so'rash", "запрос кодов или секретных данных")
    ∷ (
      "urgency_secrecy", "shoshirish yoki sir tutishni so'rash",
      "срочность или просьба держать в тайне",
    )
    ∷ (
      "authority_impersonation", "rasmiy tashkilot yoki yaqin odam nomidan yozish",
      "сообщение от имени организации или близкого",
    )
    ∷ (
      "upfront_payment", "oldindan to'lov yoki depozit so'rash",
      "предоплата или депозит до проверки",
    )
    ∷ ("verification_avoidance", "mustaqil tekshiruvdan qochish", "уход от независимой проверки")
    ∷ ("implausible_promise", "juda yaxshi ko'rinadigan va'da", "слишком выгодное обещание")
    ∷ ("suspicious_link_qr", "havola yoki QR orqali bosim", "давление через ссылку или QR")
    ∷ ("receipt_inconsistency", "to'lov hikoyasidagi nomuvofiqlik", "несостыковка в истории оплаты")
    ∷ (
      "amount_mismatch", "summa yoki qaytarim talabi mos kelmasligi",
      "несовпадение суммы или просьба о возврате",
    )
    ∷ (
      "edited_screenshot_hint", "skrinshotni to'lov isboti sifatida ko'rsatish",
      "скриншот как доказательство оплаты",
    )
    ∷ (
      "fake_courier_refund", "pul tasdiqlanmasdan jo'natishga bosim",
      "давление отправить товар до подтверждения",
    )
    ∷ []

-- `_SHARE_COPY[language]["lead"]`
abbrev pub share_lead : Language → String
share_lead Language.uz_latn = "Men Avvalo bilan shubhali vaziyatni ko'rib chiqdim."
share_lead Language.ru = "Я разобрал(а) сомнительную ситуацию с Avvalo."

-- `_SHARE_COPY[language]["generic"]`
abbrev pub share_generic : Language → String
share_generic Language.uz_latn = "Men Avvalo bilan shubhali vaziyatni ko'rib chiqdim."
share_generic Language.ru = "Я разобрал(а) сомнительную ситуацию с Avvalo."

-- `_SHARE_COPY[language]["caution"]`
abbrev pub share_caution : Language → String
share_caution Language.uz_latn = "Harakat qilishdan oldin muhim ma'lumotlarni mustaqil tekshiring."
share_caution Language.ru = "Проверьте важные сведения самостоятельно до того, как действовать."

-- `_SHARE_COPY[language]["cta"]`
abbrev pub share_cta : Language → String
share_cta Language.uz_latn =
    "Shubhangiz bormi? Avvalo'ga yuboring: https://t.me/Avvalo_official_bot"
share_cta Language.ru =
    "Есть сомнения? Отправьте ситуацию в Avvalo: https://t.me/Avvalo_official_bot"

-- `_SHARE_COPY[language]["families"], before the field`
abbrev pub share_families_before : Language → String
share_families_before Language.uz_latn = "Topilgan belgilar: "
share_families_before Language.ru = "Найденные признаки: "

-- `_SHARE_COPY[language]["families"], behind the field`
abbrev pub share_families_after : Language → String
share_families_after Language.uz_latn = "."
share_families_after Language.ru = "."

-- `_HEADINGS[language]["red_flags"]`
abbrev pub heading_red_flags : Language → String
heading_red_flags Language.uz_latn = "🚩 **Xavf belgilari**"
heading_red_flags Language.ru = "🚩 **Тревожные признаки**"

-- `_HEADINGS[language]["pattern"]`
abbrev pub heading_pattern : Language → String
heading_pattern Language.uz_latn = "**Qanday bosim ishlatyapti:**"
heading_pattern Language.ru = "**Как на вас давят:**"

-- `_HEADINGS[language]["verify"]`
abbrev pub heading_verify : Language → String
heading_verify Language.uz_latn = "✅ **Nimani tekshiring**"
heading_verify Language.ru = "✅ **Что проверить**"

-- `_HEADINGS[language]["ask"]`
abbrev pub heading_ask : Language → String
heading_ask Language.uz_latn = "❓ **Qanday savol bering**"
heading_ask Language.ru = "❓ **Что спросить**"

-- `_HEADINGS[language]["no_signal"]`
abbrev pub heading_no_signal : Language → String
heading_no_signal Language.uz_latn =
    "Aniq xavf belgisi ko'rinmadi. Lekin bu kafolat emas: pul, kod yoki hujjat yuborishdan oldin manbani o'zingiz tekshiring."
heading_no_signal Language.ru =
    "Явных тревожных признаков не видно. Но это не гарантия: перед оплатой, кодом или документами проверьте источник самостоятельно."

-- `_HEADINGS[language]["limitation"]`
abbrev pub heading_limitation : Language → String
heading_limitation Language.uz_latn =
    "ℹ\u{fe0f} **Nima noma'lum qoldi**\nAvvalo faqat javobda ko'rsatilgan belgilar va manbalarga tayandi. Bu odamni tekshirish yoki yakuniy xulosa emas."
heading_limitation Language.ru =
    "ℹ\u{fe0f} **Что осталось неизвестным**\nAvvalo опирался только на признаки и источники, прямо указанные в ответе. Это не проверка личности и не окончательный вывод."

-- `_HEADINGS[language]["fallback"]`
abbrev pub heading_fallback : Language → String
heading_fallback Language.uz_latn =
    "Hozir javobni xavfsiz shaklda tayyorlay olmadim. Kodlarni aytmang, pul yubormang. Avval rasmiy ilova yoki o'zingiz topgan aloqa kanali orqali tekshiring."
heading_fallback Language.ru =
    "Сейчас не получилось подготовить безопасный ответ. Не сообщайте коды и не платите, пока не проверите ситуацию через официальное приложение или контакт, который нашли сами."

-- `_STATUS_MESSAGES`, with its default for the statuses that have no message
abbrev pub format_status_message : CheckStatus → Language → String
format_status_message CheckStatus.ok Language.uz_latn =
    "Matn yoki o'qilishi mumkin bo'lgan skrinshot yuboring."
format_status_message CheckStatus.ok Language.ru = "Пришлите текст или читаемый скриншот."
format_status_message CheckStatus.no_signal Language.uz_latn =
    "Matn yoki o'qilishi mumkin bo'lgan skrinshot yuboring."
format_status_message CheckStatus.no_signal Language.ru = "Пришлите текст или читаемый скриншот."
format_status_message CheckStatus.empty_input Language.uz_latn =
    "Tekshirish uchun vaziyatga oid matn yoki havolani yuboring."
format_status_message CheckStatus.empty_input Language.ru =
    "Пришлите текст или ссылку, относящиеся к ситуации."
format_status_message CheckStatus.meta Language.uz_latn =
    "Men vaziyat \"xavfsiz\" yoki \"firibgarlik\" ekanini hal qilmayman — shubhali vaziyatni tekshirishga yordam beraman. Matn, havola, QR-kod yoki skrinshot yuboring: xavf belgilarini, nimani mustaqil tekshirish va nimani so'rashni ko'rsataman — pul to'lash, biror narsa o'rnatish yoki ma'lumot berishdan oldin."
format_status_message CheckStatus.meta Language.ru =
    "Я не решаю, \"безопасно\" это или \"мошенничество\" — я помогаю разобрать сомнительную ситуацию. Пришлите текст, ссылку, QR-код или скриншот: покажу тревожные признаки, что проверить самостоятельно и что спросить, прежде чем платить, что-то устанавливать или делиться данными."
format_status_message CheckStatus.off_topic Language.uz_latn =
    "Men aniq vaziyatlarni ko'rib chiqaman: xabar, qo'ng'iroq, havola, QR-kod, hisob, taklif yoki skrinshot. Sizni shubhaga solgan narsani yuboring — xavf belgilarini, nimani mustaqil tekshirish va nimani so'rashni ko'rsataman."
format_status_message CheckStatus.off_topic Language.ru =
    "Я разбираю конкретные ситуации: сообщение, звонок, ссылку, QR-код, счёт, предложение или скриншот. Пришлите то, что вас насторожило — покажу тревожные признаки, что проверить самостоятельно и что спросить."
format_status_message CheckStatus.low_ocr Language.uz_latn =
    "Rasmdagi matn yoki QR-kodni to'liq qayta ishlay olmadim. Muhim joyni matn qilib yoki bitta QR-kodni alohida yuboring."
format_status_message CheckStatus.low_ocr Language.ru =
    "Не получилось полностью обработать текст или QR-код на изображении. Пришлите важный фрагмент текстом или один QR-код отдельно."
format_status_message CheckStatus.rate_limited Language.uz_latn =
    "Bugungi tekshiruvlar limiti tugadi. Ertaga yana urinib ko'ring."
format_status_message CheckStatus.rate_limited Language.ru =
    "На сегодня лимит проверок закончился. Попробуйте завтра."
format_status_message CheckStatus.timeout Language.uz_latn =
    "Tekshiruv cho'zilib ketdi. Qayta urinib ko'ring."
format_status_message CheckStatus.timeout Language.ru = "Проверка затянулась. Попробуйте ещё раз."
format_status_message CheckStatus.llm_error Language.uz_latn =
    "Hozir bu vaziyatni tahlil qila olmadim. Qayta urinib ko'ring."
format_status_message CheckStatus.llm_error Language.ru =
    "Сейчас не получилось разобрать эту ситуацию. Попробуйте ещё раз."
format_status_message CheckStatus.ocr_error Language.uz_latn =
    "Hozir bu rasmni qayta ishlay olmadim. Qayta urinib ko'ring."
format_status_message CheckStatus.ocr_error Language.ru =
    "Сейчас не получилось обработать изображение. Попробуйте ещё раз."
format_status_message CheckStatus.safety_fallback Language.uz_latn =
    "Matn yoki o'qilishi mumkin bo'lgan skrinshot yuboring."
format_status_message CheckStatus.safety_fallback Language.ru =
    "Пришлите текст или читаемый скриншот."
format_status_message CheckStatus.unsupported_media Language.uz_latn =
    "Matn yoki o'qilishi mumkin bo'lgan skrinshot yuboring."
format_status_message CheckStatus.unsupported_media Language.ru =
    "Пришлите текст или читаемый скриншот."
