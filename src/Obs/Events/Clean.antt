-- ===== src/Obs/Events/Clean.antt =====
-- What a logged payload holds.
use avvalo.Prelude.{
  String, true, false, not, ◌||◌, List, [], ◌∷◌, Option, none, some, ◌==◌, eq_iff, contains, insert,
  All, ◌≡◌, ◌⊎◌, inl, inr, refl, subst, arith, Bool-cases,
}
use mathlib.Core.List.{Memᴰ}
use avvalo.Stdlib.{Stdlib}
use avvalo.Raises.{ok}
use avvalo.Raises.Ensures.{
  Ensures, Ensures-bind, Ensures-then, Ensures-require, Ensures-ok, Ensures-map, Ensures-last,
}
use avvalo.Obs.Events.{
  Scalar, FieldValue, text_value, Fields, allowed_event_names, allowed_fields, allowed_error_stages,
  allowed_error_fields, is_content_like, is_content_value, validate_field_name, text_fits,
  strict_format, request_id_re, validate_items, normalize_value, request_fields, add_event_fields,
  log_event, is_fixed, add_error_fields, log_error,
}

same_text : (a b : String) → b == a ≡ true → a ≡ b
same_text a b h = ground (arith, eq_iff b a)

module _ (py : Stdlib) where
  -- No text that a caller gives looks like content; the text of an `Enum` that stands alone is not
  -- looked at.
  abbrev IsCleanScalar : Scalar → Type 0
  IsCleanScalar (Scalar.fixed value) = is_content_value py value ≡ false
  IsCleanScalar (Scalar.text value) = is_content_value py value ≡ false
  IsCleanScalar (Scalar.other value) = Unit

  abbrev pub IsCleanValue : Option String → FieldValue → Type 0
  IsCleanValue key (FieldValue.single (Scalar.fixed value)) = Unit
  IsCleanValue key (FieldValue.single (Scalar.text value)) =
      text_fits py (strict_format py key) value ≡ true
  IsCleanValue key (FieldValue.single (Scalar.other value)) = Unit
  IsCleanValue key (FieldValue.items values) = All IsCleanScalar values

  -- A field that may be logged
  pub record IsCleanField (allowed : List String) (strict : Option String)
      (field : String × FieldValue) : Type 0 where
    pub is_allowed : contains field.0 allowed ≡ true
    pub no_content_name : is_content_like py field.0 ≡ false
    pub no_content : IsCleanValue strict field.1

  validate_items-IsClean :
      (values : List Scalar) → Ensures (λ _. All IsCleanScalar values) (validate_items py values)
  unfolding validate_items
  validate_items-IsClean [] = Ensures.returns tt
  validate_items-IsClean (Scalar.fixed value ∷ values) =
      Ensures-require (not (is_content_value py value)) _ _
        λ h. Ensures-map (λ _ k. (ground arith, k)) (validate_items-IsClean values)
  validate_items-IsClean (Scalar.text value ∷ values) =
      Ensures-require (not (is_content_value py value)) _ _
        λ h. Ensures-map (λ _ k. (ground arith, k)) (validate_items-IsClean values)
  validate_items-IsClean (Scalar.other value ∷ values) =
      Ensures-map (λ _ k. (tt, k)) (validate_items-IsClean values)

  -- What is logged of a value: the text of a member of an `Enum`, and else the value itself.
  abbrev pub logged_value : FieldValue → FieldValue
  logged_value (FieldValue.single (Scalar.fixed value)) = text_value value
  logged_value value = value

  normalize_value-IsClean :
      (value : FieldValue) (key : Option String)
      → Ensures
          (λ logged. (logged ≡ logged_value value) × IsCleanValue key value)
          (normalize_value py value key)
  unfolding normalize_value
  normalize_value-IsClean (FieldValue.single (Scalar.fixed value)) key = Ensures.returns (refl, tt)
  normalize_value-IsClean (FieldValue.single (Scalar.text value)) key =
      Ensures-require (text_fits py (strict_format py key) value) _ _ λ h. Ensures.returns (refl, h)
  normalize_value-IsClean (FieldValue.single (Scalar.other value)) key = Ensures.returns (refl, tt)
  normalize_value-IsClean (FieldValue.items values) key =
      Ensures-bind (validate_items-IsClean values) λ _ h. Ensures.returns (refl, h)

  validate_field_name_lem :
      (key : String) (allowed : List String)
      → Ensures
          (λ _. (contains key allowed ≡ true) × (is_content_like py key ≡ false))
          (validate_field_name py key allowed)
  unfolding validate_field_name
  validate_field_name_lem key allowed =
      Ensures-require (contains key allowed) _ _
        λ h. Ensures-last (not (is_content_like py key)) _ λ k. (h, ground arith)

  -- A logged field: it comes from a field that the caller gives and that may be logged.
  abbrev pub IsGiven : Fields → String × FieldValue → Type 0
  IsGiven fields logged =
      (value : FieldValue) × Memᴰ (logged.0, value) fields
      × (logged.1 ≡ logged_value value)
      × IsCleanField allowed_fields (some logged.0) (logged.0, value)

  -- The id of the request
  abbrev pub IsRequestId : String × FieldValue → Type 0
  IsRequestId logged =
      (logged.0 ≡ "request_id")
      × ((id : String) × (logged.1 ≡ text_value id) × (py.re_fullmatch request_id_re id ≡ true))

  abbrev pub AreEventFields : Fields → Fields → Type 0
  AreEventFields fields = All (λ logged. IsRequestId logged ⊎ IsGiven fields logged)

  insert-All :
      (P : String × FieldValue → Type 0) (key : String) (value : FieldValue) (d : Fields)
      → P (key, value)
      → All P d
      → All P (insert key value d)
  insert-All P key value [] h all = (h, tt)
  insert-All P key value ((j, w) ∷ d) h all = elim (Bool-cases (j == key)) [
    | inl same ↦ rw same (subst (λ k. P (k, value)) (same_text key j same) h, all.1)
    | inr other ↦ rw other (all.0, insert-All P key value d h all.1)
  ]

  add_event_fields_lem :
      (all rest normalized : Fields)
      → ((field : String × FieldValue) → Memᴰ field rest → Memᴰ field all)
      → AreEventFields all normalized
      → Ensures (AreEventFields all) (add_event_fields py rest normalized)
  unfolding add_event_fields
  add_event_fields_lem all [] normalized part h = Ensures.returns h
  add_event_fields_lem all ((key, value) ∷ rest) normalized part h =
      Ensures-bind (validate_field_name_lem key allowed_fields) λ _ named.
        Ensures-bind (normalize_value-IsClean value (some key)) λ logged clean.
          add_event_fields_lem all rest (insert key logged normalized)
            (λ field m. part field (Memᴰ.tail m))
            (insert-All (λ f. IsRequestId f ⊎ IsGiven all f) key logged normalized
              (inr (
                value,
                part (key, value) (Memᴰ.head refl),
                clean.0,
                record { is_allowed = named.0; no_content_name = named.1; no_content = clean.1 },
              ))
              h)

  request_fields-AreEventFields :
      (all : Fields) (request_id : Option String)
      → Ensures (AreEventFields all) (request_fields py request_id)
  unfolding request_fields
  request_fields-AreEventFields all none = Ensures.returns tt
  request_fields-AreEventFields all (some id) =
      Ensures-bind (normalize_value-IsClean (text_value id) (some "request_id"))
        λ logged clean. Ensures.returns (inl (refl, (id, clean.0, clean.1)), tt)

  log_event-Ensures :
      (name : String) (fields : Fields) (request_id : Option String)
      → Ensures
          (λ payload. (contains name allowed_event_names ≡ true) × AreEventFields fields payload)
          (log_event py name fields request_id)
  unfolding log_event
  log_event-Ensures name fields request_id =
      Ensures-require (contains name allowed_event_names) _ _ λ h.
        Ensures-bind (request_fields-AreEventFields fields request_id) λ normalized r.
          Ensures-map (λ _ k. (h, k))
            (add_event_fields_lem fields fields normalized (λ field m. m) r)

  -- An event is logged only under an allowed name. Each field of the payload is the id of the request,
  -- which has the form of one, or it comes from a field that the caller gives, with an allowed name that
  -- is not like content, and with its value. No text of it, alone or in a list, looks like an address, a
  -- link, a phone, a card or a passport number, except that a version is held to its format instead and
  -- that a member of an `Enum` that stands alone is not looked at.
  pub log_event-AreEventFields :
      (name : String) (fields payload : Fields) (request_id : Option String)
      → log_event py name fields request_id ≡ ok payload
      → (contains name allowed_event_names ≡ true) × AreEventFields fields payload
  log_event-AreEventFields name fields payload request_id h =
      Ensures-ok _ payload (log_event-Ensures name fields request_id) h

  -- A field of an error: a reason is a member of an `Enum`.
  abbrev AreErrorFields : Fields → Type 0
  AreErrorFields = All (λ field.
      ((not (field.0 == "reason") || is_fixed py field.1) ≡ true)
      × IsCleanField allowed_error_fields none field)

  add_error_fields_lem :
      (fields normalized : Fields)
      → Ensures (λ _. AreErrorFields fields) (add_error_fields py fields normalized)
  unfolding add_error_fields
  add_error_fields_lem [] normalized = Ensures.returns tt
  add_error_fields_lem ((key, value) ∷ fields) normalized =
      Ensures-bind (validate_field_name_lem key allowed_error_fields) λ _ named.
        Ensures-require (not (key == "reason") || is_fixed py value) _ _ λ r.
          Ensures-bind (normalize_value-IsClean value none) λ cleaned h.
            Ensures-map
              (λ _ rest. (
                (r, record { is_allowed = named.0; no_content_name = named.1; no_content = h.1 }),
                rest,
              ))
              (add_error_fields_lem fields (insert key cleaned normalized))

  log_error-Ensures :
      (stage error_type : String) (fields : Fields) (request_id : Option String)
      → Ensures
          (λ _.
            (contains stage allowed_error_stages ≡ true)
            × (is_content_value py error_type ≡ false)
            × AreErrorFields fields)
          (log_error py stage error_type fields request_id)
  unfolding log_error
  log_error-Ensures stage error_type fields request_id =
      Ensures-require (contains stage allowed_error_stages) _ _ λ h.
        Ensures-then (request_fields py request_id) _ λ normalized.
          Ensures-bind (normalize_value-IsClean (text_value error_type) none) λ kind k.
            Ensures-map (λ _ rest. (h, ground (arith, k.1), rest)) (add_error_fields_lem fields _)

  -- An error is logged only for an allowed stage, with the name of a class that does not look like
  -- content, and with clean allowed fields, of which a reason is a member of an `Enum`.
  log_error-AreErrorFields :
      (stage error_type : String) (fields payload : Fields) (request_id : Option String)
      → log_error py stage error_type fields request_id ≡ ok payload
      → (contains stage allowed_error_stages ≡ true)
        × (is_content_value py error_type ≡ false)
        × AreErrorFields fields
  log_error-AreErrorFields stage error_type fields payload request_id h =
      Ensures-ok _ payload (log_error-Ensures stage error_type fields request_id) h
