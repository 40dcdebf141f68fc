-- ===== src/Events/Redaction/Clean.antt =====
-- autoweave/events/redaction.py: what a redacted payload still holds.
use autoweave_library.Common.{
  ◌≡◌, refl, ap, Bool, true, false, not, ◌&&◌, ◌||◌, Option, none, some, String, ◌==◌, ==_refl,
  ==_iff, string_eq, arith,
}
use autoweave_library.Events.Redaction.{
  Scalar, Json, JsonItems, JsonFields, is_hidden, redacted_value, redact_value, redact_items,
  redact_fields, redact_payload,
}

abbrev pub is_redacted : Scalar → Bool
is_redacted Scalar.null = false
is_redacted (Scalar.boolean b) = false
is_redacted (Scalar.number n) = false
is_redacted (Scalar.float s) = false
is_redacted (Scalar.text s) = s == redacted_value

-- Under a secret key, at any depth, stands the replacement and nothing else.
unfoldable mutual
  pub is_clean : Option String → Json → Bool
  is_clean key (Json.leaf s) = not (is_hidden key) || is_redacted s
  is_clean key (Json.array items) = not (is_hidden key) && is_clean_items key items
  is_clean key (Json.object fields) = not (is_hidden key) && is_clean_fields fields

  pub is_clean_items : Option String → JsonItems → Bool
  is_clean_items key JsonItems.nil = true
  is_clean_items key (JsonItems.item v items) = is_clean key v && is_clean_items key items

  pub is_clean_fields : JsonFields → Bool
  is_clean_fields JsonFields.end = true
  is_clean_fields (JsonFields.field k v fields) = is_clean (some k) v && is_clean_fields fields

mutual
  unfolding redact_value is_clean

  redact_value-is_clean :
      (key : Option String) (v : Json) → is_clean key (redact_value key v) ≡ true
  redact_value-is_clean key (Json.leaf s) = ground (arith, ==_refl redacted_value)
  redact_value-is_clean key (Json.array items) =
      ground (arith, ==_refl redacted_value, redact_items-is_clean key items)
  redact_value-is_clean key (Json.object fields) =
      ground (arith, ==_refl redacted_value, redact_fields-is_clean fields)

  redact_items-is_clean :
      (key : Option String) (items : JsonItems) → is_clean_items key (redact_items key items) ≡ true
  redact_items-is_clean key JsonItems.nil = refl
  redact_items-is_clean key (JsonItems.item v items) =
      ground (arith, redact_value-is_clean key v, redact_items-is_clean key items)

  redact_fields-is_clean : (fields : JsonFields) → is_clean_fields (redact_fields fields) ≡ true
  redact_fields-is_clean JsonFields.end = refl
  redact_fields-is_clean (JsonFields.field k v fields) =
      ground (arith, redact_value-is_clean (some k) v, redact_fields-is_clean fields)

is_redacted-eq : (s : Scalar) → is_redacted s ≡ true → s ≡ Scalar.text redacted_value
is_redacted-eq Scalar.null h = absurd (cc)
is_redacted-eq (Scalar.boolean b) h = absurd (cc)
is_redacted-eq (Scalar.number n) h = absurd (cc)
is_redacted-eq (Scalar.float s) h = absurd (cc)
is_redacted-eq (Scalar.text s) h = ap Scalar.text ((==_iff s redacted_value).0 h)

mutual
  unfolding redact_value is_clean

  clean_value_kept :
      (key : Option String) (v : Json) → is_clean key v ≡ true → redact_value key v ≡ v
  clean_value_kept key (Json.leaf s) h = ground (arith, is_redacted-eq s)
  clean_value_kept key (Json.array items) h = ground (arith, clean_items_kept key items)
  clean_value_kept key (Json.object fields) h = ground (arith, clean_fields_kept fields)

  clean_items_kept :
      (key : Option String) (items : JsonItems)
      → is_clean_items key items ≡ true
      → redact_items key items ≡ items
  clean_items_kept key JsonItems.nil h = refl
  clean_items_kept key (JsonItems.item v items) h =
      ground (arith, clean_value_kept key v, clean_items_kept key items)

  clean_fields_kept :
      (fields : JsonFields) → is_clean_fields fields ≡ true → redact_fields fields ≡ fields
  clean_fields_kept JsonFields.end h = refl
  clean_fields_kept (JsonFields.field k v fields) h =
      ground (arith, clean_value_kept (some k) v, clean_fields_kept fields)

-- In a redacted payload, under every secret key at any depth stands the replacement and nothing
-- else; and a payload for which that holds already is left as it is, so that redacting again
-- changes nothing.
pub redact_payload-is_clean :
    (payload : Option JsonFields)
    → (is_clean_fields (redact_payload payload) ≡ true)
      × ((fields : JsonFields)
          → is_clean_fields fields ≡ true
          → redact_payload (some fields) ≡ fields)
      × (redact_payload (some (redact_payload payload)) ≡ redact_payload payload)
unfolding redact_payload is_clean
redact_payload-is_clean none = (refl, clean_fields_kept, refl)
redact_payload-is_clean (some payload) = (
  redact_fields-is_clean payload,
  clean_fields_kept,
  clean_fields_kept (redact_fields payload) (redact_fields-is_clean payload),
)
