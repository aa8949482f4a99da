-- ===== src/Json/Redaction.antt =====
-- Redaction removes every credential at every depth, and nothing else.
use daja_platform.Base.{
  String, ◌≡◌, false, if◌then◌else◌, Bool-cases, inl, inr, arith, refl, ap, none, eq_iff,
}
use mathlib.Core.Option
use daja_platform.Json.{
  Json, null, bool, number, text, array, object, Items, nil, cons, Fields, end, field,
  is_credential_key, redact_credentials, redact_items, redact_fields, get_field,
}

-- No key of an object, at any depth, names a credential.
abbrev mutual
  pub IsClean : Json → Type 0
  IsClean (array items) = AreClean items
  IsClean (object fields) = HasCleanFields fields
  IsClean null = Unit
  IsClean (bool b) = Unit
  IsClean (number n) = Unit
  IsClean (text s) = Unit

  pub AreClean : Items → Type 0
  AreClean nil = Unit
  AreClean (cons v rest) = IsClean v × AreClean rest

  pub HasCleanFields : Fields → Type 0
  HasCleanFields end = Unit
  HasCleanFields (field k v rest) = (is_credential_key k ≡ false) × IsClean v × HasCleanFields rest

add_clean :
    (k : String) (v : Json) (rest : Fields)
    → IsClean (redact_credentials v)
    → HasCleanFields (redact_fields rest)
    → HasCleanFields (redact_fields (field k v rest))
unfolding redact_credentials
add_clean k v rest h hs = elim (Bool-cases (is_credential_key k)) [
  | inl e ↦ rw e hs
  | inr e ↦ rw e (e, h, hs)
]

mutual
  unfolding redact_credentials

  clean : (v : Json) → IsClean (redact_credentials v)
  clean (array items) = clean_items items
  clean (object fields) = clean_fields fields
  clean null = tt
  clean (bool b) = tt
  clean (number n) = tt
  clean (text s) = tt

  clean_items : (items : Items) → AreClean (redact_items items)
  clean_items nil = tt
  clean_items (cons v rest) = (clean v, clean_items rest)

  clean_fields : (fields : Fields) → HasCleanFields (redact_fields fields)
  clean_fields end = tt
  clean_fields (field k v rest) = add_clean k v rest (clean v) (clean_fields rest)

-- No key of a redacted value, at any depth, names a credential.
pub redact_credentials-IsClean : (v : Json) → IsClean (redact_credentials v)
redact_credentials-IsClean = clean

mutual
  unfolding redact_credentials

  keep : (v : Json) → IsClean v → redact_credentials v ≡ v
  keep (array items) h = ap array (keep_items items h)
  keep (object fields) h = ap object (keep_fields fields h)
  keep null h = refl
  keep (bool b) h = refl
  keep (number n) h = refl
  keep (text s) h = refl

  keep_items : (items : Items) → AreClean items → redact_items items ≡ items
  keep_items nil h = refl
  keep_items (cons v rest) h = cc (keep v h.0, keep_items rest h.1)

  keep_fields : (fields : Fields) → HasCleanFields fields → redact_fields fields ≡ fields
  keep_fields end h = refl
  keep_fields (field k v rest) h = ground (arith, h.0, keep v h.1, keep_fields rest h.2)

pub redact_credentials_of_IsClean : (v : Json) → IsClean v → redact_credentials v ≡ v
redact_credentials_of_IsClean = keep

-- Redacting twice is redacting once.
pub redact_idempotent :
    (v : Json) → redact_credentials (redact_credentials v) ≡ redact_credentials v
redact_idempotent v = keep (redact_credentials v) (clean v)

-- A redacted object has at each key the redaction of what the object had there, and nothing at a
-- key that names a credential.
pub get_field-redact :
    (key : String) (fields : Fields)
    → get_field key (redact_fields fields) ≡ (
        if is_credential_key key
        then none
        else Option.map redact_credentials (get_field key fields))
unfolding redact_credentials get_field
get_field-redact key end = ground arith
get_field-redact key (field k v rest) = ground (arith, eq_iff k key, get_field-redact key rest)
