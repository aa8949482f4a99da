-- ===== src/Json.antt =====
-- JSON values, as the payloads of events hold them, and packages/security/src/redact-credentials.ts.
-- A number is an integer here; the program never looks at the numbers of a payload.
pub mod Redaction
mod Tests
use Prim.Native.Char.{code}
use daja_platform.Base.{
  ℕ, ◌+◌, String, Bool, true, false, not, ◌&&◌, ◌||◌, Option, none, some, List, [], ◌∷◌, any, leb,
  ◌==◌, if◌then◌else◌, str_eq,
}
use daja_platform.Base.Int.{ℤ}

mutual
  pub data Json : Type 0 where
    null : Json
    bool : Bool → Json
    number : ℤ → Json
    text : String → Json
    array : Items → Json
    object : Fields → Json

  pub data Items : Type 0 where
    nil : Items
    cons : Json → Items → Items

  pub data Fields : Type 0 where
    end : Fields
    field : String → Json → Fields → Fields

-- `value[key]`; `none` is undefined
unfoldable pub get_field : String → Fields → Option Json
get_field key end = none
get_field key (field k v rest) = if str_eq k key then some v else get_field key rest

-- The characters of a text with A to Z made small, as the flag `i` of a regular expression does.
abbrev pub fold_code : ℕ → ℕ
fold_code c = if leb b'A' c && leb c b'Z' then c + 32 else c

abbrev pub folded : String → List ℕ
folded String.[] = []
folded (String.◌∷◌ c s) = fold_code (code c) ∷ folded s

abbrev pub same_codes : List ℕ → List ℕ → Bool
same_codes [] [] = true
same_codes (a ∷ r) (b ∷ q) = a == b && same_codes r q
same_codes _ _ = false

abbrev pub ends_in : List ℕ → List ℕ → Bool
ends_in suffix [] = same_codes suffix []
ends_in suffix (c ∷ cs) = same_codes suffix (c ∷ cs) || ends_in suffix cs

abbrev credential_names : List String
credential_names =
    "password" ∷ "passwordhash" ∷ "password_hash" ∷ "currentpassword" ∷ "newpassword"
    ∷ "confirmpassword" ∷ "pin" ∷ "otp" ∷ "accesstoken" ∷ "refreshtoken" ∷ "access_token"
    ∷ "refresh_token" ∷ "secret" ∷ "clientsecret" ∷ "apikey" ∷ []

-- `credentialKey.test(key)`
pub is_credential_key : String → Bool
is_credential_key key = any (λ name. same_codes (folded key) (folded name)) credential_names

unfoldable mutual
  pub redact_credentials : Json → Json
  redact_credentials (array items) = array (redact_items items)
  redact_credentials (object fields) = object (redact_fields fields)
  redact_credentials null = null
  redact_credentials (bool b) = bool b
  redact_credentials (number n) = number n
  redact_credentials (text s) = text s

  pub redact_items : Items → Items
  redact_items nil = nil
  redact_items (cons v rest) = cons (redact_credentials v) (redact_items rest)

  pub redact_fields : Fields → Fields
  redact_fields end = end
  redact_fields (field k v rest) =
      let kept = redact_fields rest in
      if is_credential_key k then kept else field k (redact_credentials v) kept
