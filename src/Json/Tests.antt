-- ===== src/Json/Tests.antt =====
-- Redaction of a small object.
use daja_platform.Base.{◌≡◌, refl}
use daja_platform.Json.{text, object, Fields, end, field, redact_credentials, is_credential_key}
use daja_platform.Json.Redaction.{IsClean, redact_credentials-IsClean}

abbrev account : Fields
account = field "name" (text "Ana") (
    field "session" (object (field "accessToken" (text "t") end))
      (field "passwordHash" (text "h") end))

account_redacted :
    redact_credentials (object account)
    ≡ object (field "name" (text "Ana") (field "session" (object end) end))
unfolding redact_credentials is_credential_key
account_redacted = refl

redact_credentials-IsClean_example : IsClean (redact_credentials (object account))
redact_credentials-IsClean_example = redact_credentials-IsClean (object account)
