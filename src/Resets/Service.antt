-- ===== src/Resets/Service.antt =====
-- apps/api/src/customer-auth.service.ts: `resetPassword`, with what it calls of
-- packages/database/src/storefront.ts. The token and the new password come hashed. JavaScript's
-- `trim` and `toLowerCase` are parameters, and so is the id of a new identity.
use daja_platform.Base.{
  ℕ, ◌+◌, String, Bool, true, false, not, Option, none, some, List, ◌∷◌, ◌&&◌, ◌||◌, ◌==◌, leb, any,
  str_eq, if◌then◌else◌, find_row, where_rows, update_rows, is_empty, Action, gets, modify,
  raise_if, or_raise, ◌>>=◌, ◌>>◌,
}
use daja_platform.Context.{Uuid}
use daja_platform.Security.Errors.{
  invalid_credentials, validation_failed, resource_conflict, other_error,
}
use daja_platform.Tokens.Split.{Text, same_text}
use daja_platform.Resets.{
  CustomerAccount, Identity, CustomerSession, ResetDb, ResetRecord, is_active_customer,
  consume_customer_password_reset,
}

unfoldable pub lock_customer : Uuid → Uuid → Action ResetDb (Unit {0})
lock_customer org customer = do
  customers ← gets λ db. db.customers
  raise_if
      (not
        (any (λ c. c.organization_id == org && c.id == customer && is_active_customer c) customers))
      invalid_credentials

-- `/[^0-9+]/g` keeps the digits and the plus sign.
abbrev pub is_phone_character : ℕ → Bool
is_phone_character c = (leb 48 c && leb c 57) || c == 43

abbrev pub is_password : Uuid → Identity → Bool
is_password org i = i.organization_id == org && str_eq i.provider "password"

abbrev pub is_subject : Uuid → Text → Identity → Bool
is_subject org subject i = is_password org i && same_text i.provider_subject subject

abbrev pub with_password : Text → Identity → Identity
with_password hash i = record i { password_hash = some hash; active = true }

-- The UPDATE of an identity, or the INSERT of one.
unfoldable pub write_identity :
    Uuid → Uuid → Uuid → Text → Text → Option Identity → Action ResetDb (Unit {0})
write_identity new_id org customer subject hash (some found) = do
  raise_if (not (found.customer_id == customer))
      (resource_conflict "This email or phone is already linked to another account")
  modify λ db. record db {
    identities =
        update_rows (λ i. i.id == found.id && i.organization_id == org) (with_password hash)
          db.identities;
  }
write_identity new_id org customer subject hash none = do
  identities ← gets λ db. db.identities
  raise_if (any (λ i. i.id == new_id) identities) (other_error "23505")
  modify λ db. record db {
    identities =
        (record {
          id = new_id;
          organization_id = org;
          customer_id = customer;
          provider = "password";
          provider_subject = subject;
          password_hash = some hash;
          active = true;
        })
        ∷ db.identities;
  }

abbrev pub is_open_session : Uuid → Uuid → CustomerSession → Bool
is_open_session org customer s =
    s.organization_id == org
    && s.customer_id == customer
    && (elim s.revoked_at [ none ↦ true | some t ↦ false ])

abbrev pub closed : ℕ → String → CustomerSession → CustomerSession
closed now reason s = record s { revoked_at = some now; revoked_reason = some reason }

unfoldable pub revoke_customer_sessions : ℕ → Uuid → Uuid → String → Action ResetDb (Unit {0})
revoke_customer_sessions now org customer reason = modify λ db. record db {
  sessions = update_rows (is_open_session org customer) (closed now reason) db.sessions;
}

unfoldable pub delete_passkeys : Uuid → Uuid → Action ResetDb (Unit {0})
delete_passkeys org customer = modify λ db. record db {
  passkeys =
      where_rows (λ k. not (k.organization_id == org && k.customer_id == customer)) db.passkeys;
}

unfoldable pub disable_passwords : Uuid → Uuid → Action ResetDb (Unit {0})
disable_passwords org customer = modify λ db. record db {
  identities =
      update_rows (λ i. is_password org i && i.customer_id == customer)
        (λ i. record i { active = false }) db.identities;
}

-- The EXISTS of the UPDATE.
abbrev pub has_google : List Identity → CustomerAccount → Bool
has_google identities c =
    any
      (λ i.
        i.organization_id == c.organization_id
        && i.customer_id == c.id
        && str_eq i.provider "google"
        && i.active)
      identities

abbrev pub proved_email : List Identity → CustomerAccount → CustomerAccount
proved_email identities c = record c {
  email_verified = true;
  phone = if not c.email_verified && has_google identities c then none else c.phone;
  phone_verified = if not c.email_verified then false else c.phone_verified;
  version = c.version + 1;
}

unfoldable pub prove_email : Uuid → Uuid → Action ResetDb (Unit {0})
prove_email org customer = modify λ db. record db {
  customers =
      update_rows (λ c. c.organization_id == org && c.id == customer) (proved_email db.identities)
        db.customers;
}

module _ (trim lower_case : Text → Text) where
  unfoldable pub normalized_identity : Option Text → Option Text
  normalized_identity none = none
  normalized_identity (some value) =
      let trimmed = trim value in
      if is_empty trimmed
      then none
      else some (
          if any (λ c. c == 64) trimmed
          then lower_case trimmed
          else where_rows is_phone_character trimmed)

  -- A subject that is empty is falsy.
  abbrev pub subject_of : Option Text → Option Text
  subject_of none = none
  subject_of (some s) = if is_empty s then none else some s

  abbrev pub email_or_phone : Option Text → Option Text → Option Text
  email_or_phone none phone = phone
  email_or_phone (some email) phone = some email

  unfoldable pub save_password_identity :
      Uuid → Uuid → Uuid → Option Text → Option Text → Text → Action ResetDb (Unit {0})
  unfolding normalized_identity write_identity
  save_password_identity new_id org customer email phone hash = do
    subject ←
        or_raise (subject_of (normalized_identity (email_or_phone email phone)))
          (validation_failed "Email or phone is required to add a password")
    existing ← gets λ db. find_row (is_subject org subject) db.identities
    write_identity new_id org customer subject hash existing

  -- The statements after the token was consumed.
  unfoldable pub set_password : ℕ → Uuid → Text → ResetRecord → Action ResetDb (Unit {0})
  unfolding lock_customer delete_passkeys disable_passwords save_password_identity prove_email
      revoke_customer_sessions
  set_password now new_id hash reset = do
    lock_customer reset.organization_id reset.customer_id
    delete_passkeys reset.organization_id reset.customer_id
    disable_passwords reset.organization_id reset.customer_id
    save_password_identity new_id reset.organization_id reset.customer_id (some reset.email)
        reset.phone hash
    prove_email reset.organization_id reset.customer_id
    revoke_customer_sessions now reset.organization_id reset.customer_id "password_reset"

  -- The operation of the transaction.
  unfoldable pub reset_password : ℕ → Uuid → Text → Text → Action ResetDb (Unit {0})
  unfolding consume_customer_password_reset set_password
  reset_password now new_id token_hash hash =
      consume_customer_password_reset now token_hash >>= set_password now new_id hash
