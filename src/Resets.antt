-- ===== src/Resets.antt =====
-- packages/database/src/storefront.ts: the tokens of `createCustomerPasswordReset` and
-- `consumeCustomerPasswordReset`. SQL's `lower` is a parameter. Times are in milliseconds.
pub mod Service
pub mod Once
pub mod SignedOut
mod Tests
use daja_platform.Base.{
  ℕ, ◌+◌, String, Bool, true, false, not, Option, none, some, List, [], ◌∷◌, ◌&&◌, ◌||◌, ◌==◌, leb,
  ltb, any, is_empty, if◌then◌else◌, find_row, where_rows, update_rows, Action, pure, raise, gets,
  modify, raise_if, ◌>>=◌, ◌>>◌,
}
use daja_platform.Context.{Uuid}
use daja_platform.Security.Errors.{AppError, validation_failed, other_error}
use daja_platform.Tokens.Split.{Text, same_text}

-- customer_password_reset_tokens
pub record ResetToken : Type 0 where
  pub organization_id : Uuid
  pub customer_id : Uuid
  pub token_hash : Text
  pub expires_at : ℕ
  pub used_at : Option ℕ
  pub created_at : ℕ

-- `deleted` is whether `deleted_at` is set.
pub record CustomerAccount : Type 0 where
  pub organization_id : Uuid
  pub id : Uuid
  pub email : Option Text
  pub phone : Option Text
  pub active : Bool
  pub deleted : Bool
  pub email_verified : Bool
  pub phone_verified : Bool
  pub version : ℕ

-- customer_identities
pub record Identity : Type 0 where
  pub id : Uuid
  pub organization_id : Uuid
  pub customer_id : Uuid
  pub provider : String
  pub provider_subject : Text
  pub password_hash : Option Text
  pub active : Bool

-- webauthn_credentials
pub record Passkey : Type 0 where
  pub organization_id : Uuid
  pub customer_id : Uuid

-- customer_sessions
pub record CustomerSession : Type 0 where
  pub organization_id : Uuid
  pub customer_id : Uuid
  pub revoked_at : Option ℕ
  pub revoked_reason : Option String

pub record ResetDb : Type 0 where
  pub customers : List CustomerAccount
  pub tokens : List ResetToken
  pub passkeys : List Passkey
  pub identities : List Identity
  pub sessions : List CustomerSession

pub record ResetInput : Type 0 where
  pub organization_id : Uuid
  pub email : Text
  pub token_hash : Text
  pub expires_at : ℕ

pub record ResetRecord : Type 0 where
  pub organization_id : Uuid
  pub customer_id : Uuid
  pub email : Text
  pub phone : Option Text

abbrev pub bad_link : AppError
bad_link = validation_failed "Link za promenu lozinke nije važeći ili je istekao."

abbrev pub is_unused : ResetToken → Bool
is_unused t = elim t.used_at [ none ↦ true | some u ↦ false ]

abbrev pub is_active_customer : CustomerAccount → Bool
is_active_customer c = c.active && not c.deleted

-- `!email`
abbrev pub no_email : Option Text → Bool
no_email none = true
no_email (some e) = is_empty e

-- The token that ON CONFLICT meets.
abbrev pub is_pending : Uuid → Uuid → ResetToken → Bool
is_pending org customer t = t.organization_id == org && t.customer_id == customer && is_unused t

-- The WHERE of DO UPDATE.
abbrev pub may_replace : ℕ → ResetToken → Bool
may_replace now t = leb t.expires_at now || ltb (t.created_at + 300000) now

abbrev pub renewed : ℕ → ResetInput → ResetToken → ResetToken
renewed now input t = record t {
  token_hash = input.token_hash;
  expires_at = input.expires_at;
  created_at = now;
}

abbrev pub new_token : ℕ → Uuid → ResetInput → ResetToken
new_token now customer input = record {
  organization_id = input.organization_id;
  customer_id = customer;
  token_hash = input.token_hash;
  expires_at = input.expires_at;
  used_at = none;
  created_at = now;
}

-- The unique index on the hash, which the row that is rewritten does not meet.
unfoldable pub rewrite_token : ℕ → Uuid → ResetInput → Action ResetDb (Unit {0})
rewrite_token now customer input = do
  tokens ← gets λ db. db.tokens
  raise_if
      (any
        (λ t.
          same_text t.token_hash input.token_hash
          && not (is_pending input.organization_id customer t))
        tokens)
      (other_error "23505")
  modify λ db. record db {
    tokens = update_rows (is_pending input.organization_id customer) (renewed now input) db.tokens;
  }

unfoldable pub insert_token : ℕ → Uuid → ResetInput → Action ResetDb (Unit {0})
insert_token now customer input = do
  tokens ← gets λ db. db.tokens
  raise_if (any (λ t. same_text t.token_hash input.token_hash) tokens) (other_error "23505")
  modify (λ db. record db { tokens = new_token now customer input ∷ db.tokens })

-- Whether the INSERT with its ON CONFLICT writes a row, over the token that it meets.
unfoldable pub save_over : ℕ → Uuid → ResetInput → Option ResetToken → Action ResetDb Bool
unfolding rewrite_token insert_token
save_over now customer input none = insert_token now customer input >>= λ _. pure true
save_over now customer input (some t) =
    if may_replace now t then (rewrite_token now customer input >>= λ _. pure true) else pure false

unfoldable pub save_token : ℕ → Uuid → ResetInput → Action ResetDb Bool
unfolding save_over
save_token now customer input =
    gets (λ db. find_row (is_pending input.organization_id customer) db.tokens)
    >>= save_over now customer input

-- The account's `email`, if a token was saved.
unfoldable pub save_for : ℕ → ResetInput → Option CustomerAccount → Action ResetDb (Option Text)
unfolding save_token
save_for now input none = pure none
save_for now input (some c) =
    if no_email c.email
    then pure none
    else save_token now c.id input >>= λ saved. pure (if saved then c.email else none)

module _ (lower : Text → Text) where
  abbrev pub has_email : Text → Option Text → Bool
  has_email e none = false
  has_email e (some x) = same_text (lower x) (lower e)

  unfoldable pub create_customer_password_reset : ℕ → ResetInput → Action ResetDb (Option Text)
  unfolding save_for
  create_customer_password_reset now input =
      gets (λ db.
        find_row
          (λ c.
            c.organization_id == input.organization_id
            && has_email input.email c.email
            && is_active_customer c)
          db.customers)
      >>= save_for now input

-- The WHERE of the UPDATE.
abbrev pub is_redeemable : Text → ℕ → ResetToken → Bool
is_redeemable hash now t = same_text t.token_hash hash && is_unused t && ltb now t.expires_at

-- The first row of the JOIN.
unfoldable pub join_customer :
    List CustomerAccount → List ResetToken → Option (ResetToken × CustomerAccount)
join_customer cs [] = none
join_customer cs (t ∷ ts) =
    let rest = join_customer cs ts in
    elim (find_row
      (λ c. c.organization_id == t.organization_id && c.id == t.customer_id && is_active_customer c)
      cs) [ none ↦ rest | some c ↦ some (t, c) ]

abbrev pub record_with : ResetToken → Option Text → Option Text → Action ResetDb ResetRecord
record_with t phone none = raise bad_link
record_with t phone (some e) =
    if is_empty e
    then raise bad_link
    else pure (record {
      organization_id = t.organization_id;
      customer_id = t.customer_id;
      email = e;
      phone = phone;
    })

abbrev pub reset_record : Option (ResetToken × CustomerAccount) → Action ResetDb ResetRecord
reset_record none = raise bad_link
reset_record (some (t, c)) = record_with t c.phone c.email

abbrev pub used : ℕ → ResetToken → ResetToken
used now t = record t { used_at = some now }

unfoldable pub consume_customer_password_reset : ℕ → Text → Action ResetDb ResetRecord
unfolding join_customer
consume_customer_password_reset now hash = do
  matched ← gets λ db. join_customer db.customers (where_rows (is_redeemable hash now) db.tokens)
  modify (λ db. record db { tokens = update_rows (is_redeemable hash now) (used now) db.tokens })
  reset_record matched
