-- ===== src/Sessions/Login.antt =====
-- apps/api/src/auth.service.ts: login with an NFC card, binding one, and logout. `matches` is the
-- check of a PIN against its stored hash, and `admits` stands for the constraints of `devices`.
use daja_platform.Base.{
  ℕ, ◌+◌, ◌*◌, String, Bool, false, not, Option, none, some, List, ◌&&◌, ◌||◌, ◌==◌, ltb, leb, any,
  if◌then◌else◌, find_row, update_rows, Result, ok, err, Action, pure, gets, modify, raise_if,
  or_raise, check, ◌>>=◌, ◌>>◌,
}
use daja_platform.Context.{Uuid}
use daja_platform.Security.Errors.{invalid_credentials}
use daja_platform.Access.Policy.{User}
use daja_platform.Transactions.{Driver, Pool, run}
use daja_platform.Tokens.{Codec}
use daja_platform.Tokens.Split.{Text}
use daja_platform.Sessions.Schema.{Digest, StaffDevice, Card, AuthDb, Config, Fresh}
use daja_platform.Sessions.Repository.{
  LoginDevice, create_session, ensure_login_device, audit_auth_event, revoke_session,
}
use daja_platform.Sessions.Principal.{build_principal, is_active_user}
use daja_platform.Sessions.Service.{
  AuthenticatedStaff, issue_token_pair, sign_refresh, refresh_expiry,
}

-- Who logs in, on which device.
pub record CardLogin : Type 0 where
  pub card_id : Uuid
  pub pin : Text
  pub device_id : Uuid
  pub device_type : Option String
  pub device_name : Option String

abbrev pub fifteen_minutes : ℕ
fifteen_minutes = 15 * 60 * 1000

abbrev pub is_usable : Uuid → Card → Bool
is_usable card_id c = c.card_id == card_id && c.active && not c.revoked

-- `card.locked_until && card.locked_until > new Date()`
abbrev pub is_locked : ℕ → Card → Bool
is_locked now c = elim c.locked_until [ none ↦ false | some t ↦ ltb now t ]

-- The UPDATE after a wrong PIN, with the number of attempts now made.
abbrev pub counted_failure : ℕ → ℕ → Card → Card
counted_failure now attempts c = record c {
  failed_pin_attempts = attempts;
  locked_until = if leb 5 attempts then some (now + fifteen_minutes) else none;
}

abbrev pub unlocked : Card → Card
unlocked c = record c { failed_pin_attempts = 0; locked_until = none }

unfoldable pub write_cards : (Card → Bool) → (Card → Card) → Action AuthDb (Unit {0})
write_cards p f = modify λ db. record db { cards = update_rows p f db.cards }

-- The row of an active user of the card's organization, which the query joins.
abbrev pub has_active_user : List User → Card → Bool
has_active_user users c = any (is_active_user c.organization_id c.user_id) users

abbrev pub login_device_of : Card → CardLogin → ℕ → LoginDevice
login_device_of card input until = record {
  organization_id = card.organization_id;
  user_id = card.user_id;
  device_id = input.device_id;
  device_type = input.device_type;
  device_name = input.device_name;
  offline_until = until;
}

module _ (codec : Codec) (hash : Text → Digest) (config : Config)
    (admits : LoginDevice → List StaffDevice → Bool) (matches : Text → Text → Bool) where
  -- After the PIN was right: the new session, its principal and tokens, and the audit row.
  unfoldable pub start_session :
      ℕ → Fresh → Card → CardLogin → Text → Action AuthDb AuthenticatedStaff
  unfolding create_session build_principal audit_auth_event issue_token_pair
  start_session now fresh card input token = do
    session ← create_session fresh.session_id record {
      organization_id = card.organization_id;
      user_id = card.user_id;
      device_id = input.device_id;
      family_id = fresh.family_id;
      refresh_token_hash = hash token;
      refresh_jti = fresh.refresh_jti;
      expires_at = refresh_expiry codec hash config now;
    }
    principal ← build_principal record {
      organization_id = card.organization_id;
      user_id = card.user_id;
      device_id = input.device_id;
      session_family_id = fresh.family_id;
      session_id = some session.id;
    }
    audit_auth_event record {
      organization_id = card.organization_id;
      user_id = card.user_id;
      device_id = input.device_id;
      session_id = session.id;
      operation = "auth.nfc_card_login";
    }
    tokens ← check λ _. issue_token_pair codec hash config now fresh.access_jti principal token
    pure record { principal = principal; tokens = tokens }

  unfoldable pub accept_pin :
      ℕ → Fresh → Card → CardLogin → Action AuthDb (Option AuthenticatedStaff)
  unfolding write_cards ensure_login_device start_session
  accept_pin now fresh card input = do
    write_cards (λ c. c.id == card.id) unlocked
    ensure_login_device admits (login_device_of card input (refresh_expiry codec hash config now))
    token ← check λ _.
        sign_refresh codec hash config now card.organization_id card.user_id input.device_id
          fresh.family_id fresh.refresh_jti
    staff ← start_session now fresh card input token
    pure (some staff)

  -- The failure is counted and committed: the transaction returns, without a principal.
  unfoldable pub refuse_pin : ℕ → Card → Action AuthDb (Option AuthenticatedStaff)
  unfolding write_cards
  refuse_pin now card =
      write_cards (λ c. c.id == card.id) (counted_failure now (card.failed_pin_attempts + 1))
      >> pure none

  unfoldable pub try_pin : ℕ → Fresh → Card → CardLogin → Action AuthDb (Option AuthenticatedStaff)
  unfolding accept_pin refuse_pin
  try_pin now fresh card input =
      if not (matches card.pin_hash input.pin)
      then refuse_pin now card
      else accept_pin now fresh card input

  -- What the login runs in its transaction.
  unfoldable pub login_card : ℕ → Fresh → CardLogin → Action AuthDb (Option AuthenticatedStaff)
  unfolding try_pin
  login_card now fresh input = do
    found ← gets λ db. find_row (is_usable input.card_id) db.cards
    card ← or_raise found invalid_credentials
    users ← gets λ db. db.policy.users
    raise_if (not (has_active_user users card) || is_locked now card) invalid_credentials
    try_pin now fresh card input

  abbrev pub require_staff : {A : Type 0} → Result (Option A) → Result A
  require_staff (err e) = err e
  require_staff (ok none) = err invalid_credentials
  require_staff (ok (some a)) = ok a

  unfoldable pub login_with_nfc_card :
      Driver → ℕ → Fresh → CardLogin → Action (Pool AuthDb) AuthenticatedStaff
  unfolding run login_card
  login_with_nfc_card d now fresh input p =
      let (r, q) = run d (login_card now fresh input) p in (require_staff r, q)

-- `logout`, outside a transaction.
unfoldable pub logout : ℕ → Option Uuid → Action AuthDb (Unit {0})
unfolding revoke_session
logout now none = pure tt
logout now (some id) = revoke_session now id "logout"
