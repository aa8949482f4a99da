-- ===== src/Sessions/Repository.antt =====
-- packages/database/src/auth.ts: the sessions and devices of `class AuthRepository`. Foreign keys
-- and the columns that no rule reads are left out. `now` is the clock.
use daja_platform.Base.{
  ℕ, String, Bool, true, false, not, Option, none, some, List, [], ◌∷◌, ◌&&◌, ◌||◌, ◌==◌, leb, any,
  if◌then◌else◌, find_row, update_rows, Action, pure, raise, gets, modify, raise_if, or_raise,
  ◌>>=◌, ◌>>◌,
}
use daja_platform.Context.{Uuid, same_id}
use daja_platform.Security.Errors.{invalid_token, tenant_access_denied, other_error}
use daja_platform.Sessions.Schema.{Digest, Session, StaffDevice, AuthEvent, AuthDb}

pub record SessionInput : Type 0 where
  pub organization_id : Uuid
  pub user_id : Uuid
  pub device_id : Uuid
  pub family_id : Uuid
  pub refresh_token_hash : Digest
  pub refresh_jti : Uuid
  pub expires_at : ℕ

abbrev pub new_session : Uuid → SessionInput → Session
new_session id input = record {
  id = id;
  family_id = input.family_id;
  organization_id = input.organization_id;
  user_id = input.user_id;
  device_id = input.device_id;
  refresh_token_hash = some input.refresh_token_hash;
  refresh_jti = some input.refresh_jti;
  expires_at = input.expires_at;
  revoked_at = none;
  revoked_reason = none;
  replaced_by = none;
}

-- The primary key, and the unique index on the hash.
abbrev pub collides : Uuid → Digest → Session → Bool
collides id hash s = s.id == id || same_id s.refresh_token_hash (some hash)

unfoldable pub create_session : Uuid → SessionInput → Action AuthDb Session
create_session id input = do
  sessions ← gets λ db. db.sessions
  raise_if (any (collides id input.refresh_token_hash) sessions) (other_error "23505")
  modify (λ db. record db { sessions = new_session id input ∷ db.sessions })
  pure (new_session id input)

abbrev pub is_revoked : Session → Bool
is_revoked s = elim s.revoked_at [ none ↦ false | some t ↦ true ]

-- `session.revokedAt || session.expiresAt <= new Date()`
abbrev pub is_over : ℕ → Session → Bool
is_over now s = is_revoked s || leb s.expires_at now

abbrev pub in_family : Uuid → Uuid → Session → Bool
in_family org family s = s.organization_id == org && s.family_id == family

abbrev pub revoked : ℕ → String → Session → Session
revoked now reason s = record s { revoked_at = some now; revoked_reason = some reason }

unfoldable pub revoke_session_family : ℕ → Uuid → Uuid → String → Action AuthDb (Unit {0})
revoke_session_family now org family reason = modify λ db. record db {
  sessions =
      update_rows (λ s. in_family org family s && not (is_revoked s)) (revoked now reason)
        db.sessions;
}

-- COALESCE(revoked_at, now())
abbrev pub revoked_once : ℕ → String → Session → Session
revoked_once now reason s =
    if is_revoked s then record s { revoked_reason = some reason } else revoked now reason s

unfoldable pub revoke_session : ℕ → Uuid → String → Action AuthDb (Unit {0})
revoke_session now id reason = modify λ db. record db {
  sessions = update_rows (λ s. s.id == id) (revoked_once now reason) db.sessions;
}

-- What a refresh token claims, and its digest.
pub record Claims : Type 0 where
  pub organization_id : Uuid
  pub user_id : Uuid
  pub device_id : Uuid
  pub family_id : Uuid
  pub refresh_jti : Uuid
  pub token_hash : Digest

abbrev pub is_claimed : Claims → Session → Bool
is_claimed c s =
    s.organization_id == c.organization_id
    && s.user_id == c.user_id
    && s.device_id == c.device_id
    && s.family_id == c.family_id
    && same_id s.refresh_jti (some c.refresh_jti)

-- The throw after the family has been revoked.
unfoldable pub refuse_family : {A : Type 0} → ℕ → Uuid → Uuid → String → Action AuthDb A
unfolding revoke_session_family
refuse_family now org family reason =
    revoke_session_family now org family reason
    >> raise (invalid_token "Invalid authentication token")

unfoldable pub find_active_refresh_session : ℕ → Claims → Action AuthDb Session
unfolding refuse_family
find_active_refresh_session now c db = elim (find_row (is_claimed c) db.sessions) [
  | none ↦ refuse_family now c.organization_id c.family_id "refresh_reuse_detected" db
  | some s ↦
      if not (same_id s.refresh_token_hash (some c.token_hash))
      then refuse_family now c.organization_id c.family_id "refresh_reuse_detected" db
      else if is_over now s
      then refuse_family now c.organization_id c.family_id "refresh_reuse_or_expired_session" db
      else pure s db
]

-- The UPDATE of the session that was replaced.
abbrev pub rotated : ℕ → Uuid → Session → Session
rotated now replacement s = record s {
  revoked_at = some now;
  revoked_reason = some "rotated";
  replaced_by = some replacement;
}

abbrev pub replacement_input : Session → Digest → Uuid → ℕ → SessionInput
replacement_input s hash jti expires = record {
  organization_id = s.organization_id;
  user_id = s.user_id;
  device_id = s.device_id;
  family_id = s.family_id;
  refresh_token_hash = hash;
  refresh_jti = jti;
  expires_at = expires;
}

unfoldable pub replace_session : ℕ → Uuid → Session → Digest → Uuid → ℕ → Action AuthDb Session
unfolding create_session
replace_session now id current hash jti expires = do
  replacement ← create_session id (replacement_input current hash jti expires)
  modify λ db. record db {
    sessions = update_rows (λ s. s.id == current.id) (rotated now replacement.id) db.sessions;
  }
  pure replacement

unfoldable pub rotate_refresh_session : ℕ → Uuid → Uuid → Digest → Uuid → ℕ → Action AuthDb Session
unfolding replace_session refuse_family
rotate_refresh_session now id session_id hash jti expires = do
  found ← gets λ db. find_row (λ s. s.id == session_id) db.sessions
  current ← or_raise found (invalid_token "Invalid authentication token")
  if is_over now current
      then refuse_family now current.organization_id current.family_id
          "refresh_reuse_or_expired_session"
      else replace_session now id current hash jti expires

-- The row that a login writes of its device.
pub record LoginDevice : Type 0 where
  pub organization_id : Uuid
  pub user_id : Uuid
  pub device_id : Uuid
  pub device_type : Option String
  pub device_name : Option String
  pub offline_until : ℕ

abbrev pub text_or : String → Option String → String
text_or t none = t
text_or t (some x) = x

abbrev pub login_device : LoginDevice → StaffDevice
login_device input = record {
  id = input.device_id;
  organization_id = input.organization_id;
  user_id = input.user_id;
  display_name = text_or "RFIDDaja device" input.device_name;
  device_type = text_or "rfiddaja_desktop" input.device_type;
  active = true;
  revoked = false;
  deleted = false;
  offline_until = input.offline_until;
}

unfoldable pub upsert_login_device : LoginDevice → List StaffDevice → List StaffDevice
upsert_login_device input [] = login_device input ∷ []
upsert_login_device input (d ∷ ds) =
    let rest = upsert_login_device input ds in
    if d.id == input.device_id
    then record (login_device input) { organization_id = d.organization_id } ∷ ds
    else d ∷ rest

-- `admits` stands for the other constraints of the table.
unfoldable pub ensure_login_device :
    (LoginDevice → List StaffDevice → Bool) → LoginDevice → Action AuthDb (Unit {0})
unfolding upsert_login_device
ensure_login_device admits input = do
  devices ← gets λ db. db.devices
  raise_if (not (admits input devices)) tenant_access_denied
  modify (λ db. record db { devices = upsert_login_device input db.devices })

abbrev pub is_access_session : ℕ → Uuid → Uuid → Uuid → Uuid → Uuid → Session → Bool
is_access_session now org user device family id s =
    s.id == id
    && s.organization_id == org
    && s.user_id == user
    && s.device_id == device
    && s.family_id == family
    && not (is_over now s)

unfoldable pub audit_auth_event : AuthEvent → Action AuthDb (Unit {0})
audit_auth_event e = modify λ db. record db { audit = e ∷ db.audit }
