-- ===== src/Sessions/Service.antt =====
-- apps/api/src/auth.service.ts: refresh, login with a card, logout, and the check of an access
-- token. All the calls of the clock in one request read one time, `now`, in milliseconds.
use daja_platform.Base.{
  ℕ, ◌+◌, ◌*◌, ◌/◌, min, Bool, true, false, Option, none, some, if◌then◌else◌, Result, ok, err,
  and_then, Action, pure, check, ◌>>=◌,
}
use daja_platform.Context.{Uuid, Optional}
use daja_platform.Security.Errors.{AppError, invalid_token}
use daja_platform.Transactions.{Driver, Pool, run}
use daja_platform.Tokens.{TokenType, JwtPayload, Codec, sign_jwt, verify_jwt}
use daja_platform.Tokens.Split.{Text}
use daja_platform.Sessions.Schema.{Digest, Session, AuthDb, Config, Fresh}
use daja_platform.Sessions.Repository.{
  Claims, revoke_session_family, find_active_refresh_session, rotate_refresh_session,
}
use daja_platform.Sessions.Principal.{Principal, PrincipalInput, build_principal}

pub record TokenPair : Type 0 where
  pub access_token : Text
  pub refresh_token : Text
  pub expires_in : ℕ
  pub refresh_expires_in : ℕ

pub record AuthenticatedStaff : Type 0 where
  pub principal : Principal
  pub tokens : TokenPair

abbrev pub bad_token : AppError
bad_token = invalid_token "Invalid authentication token"

abbrev pub refresh_payload : Uuid → Uuid → Uuid → Uuid → Uuid → JwtPayload
refresh_payload org user device family jti = record {
  typ = some TokenType.refresh;
  sub = some user;
  org = some org;
  jti = some jti;
  fam = some family;
  dev = some device;
  sid = none;
  parent_customer_id = Optional.undefined;
  parent_customer_family_id = Optional.undefined;
  parent_is_google = false;
  iat = none;
  exp = none;
}

abbrev pub access_payload : Uuid → Principal → JwtPayload
access_payload jti p = record {
  typ = some TokenType.access;
  sub = some p.user_id;
  org = some p.organization_id;
  jti = some jti;
  fam = some p.session_family_id;
  dev = some p.device_id;
  sid = p.session_id;
  parent_customer_id = Optional.undefined;
  parent_customer_family_id = Optional.undefined;
  parent_is_google = false;
  iat = none;
  exp = none;
}

-- What the token claims, once it names a family and a device.
abbrev pub claims_of : JwtPayload → Digest → Option Claims
claims_of p digest = elim p.org [
  | none ↦ none
  | some org ↦ elim p.sub [
    | none ↦ none
    | some user ↦ elim p.jti [
      | none ↦ none
      | some jti ↦ elim p.fam [
        | none ↦ none
        | some family ↦ elim p.dev [
          | none ↦ none
          | some device ↦ some record {
            organization_id = org;
            user_id = user;
            device_id = device;
            family_id = family;
            refresh_jti = jti;
            token_hash = digest;
          }
        ]
      ]
    ]
  ]
]

abbrev pub is_invalid_token : AppError → Bool
is_invalid_token (invalid_token m) = true
is_invalid_token _ = false

abbrev pub claimed_principal : Claims → Uuid → PrincipalInput
claimed_principal c session = record {
  organization_id = c.organization_id;
  user_id = c.user_id;
  device_id = c.device_id;
  session_family_id = c.family_id;
  session_id = some session;
}

-- `revokeSessionFamily` outside a transaction, which may fail; then the error, or that failure.
unfoldable pub revoke_after :
    {A : Type 0} → Option AppError → ℕ → Claims → AppError → Action (Pool AuthDb) A
unfolding revoke_session_family
revoke_after (some failure) now c e q = (err failure, q)
revoke_after none now c e q = (
  err e,
  record q {
    database =
        (revoke_session_family now c.organization_id c.family_id "refresh_reuse_detected"
          q.database).1;
  },
)

-- The `catch` of `refresh`.
unfoldable pub after_refresh :
    {A : Type 0} → Option AppError → ℕ → Claims → Result A → Action (Pool AuthDb) A
unfolding revoke_after
after_refresh catch_fails now c (ok a) q = (ok a, q)
after_refresh catch_fails now c (err e) q =
    if is_invalid_token e then revoke_after catch_fails now c e q else (err e, q)

module _ (codec : Codec) (hash : Text → Digest) (config : Config) where
  unfoldable pub issue_token_pair : ℕ → Uuid → Principal → Text → Result TokenPair
  issue_token_pair now jti principal refresh_token =
      and_then
        (sign_jwt codec (access_payload jti principal) config.access_secret
          (min config.access_ttl 900) (now / 1000))
        λ access_token. ok record {
          access_token = access_token;
          refresh_token = refresh_token;
          expires_in = min config.access_ttl 900;
          refresh_expires_in = config.refresh_ttl;
        }

  abbrev pub sign_refresh : ℕ → Uuid → Uuid → Uuid → Uuid → Uuid → Result Text
  sign_refresh now org user device family jti =
      sign_jwt codec (refresh_payload org user device family jti) config.refresh_secret
        config.refresh_ttl (now / 1000)

  abbrev pub refresh_expiry : ℕ → ℕ
  refresh_expiry now = now + config.refresh_ttl * 1000

  -- `refresh` after the token has been rotated.
  unfoldable pub answer_refresh :
      ℕ → Fresh → Claims → Text → Session → Action AuthDb AuthenticatedStaff
  unfolding build_principal issue_token_pair
  answer_refresh now fresh c token replacement = do
    principal ← build_principal (claimed_principal c replacement.id)
    tokens ← check λ _. issue_token_pair now fresh.access_jti principal token
    pure record { principal = principal; tokens = tokens }

  unfoldable pub rotate_claimed :
      ℕ → Fresh → Claims → Session → Text → Action AuthDb AuthenticatedStaff
  unfolding answer_refresh rotate_refresh_session
  rotate_claimed now fresh c current token = do
    replacement ←
        rotate_refresh_session now fresh.session_id current.id (hash token) fresh.refresh_jti
          (refresh_expiry now)
    answer_refresh now fresh c token replacement

  -- `refresh` after the session has been found.
  unfoldable pub refresh_found : ℕ → Fresh → Claims → Session → Action AuthDb AuthenticatedStaff
  unfolding rotate_claimed
  refresh_found now fresh c current = do
    token ←
        check λ _.
          sign_refresh now c.organization_id c.user_id c.device_id c.family_id fresh.refresh_jti
    rotate_claimed now fresh c current token

  -- What `refresh` runs in its transaction.
  unfoldable pub refresh_session : ℕ → Fresh → Claims → Action AuthDb AuthenticatedStaff
  unfolding refresh_found find_active_refresh_session
  refresh_session now fresh c = find_active_refresh_session now c >>= refresh_found now fresh c

  unfoldable pub refresh_claimed :
      Driver → Option AppError → ℕ → Fresh → Option Claims → Action (Pool AuthDb) AuthenticatedStaff
  unfolding refresh_session after_refresh run
  refresh_claimed d catch_fails now fresh none p = (err bad_token, p)
  refresh_claimed d catch_fails now fresh (some c) p =
      let (r, q) = run d (refresh_session now fresh c) p in after_refresh catch_fails now c r q

  unfoldable pub refresh_verified :
      Driver
      → Option AppError
      → ℕ
      → Fresh
      → Text
      → Result JwtPayload
      → Action (Pool AuthDb) AuthenticatedStaff
  unfolding refresh_claimed
  refresh_verified d catch_fails now fresh token (err e) p = (err e, p)
  refresh_verified d catch_fails now fresh token (ok payload) p =
      refresh_claimed d catch_fails now fresh (claims_of payload (hash token)) p

  -- `catch_fails` is what the driver answers to the statement after a failed transaction.
  unfoldable pub refresh :
      Driver → Option AppError → ℕ → Fresh → Text → Action (Pool AuthDb) AuthenticatedStaff
  unfolding refresh_verified
  refresh d catch_fails now fresh token =
      refresh_verified d catch_fails now fresh token
        (verify_jwt codec token config.refresh_secret TokenType.refresh (now / 1000))
