-- ===== src/Sessions/Authenticate.antt =====
-- apps/api/src/auth.service.ts: `authenticateAccessToken`, which reads an access token.
use daja_platform.Base.{
  ℕ, ◌/◌, Bool, true, false, not, Option, none, some, ◌&&◌, ◌==◌, ltb, any, if◌then◌else◌, Result,
  ok, err, Action, pure, raise, raise_if, check, guard, ◌>>=◌, ◌>>◌,
}
use daja_platform.Context.{Uuid, Optional, RequestContext}
use daja_platform.Security.Errors.{invalid_token, permission_denied}
use daja_platform.Tokens.{Codec, TokenType, JwtPayload, verify_jwt}
use daja_platform.Tokens.Split.{Text}
use daja_platform.Sessions.Schema.{CustomerSession, AuthDb, Config}
use daja_platform.Sessions.Principal.{
  Principal, build_principal, assert_access_session, assert_location_access,
}
use daja_platform.Sessions.Service.{bad_token}

-- What an access token claims, once it names a family, a device and a session.
pub record AccessClaims : Type 0 where
  pub organization_id : Uuid
  pub user_id : Uuid
  pub device_id : Uuid
  pub family_id : Uuid
  pub session_id : Uuid

abbrev pub access_claims : JwtPayload → Option AccessClaims
access_claims p = elim p.org [
  | none ↦ none
  | some org ↦ elim p.sub [
    | none ↦ none
    | some user ↦ elim p.dev [
      | none ↦ none
      | some device ↦ elim p.fam [
        | none ↦ none
        | some family ↦ elim p.sid [
          | none ↦ none
          | some session ↦ some record {
            organization_id = org;
            user_id = user;
            device_id = device;
            family_id = family;
            session_id = session;
          }
        ]
      ]
    ]
  ]
]

-- `input.deviceId && input.deviceId !== payload.dev`
abbrev pub is_other_device : Option Uuid → Uuid → Bool
is_other_device none device = false
is_other_device (some d) device = not (d == device)

abbrev pub is_parent_session : ℕ → Uuid → Uuid → Uuid → CustomerSession → Bool
is_parent_session now org customer family s =
    s.organization_id == org
    && s.customer_id == customer
    && s.family_id == family
    && not s.revoked
    && ltb now s.expires_at

abbrev pub parent_of : Optional Uuid → Optional Uuid → Option (Uuid × Uuid)
parent_of (Optional.value customer) (Optional.value family) = some (customer, family)
parent_of _ _ = none

abbrev pub has_parent : JwtPayload → Bool
has_parent p = elim p.parent_customer_id [
  | Optional.undefined ↦ elim p.parent_customer_family_id [ Optional.undefined ↦ false | _ ↦ true ]
  | _ ↦ true
]

-- A session that stands on a customer's Google session ends with it.
unfoldable pub check_parent : ℕ → Uuid → JwtPayload → AuthDb → Result (Unit {0})
check_parent now org p db =
    if not (has_parent p)
    then ok tt
    else elim (parent_of p.parent_customer_id p.parent_customer_family_id) [
      | none ↦ err bad_token
      | some (customer, family) ↦
          if not p.parent_is_google
          then err bad_token
          else guard (any (is_parent_session now org customer family) db.customer_sessions)
              (invalid_token "Parent customer session is no longer active")
    ]

abbrev pub context_of : Principal → Option Uuid → RequestContext
context_of p loc = record {
  organization_id = p.organization_id;
  user_id = p.user_id;
  device_id = some p.device_id;
  location_id = loc;
  permissions = p.permissions;
  scoped_grants = p.scoped_grants;
  is_owner = p.is_owner;
}

unfoldable pub check_location : Principal → Option Uuid → Action AuthDb (Unit {0})
unfolding assert_location_access
check_location p none = pure tt
check_location p (some loc) = assert_location_access p.organization_id p.user_id loc

-- From `assertAccessSession` on.
unfoldable pub open_context : ℕ → AccessClaims → Option Uuid → Action AuthDb (RequestContext × Uuid)
unfolding assert_access_session build_principal check_location
open_context now c loc = do
  assert_access_session now c.organization_id c.user_id c.device_id c.family_id c.session_id
  principal ← build_principal record {
    organization_id = c.organization_id;
    user_id = c.user_id;
    device_id = c.device_id;
    session_family_id = c.family_id;
    session_id = some c.session_id;
  }
  check_location principal loc
  pure (context_of principal loc, c.session_id)

unfoldable pub authenticate_claims :
    ℕ
    → JwtPayload
    → Option Uuid
    → Option Uuid
    → Option AccessClaims
    → Action AuthDb (RequestContext × Uuid)
unfolding check_parent open_context
authenticate_claims now p device loc none = raise bad_token
authenticate_claims now p device loc (some c) = do
  raise_if (is_other_device device c.device_id) (permission_denied "device.match")
  check (check_parent now c.organization_id p)
  open_context now c loc

unfoldable pub authenticate_verified :
    ℕ → Option Uuid → Option Uuid → Result JwtPayload → Action AuthDb (RequestContext × Uuid)
unfolding authenticate_claims
authenticate_verified now device loc (err e) = raise e
authenticate_verified now device loc (ok p) = authenticate_claims now p device loc (access_claims p)

-- The context of the request, and its session. `device` and `loc` come with the request.
unfoldable pub authenticate_access_token :
    Codec → Config → ℕ → Text → Option Uuid → Option Uuid → Action AuthDb (RequestContext × Uuid)
unfolding authenticate_verified
authenticate_access_token codec config now token device loc =
    authenticate_verified now device loc
      (verify_jwt codec token config.access_secret TokenType.access (now / 1000))
