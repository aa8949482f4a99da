-- ===== src/Sessions/Logout.antt =====
-- An access token of a session that was logged out is refused.
use mathlib.Core.Path.{subst}
use daja_platform.Base.{
  ℕ, ◌/◌, ◌≡◌, ◌≢◌, refl, String, Option, none, some, List, [], ◌∷◌, ◌==◌, where_rows, update_rows,
  ok, arith, ◌>>=◌,
}
use daja_platform.Base.Keeps.{bind_returns}
use daja_platform.Context.{Uuid, RequestContext}
use daja_platform.Tokens.{Codec, TokenType, JwtPayload, verify_jwt}
use daja_platform.Tokens.Split.{Text}
use daja_platform.Sessions.Schema.{Session, AuthDb, Config}
use daja_platform.Sessions.Repository.{is_access_session, revoked_once, revoke_session}
use daja_platform.Sessions.Principal.{assert_access_session}
use daja_platform.Sessions.Login.{logout}
use daja_platform.Sessions.Authenticate.{
  AccessClaims, access_claims, open_context, authenticate_claims, authenticate_verified,
  authenticate_access_token,
}

none_left :
    (now ended org user device family id : ℕ) (reason : String) (rows : List Session)
    → where_rows
        (is_access_session now org user device family id)
        (update_rows (λ s. s.id == id) (revoked_once ended reason) rows)
      ≡ []
none_left now ended org user device family id reason [] = refl
none_left now ended org user device family id reason (s ∷ rest) =
    ground (arith, none_left now ended org user device family id reason rest)

assert_access_session-logout :
    (now ended org user device family id : ℕ) (db : AuthDb) (u : Unit {0})
    → (assert_access_session now org user device family id (logout ended (some id) db).1).0 ≢ ok u
unfolding assert_access_session logout revoke_session
assert_access_session-logout now ended org user device family id db u h =
    ground (arith, h, none_left now ended org user device family id "logout" db.sessions)

open_context-logout :
    (now ended : ℕ) (c : AccessClaims) (loc : Option Uuid) (db : AuthDb) (a : RequestContext × Uuid)
    → (open_context now c loc (logout ended (some c.session_id) db).1).0 ≢ ok a
unfolding open_context
open_context-logout now ended c loc db a h =
    let (u, checked, _) =
      bind_returns
        (assert_access_session now c.organization_id c.user_id c.device_id c.family_id c.session_id)
        _ (logout ended (some c.session_id) db).1 h in
    assert_access_session-logout now ended c.organization_id c.user_id c.device_id c.family_id
      c.session_id db u checked

authenticate_claims_returns :
    (now : ℕ) (p : JwtPayload) (device loc : Option Uuid) (claims : Option AccessClaims)
    (db : AuthDb) (a : RequestContext × Uuid)
    → (authenticate_claims now p device loc claims db).0 ≡ ok a
    → (c : AccessClaims) × (claims ≡ some c) × ((open_context now c loc db).0 ≡ ok a)
unfolding authenticate_claims ◌>>=◌
authenticate_claims_returns now p device loc none db a h = cc
authenticate_claims_returns now p device loc (some c) db a h = (c, refl, ground (arith, h))

-- A session is claimed under the id that the payload has.
access_claims-session :
    (p : JwtPayload) (c : AccessClaims) → access_claims p ≡ some c → p.sid ≡ some c.session_id
access_claims-session p c h = ground (arith, h)

-- A logout of a session ends every access token of it: in the database that the logout leaves, no
-- such token is answered with a context at any time, whatever the secret and whatever the device and
-- location asked for.
pub authenticate-logout :
    (codec : Codec) (config : Config) (now ended : ℕ) (token : Text) (device loc : Option Uuid)
    (db : AuthDb) (payload : JwtPayload) (id : Uuid) (a : RequestContext × Uuid)
    → verify_jwt codec token config.access_secret TokenType.access (now / 1000) ≡ ok payload
    → payload.sid ≡ some id
    → (authenticate_access_token codec config now token device loc (logout ended (some id) db).1).0
      ≢ ok a
unfolding authenticate_access_token authenticate_verified
authenticate-logout codec config now ended token device loc db payload id a v s h =
    let claims_return =
      authenticate_claims_returns now payload device loc (access_claims payload)
        (logout ended (some id) db).1 a in
    let (c, claimed, opened) = claims_return (
      subst (λ r. (authenticate_verified now device loc r (logout ended (some id) db).1).0 ≡ ok a) v
        h) in
    let same : id ≡ c.session_id = ground (arith, s, access_claims-session payload c claimed) in
    open_context-logout now ended c loc db a
      (subst (λ x. (open_context now c loc (logout ended (some x) db).1).0 ≡ ok a) same opened)
