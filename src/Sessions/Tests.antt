-- ===== src/Sessions/Tests.antt =====
-- Runs on a staff database with one card and one session.
use daja_platform.Base.{
  ℕ, ◌+◌, ◌*◌, ◌/◌, ◌≤◌, ◌<◌, ◌≡◌, ◌≢◌, refl, String, Bool, true, false, Option, none, some, List,
  [], ◌∷◌, ok, err, Result, length, arith,
}
use daja_platform.Context.{Scope, RequestContext}
use daja_platform.Security.Errors.{invalid_credentials}
use daja_platform.Transactions.{Pool}
use daja_platform.Tokens.{TokenType, JwtPayload, sign_jwt, verify_jwt, dated}
use daja_platform.Tokens.Split.{Text, same_text}
use daja_platform.Tokens.Example.{small_codec, long_secret, total}
use daja_platform.Sessions.Schema.{StaffDevice, AuthDb}
use daja_platform.Sessions.Repository.{Claims, LoginDevice}
use daja_platform.Sessions.Service.{
  AuthenticatedStaff, bad_token, refresh, refresh_payload, access_payload, TokenPair,
}
use daja_platform.Sessions.Principal.{Principal}
use daja_platform.Sessions.Login.{CardLogin, login_with_nfc_card, logout}
use daja_platform.Sessions.Authenticate.{authenticate_access_token, context_of}
use daja_platform.Sessions.Logout.{authenticate-logout}
use daja_platform.Sessions.Lockout.{login_all, login-locked}
use daja_platform.Sessions.Rotation.{live_count, refresh-live_count}
use daja_platform.Sessions.Replay.{refresh-replayed}
use daja_platform.Sessions.Example.{
  config, healthy, payload, text_of, token, card, db, pool, fresh, fresh_again,
}

-- At second 2000.
abbrev once : Result AuthenticatedStaff × Pool AuthDb
once = refresh small_codec total config healthy none 2000000 fresh token pool

abbrev principal : Principal
principal = record {
  user_id = 3;
  organization_id = 1;
  device_id = 4;
  session_family_id = 8;
  session_id = some 21;
  permissions = "inventory.read" ∷ [];
  scoped_grants =
      record { permission = "inventory.read"; scope = Scope.location; location_id = some 5 } ∷ [];
  policy_version = 1;
  is_owner = false;
}

abbrev signed : TokenPair
signed = record {
  access_token = text_of (sign_jwt small_codec (access_payload 92 principal) long_secret 900 2000);
  refresh_token =
      text_of (sign_jwt small_codec (refresh_payload 1 3 4 8 91) long_secret 86400 2000);
  expires_in = 900;
  refresh_expires_in = 86400;
}

abbrev claims : Claims
claims = record {
  organization_id = 1;
  user_id = 3;
  device_id = 4;
  family_id = 8;
  refresh_jti = 90;
  token_hash = total token;
}

refresh-live_count_example : live_count 1 8 once.1.database.sessions ≤ live_count 1 8 db.sessions
refresh-live_count_example =
    refresh-live_count small_codec total config healthy none 2000000 fresh token pool 1 8

answered : once.0 ≡ ok (record { principal = principal; tokens = signed })
unfolding refresh verify_jwt sign_jwt daja_platform.Tokens.Split.split_dots
    daja_platform.Tokens.Split.same_text daja_platform.Tokens.same_type daja_platform.Base.◌>>=◌
answered = refl

verifies_later :
    verify_jwt small_codec token long_secret TokenType.refresh (3000000 / 1000)
    ≡ ok (dated payload 86400 1000)
unfolding verify_jwt sign_jwt daja_platform.Tokens.Split.split_dots
    daja_platform.Tokens.Split.same_text daja_platform.Tokens.same_type
verifies_later = refl

refresh-replayed_example :
    ((refresh small_codec total config healthy none 3000000 fresh_again token once.1).0
      ≡ err bad_token)
    × (live_count 1 8
          (refresh small_codec total config healthy none 3000000 fresh_again token
            once.1).1.database.sessions
        ≡ 0)
refresh-replayed_example =
    refresh-replayed small_codec total config healthy healthy none 2000000 3000000 fresh fresh_again
      token pool (record { principal = principal; tokens = signed }) (dated payload 86400 1000)
      claims answered verifies_later refl refl refl refl

abbrev access_token : Text
access_token = text_of (
    sign_jwt small_codec (access_payload 92 (record principal { session_id = some 20 })) long_secret
      900 2000)

access_verifies :
    verify_jwt small_codec access_token long_secret TokenType.access (2100000 / 1000)
    ≡ ok (dated (access_payload 92 (record principal { session_id = some 20 })) 900 2000)
unfolding verify_jwt sign_jwt daja_platform.Tokens.Split.split_dots same_text
    daja_platform.Tokens.same_type
access_verifies = refl

abbrev context : RequestContext
context = context_of (record principal { session_id = some 20 }) none

-- Before the logout the token is answered.
authenticated :
    (authenticate_access_token small_codec config 2100000 access_token none none db).0
    ≡ ok (context, 20)
unfolding authenticate_access_token verify_jwt sign_jwt daja_platform.Tokens.Split.split_dots
    same_text daja_platform.Tokens.same_type daja_platform.Base.◌>>=◌
authenticated = refl

authenticate-logout_example :
    (authenticate_access_token small_codec config 2100000 access_token none none
      (logout 2050000 (some 20) db).1).0
    ≢ ok (context, 20)
authenticate-logout_example =
    authenticate-logout small_codec config 2100000 2050000 access_token none none db
      (dated (access_payload 92 (record principal { session_id = some 20 })) 900 2000) 20
      (context, 20) access_verifies refl

abbrev pub admits_all : LoginDevice → List StaffDevice → Bool
admits_all d ds = true

abbrev guess : CardLogin
guess = record { card_id = 31; pin = 6 ∷ []; device_id = 4; device_type = none; device_name = none }

abbrev right : CardLogin
right = record guess { pin = 5 ∷ [] }

abbrev log_in : ℕ → CardLogin → Pool AuthDb → Result AuthenticatedStaff × Pool AuthDb
log_in = λ now i p.
    login_with_nfc_card small_codec total config admits_all same_text healthy now fresh i p

-- The right PIN is taken, and two wrong ones after the three counted lock the card.
taken : (log_in 2000000 right pool).1.database.cards ≡ record card { failed_pin_attempts = 0 } ∷ []
unfolding login_with_nfc_card daja_platform.Base.◌>>=◌ same_text sign_jwt
taken = refl

abbrev guessed : Pool AuthDb
guessed =
    login_all small_codec total config admits_all same_text healthy 2000000 fresh
      (guess ∷ guess ∷ []) pool

login-locked_example :
    ((log_in 2800000 right guessed).0 ≡ err invalid_credentials)
    × ((log_in 2800000 right guessed).1.database ≡ guessed.database)
unfolding same_text
login-locked_example =
    login-locked small_codec total config admits_all same_text healthy healthy 2000000 2800000 fresh
      fresh guess (guess ∷ []) right card pool refl refl refl refl refl refl refl refl refl
      (refl, (refl, tt)) (refl, (refl, tt)) (omega arith) (omega arith)
