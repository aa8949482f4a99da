-- ===== src/Sessions/Example.antt =====
-- A staff database with one card and one session.
use daja_platform.Base.{true, false, none, some, [], ◌∷◌, ok, err, Result}
use daja_platform.Context.{Scope}
use daja_platform.Transactions.{Driver, Pool}
use daja_platform.Access.Policy.{Policy}
use daja_platform.Tokens.{JwtPayload, sign_jwt}
use daja_platform.Tokens.Split.{Text}
use daja_platform.Tokens.Example.{small_codec, long_secret, total}
use daja_platform.Sessions.Schema.{Session, Card, AuthDb, Config, Fresh}
use daja_platform.Sessions.Service.{refresh_payload}

abbrev pub config : Config
config = record {
  access_secret = long_secret;
  refresh_secret = long_secret;
  access_ttl = 900;
  refresh_ttl = 86400;
}

abbrev pub healthy : Driver
healthy = record {
  connect = none;
  begin_fails = none;
  fault = none;
  commit_fails = none;
  rollback_fails = none;
}

abbrev pub policy : Policy
policy = record {
  roles = record { id = 8; organization_id = 1; code = some "seller"; deleted = false } ∷ [];
  role_permissions = record { role_id = 8; permission_id = "inventory.read" } ∷ [];
  users = record { id = 3; organization_id = 1; active = true } ∷ [];
  assignments =
      record {
        organization_id = 1;
        user_id = 3;
        role_id = 8;
        scope = Scope.location;
        location_id = some 5;
        deleted = false;
      }
      ∷ [];
  locations = record { id = 5; organization_id = 1; active = true; deleted = false } ∷ [];
}

abbrev pub payload : JwtPayload
payload = refresh_payload 1 3 4 8 90

abbrev pub text_of : Result Text → Text
text_of (ok t) = t
text_of (err e) = []

-- Issued at second 1000.
abbrev pub token : Text
token = text_of (sign_jwt small_codec payload long_secret 86400 1000)

abbrev pub session : Session
session = record {
  id = 20;
  family_id = 8;
  organization_id = 1;
  user_id = 3;
  device_id = 4;
  refresh_token_hash = some (total token);
  refresh_jti = some 90;
  expires_at = 87400000;
  revoked_at = none;
  revoked_reason = none;
  replaced_by = none;
}

abbrev pub card : Card
card = record {
  id = 30;
  organization_id = 1;
  user_id = 3;
  card_id = 31;
  pin_hash = 5 ∷ [];
  failed_pin_attempts = 3;
  locked_until = none;
  active = true;
  revoked = false;
}

abbrev pub db : AuthDb
db = record {
  sessions = session ∷ [];
  devices =
      record {
        id = 4;
        organization_id = 1;
        user_id = 3;
        display_name = "desk";
        device_type = "rfiddaja_desktop";
        active = true;
        revoked = false;
        deleted = false;
        offline_until = 87400000;
      }
      ∷ [];
  cards = card ∷ [];
  customer_sessions = [];
  policy = policy;
  policy_versions = [];
  audit = [];
}

abbrev pub pool : Pool AuthDb
pool = record { database = db; released = []; listeners = 0; logged = []; leaked = [] }

abbrev pub fresh : Fresh
fresh = record { session_id = 21; family_id = 9; refresh_jti = 91; access_jti = 92 }

abbrev pub fresh_again : Fresh
fresh_again = record { session_id = 22; family_id = 10; refresh_jti = 93; access_jti = 94 }
