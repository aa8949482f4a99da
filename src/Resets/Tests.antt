-- ===== src/Resets/Tests.antt =====
-- A customer who asks for a link, follows it, asks again and follows the first link again.
use daja_platform.Base.{◌>>=◌, ◌≡◌, refl, true, false, none, some, any, [], ◌∷◌, ok, err, arith}
use daja_platform.Transactions.{Driver, Pool, run}
use daja_platform.Tokens.Split.{Text, same_text}
use daja_platform.Resets.{
  ResetDb, ResetInput, ResetRecord, bad_link, create_customer_password_reset,
  consume_customer_password_reset,
}
use daja_platform.Resets.Service.{is_open_session, reset_password}
use daja_platform.Resets.SignedOut.{reset_password-sessions}
use daja_platform.Resets.Once.{ask, serve_resets, follow_again}

abbrev healthy : Driver
healthy = record {
  connect = none;
  begin_fails = none;
  fault = none;
  commit_fails = none;
  rollback_fails = none;
}

abbrev same : Text → Text
same t = t

abbrev first_link : ResetInput
first_link = record {
  organization_id = 1;
  email = 97 ∷ 64 ∷ [];
  token_hash = 7 ∷ [];
  expires_at = 1800000;
}

abbrev second_link : ResetInput
second_link = record first_link { token_hash = 8 ∷ []; expires_at = 2400000 }

abbrev empty : Pool ResetDb
empty = record {
  database = record {
    customers =
        (record {
          organization_id = 1;
          id = 5;
          email = some (97 ∷ 64 ∷ []);
          phone = none;
          active = true;
          deleted = false;
          email_verified = false;
          phone_verified = false;
          version = 1;
        })
        ∷ [];
    tokens = [];
    passkeys = [];
    identities = [];
    sessions =
        (record { organization_id = 1; customer_id = 5; revoked_at = none; revoked_reason = none })
        ∷ [];
  };
  released = [];
  listeners = 0;
  logged = [];
  leaked = [];
}

abbrev asked : Pool ResetDb
asked = (run healthy (create_customer_password_reset same 0 first_link) empty).1

abbrev customer : ResetRecord
customer = record { organization_id = 1; customer_id = 5; email = 97 ∷ 64 ∷ []; phone = none }

followed : (run healthy (consume_customer_password_reset 1000 (7 ∷ [])) asked).0 ≡ ok customer
unfolding run create_customer_password_reset consume_customer_password_reset same_text ◌>>=◌
followed = refl

-- A second link within five minutes is not made.
too_soon : (run healthy (create_customer_password_reset same 300000 second_link) asked).0 ≡ ok none
unfolding run create_customer_password_reset same_text ◌>>=◌
too_soon = refl

-- One after them is, and the first link is then refused.
replaced :
    (run healthy
      (consume_customer_password_reset 310000 (7 ∷ []))
      (run healthy (create_customer_password_reset same 300001 second_link) asked).1).0
    ≡ err bad_link
unfolding run create_customer_password_reset consume_customer_password_reset same_text ◌>>=◌
replaced = refl

reset : (run healthy (reset_password same same 1000 30 (7 ∷ []) (9 ∷ [])) asked).0 ≡ ok tt
unfolding run create_customer_password_reset reset_password same_text ◌>>=◌
reset = refl

follow_again_example :
    (run healthy (reset_password same same 700000 31 (7 ∷ []) (6 ∷ [])) (
      serve_resets same same same
        ((healthy, 600000, ask second_link) ∷ [])
        (run healthy (reset_password same same 1000 30 (7 ∷ []) (9 ∷ [])) asked).1)).0
    ≡ err bad_link
unfolding same_text
follow_again_example =
    follow_again same same same healthy healthy (7 ∷ []) (9 ∷ []) (6 ∷ []) 1000 700000 30 31 asked
      tt ((healthy, 600000, ask second_link) ∷ []) reset (refl, tt) (omega arith) refl refl

reset_password-sessions_example :
    (r : ResetRecord) × ((consume_customer_password_reset 1000 (7 ∷ []) asked.database).0 ≡ ok r)
    × (any
          (is_open_session r.organization_id r.customer_id)
          (run healthy
            (reset_password same same 1000 30 (7 ∷ []) (9 ∷ []))
            asked).1.database.sessions
        ≡ false)
reset_password-sessions_example =
    reset_password-sessions same same healthy 1000 30 (7 ∷ []) (9 ∷ []) asked tt reset
