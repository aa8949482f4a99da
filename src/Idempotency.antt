-- ===== src/Idempotency.antt =====
-- packages/database/src/idempotency.ts: `IdempotencyStore.run`. The hash of a request is an
-- argument, and so is the handler, which acts on the rest of the database.
pub mod Replay
mod Tests
use daja_platform.Base.{
  ℕ, Bool, true, false, Option, none, some, List, [], ◌∷◌, ◌&&◌, ◌==◌, if◌then◌else◌, find_row,
  update_rows, Result, ok, err, Action,
}
use daja_platform.Context.{Uuid}
use daja_platform.Json.{Json, null}
use daja_platform.Security.Errors.{AppError, idempotency_conflict}

pub data RecordStatus : Type 0 where
  started completed failed : RecordStatus

-- A row of idempotency_records. The payload of a response that is null is stored as a null, which
-- reads like no payload: `none`.
pub record Entry : Type 0 where
  pub organization_id : Uuid
  pub key : Uuid
  pub request_hash : Uuid
  pub status : RecordStatus
  pub response_status : Option ℕ
  pub response_payload : Option Json

pub record Database (S : Type 0) : Type 0 where
  pub entries : List Entry
  pub rest : S

pub record Response : Type 0 where
  pub status : ℕ
  pub payload : Json

pub record Reply : Type 0 where
  pub replayed : Bool
  pub status : ℕ
  pub payload : Json

abbrev pub is_entry : Uuid → Uuid → Entry → Bool
is_entry org key e = e.organization_id == org && e.key == key

-- What a reader of the column gets back.
abbrev pub stored_payload : Json → Option Json
stored_payload null = none
stored_payload v = some v

abbrev pub complete : Response → Entry → Entry
complete r e = record e {
  status = completed;
  response_status = some r.status;
  response_payload = stored_payload r.payload;
}

abbrev pub fail : Entry → Entry
fail e = record e { status = failed }

-- The response of a row that is completed and has a status and a payload.
unfoldable pub replay_of : RecordStatus → Option ℕ → Option Json → Option Reply
replay_of completed (some status) (some payload) =
    some (record { replayed = true; status = status; payload = payload })
replay_of _ _ _ = none

-- The row of the INSERT.
abbrev pub new_entry : Uuid → Uuid → Uuid → Entry
new_entry org key hash = record {
  organization_id = org;
  key = key;
  request_hash = hash;
  status = started;
  response_status = none;
  response_payload = none;
}

module _ {S : Type 0} (org key : Uuid) (hash : Uuid) (handler : Action S Response) where
  -- The `try` block and its `catch`.
  unfoldable pub settle : Result Response → S → List Entry → Result Reply × Database S
  settle (ok r) rest entries = (
    ok (record { replayed = false; status = r.status; payload = r.payload }),
    record { entries = update_rows (is_entry org key) (complete r) entries; rest = rest },
  )
  settle (err e) rest entries =
      (err e, record { entries = update_rows (is_entry org key) fail entries; rest = rest })

  unfoldable pub handle : List Entry → S → Result Reply × Database S
  handle entries rest = let (r, rest') = handler rest in settle r rest' entries

  unfoldable pub run_found : Entry → Option Reply → Database S → Result Reply × Database S
  run_found e (some reply) db = (ok reply, db)
  run_found e none db = handle db.entries db.rest

  unfoldable pub run_from : Option Entry → Database S → Result Reply × Database S
  unfolding run_found
  run_from none db = handle (new_entry org key hash ∷ db.entries) db.rest
  run_from (some e) db =
      if e.request_hash == hash
      then run_found e (replay_of e.status e.response_status e.response_payload) db
      else (err idempotency_conflict, db)

  unfoldable pub run : Action (Database S) Reply
  unfolding run_from
  run db = run_from (find_row (is_entry org key) db.entries) db
