-- ===== src/Migrations.antt =====
-- packages/database/src/migrations.ts: the migrations of the schema. What a migration's SQL does to
-- the schema is a parameter, `execute`, which may raise and then leaves the schema alone; so is the
-- hash, `digest`. A text is a list of character codes.
pub mod Again
pub mod Waiting
mod Tests
use daja_platform.Base.{
  ℕ, suc, zero, ◌+◌, ◌-◌, min, String, Bool, true, false, not, Option, none, some, List, [], ◌∷◌,
  ◌&&◌, ◌||◌, ◌==◌, leb, any, if◌then◌else◌, find_row, update_rows, Result, ok, err, Action, pure,
  raise, gets, modify, and_then, ◌>>=◌, ◌>>◌,
}
use daja_platform.Security.Errors.{AppError, other_error}
use daja_platform.Tokens.Split.{Text, same_text}

-- `.replace(/\r\n/g, '\n')`
unfoldable pub to_lf : Text → Text
to_lf [] = []
to_lf (c ∷ []) = c ∷ []
to_lf (c ∷ d ∷ cs) = let rest = to_lf (d ∷ cs) in if c == 13 && d == 10 then rest else c ∷ rest

-- `.replace(/\n/g, '\r\n')`
unfoldable pub to_crlf : Text → Text
to_crlf [] = []
to_crlf (c ∷ cs) = let rest = to_crlf cs in if c == 10 then 13 ∷ 10 ∷ rest else c ∷ rest

-- The part of a file name before the first underscore, the part after it, and the contents.
pub record MigrationFile : Type 0 where
  pub version : Text
  pub name : Text
  pub sql : Text

-- schema_migrations
pub record HistoryRow : Type 0 where
  pub version : Text
  pub name : Text
  pub checksum : ℕ

pub record MigrationDb (S : Type 0) : Type 0 where
  pub schema : S
  pub history : List HistoryRow

pub record MigrationStatus : Type 0 where
  pub version : Text
  pub name : Text
  pub checksum : ℕ
  pub applied : Bool

-- '031' and '043'
abbrev pub is_recoverable : Text → Bool
is_recoverable v = same_text v (48 ∷ 51 ∷ 49 ∷ []) || same_text v (48 ∷ 52 ∷ 51 ∷ [])

abbrev pub mismatch : AppError
mismatch = other_error "Checksum mismatch for migration"

abbrev pub has_version : Text → HistoryRow → Bool
has_version v r = same_text r.version v

-- What `migrate` answers; a lock that another process holds is told from the other errors.
pub data Migrated : Type 0 where
  done : List MigrationStatus → Migrated
  lock_held : Migrated
  failed : AppError → Migrated

module _ {S : Type 0} (digest : Text → ℕ) (execute : Text → S → Result S) where
  unfoldable pub checksum_matches : Text → ℕ → Bool
  unfolding to_lf to_crlf
  checksum_matches contents expected =
      digest contents == expected
      || digest (to_lf contents) == expected
      || digest (to_crlf (to_lf contents)) == expected

  unfoldable pub run_sql : Text → Action (MigrationDb S) (Unit {0})
  run_sql sql db = elim (execute sql db.schema) [
    | err e ↦ (err e, db)
    | ok schema ↦ (ok tt, record db { schema = schema })
  ]

  abbrev pub row_of : MigrationFile → HistoryRow
  row_of f = record { version = f.version; name = f.name; checksum = digest f.sql }

  -- A version that the history has not.
  unfoldable pub apply_new : MigrationFile → Action (MigrationDb S) (Unit {0})
  unfolding run_sql
  apply_new f = run_sql f.sql >> modify (λ db. record db { history = row_of f ∷ db.history })

  -- A recoverable version whose checksum differs is run again.
  unfoldable pub apply_again : MigrationFile → Action (MigrationDb S) (Unit {0})
  unfolding run_sql
  apply_again f =
      run_sql f.sql
      >> modify λ db. record db {
        history =
            update_rows (has_version f.version) (λ r. record r { checksum = digest f.sql })
              db.history;
      }

  -- One round of the loop.
  unfoldable pub migrate_one : MigrationFile → Action (MigrationDb S) (Unit {0})
  unfolding checksum_matches apply_new apply_again
  migrate_one f db = elim (find_row (has_version f.version) db.history) [
    | none ↦ apply_new f db
    | some row ↦
        if checksum_matches f.sql row.checksum
        then pure tt db
        else if not (is_recoverable f.version)
        then raise mismatch db
        else apply_again f db
  ]

  unfoldable pub migrate_all : List MigrationFile → Action (MigrationDb S) (Unit {0})
  unfolding migrate_one
  migrate_all [] = pure tt
  migrate_all (f ∷ fs) = migrate_one f >>= λ _. migrate_all fs

  abbrev pub status_of : MigrationFile → Bool → MigrationStatus
  status_of f applied = record {
    version = f.version;
    name = f.name;
    checksum = digest f.sql;
    applied = applied;
  }

  unfoldable pub status_one : List HistoryRow → MigrationFile → Result MigrationStatus
  unfolding checksum_matches
  status_one history f = elim (find_row (has_version f.version) history) [
    | none ↦ ok (status_of f false)
    | some row ↦
        if not (checksum_matches f.sql row.checksum) && not (is_recoverable f.version)
        then err mismatch
        else ok (status_of f true)
  ]

  unfoldable pub migration_status :
      List HistoryRow → List MigrationFile → Result (List MigrationStatus)
  unfolding status_one
  migration_status history [] = ok []
  migration_status history (f ∷ fs) =
      and_then (status_one history f) λ s. and_then (migration_status history fs) λ ss. ok (s ∷ ss)

  abbrev pub as_migrated : Result (List MigrationStatus) → Migrated
  as_migrated (ok s) = done s
  as_migrated (err e) = failed e

  unfoldable pub answer_migrate :
      List MigrationFile → Result (Unit {0}) → MigrationDb S → Migrated × MigrationDb S
  unfolding migration_status
  answer_migrate files (err e) db = (failed e, db)
  answer_migrate files (ok u) db = (as_migrated (migration_status db.history files), db)

  -- `locked` is what `pg_try_advisory_lock` answers.
  unfoldable pub migrate : List MigrationFile → Bool → MigrationDb S → Migrated × MigrationDb S
  unfolding migrate_all answer_migrate
  migrate files false db = (lock_held, db)
  migrate files true db = let (r, after) = migrate_all files db in answer_migrate files r after

  -- After a round: a lock that is held is waited for, unless the time is over.
  abbrev pub settle_round :
      Migrated × MigrationDb S
      → Bool
      → (MigrationDb S → Option (Migrated × MigrationDb S))
      → Option (Migrated × MigrationDb S)
  settle_round (lock_held, after) over rest = if over then some (lock_held, after) else rest after
  settle_round (done s, after) over rest = some (done s, after)
  settle_round (failed e, after) over rest = some (failed e, after)

  -- The loop, for at most `fuel` rounds. The lock is free at some times; a round that starts at a
  -- time ends at `ends`, and a sleep that starts at a time wakes at `wakes`. All in milliseconds.
  module _ (files : List MigrationFile) (free : ℕ → Bool) (ends : ℕ → ℕ) (wakes : ℕ → ℕ → ℕ) where
    unfoldable pub migrate_when_available :
        ℕ → ℕ → ℕ → MigrationDb S → Option (Migrated × MigrationDb S)
    unfolding migrate
    migrate_when_available zero deadline now db = none
    migrate_when_available (suc fuel) deadline now db =
        let rest =
          migrate_when_available fuel deadline
            (wakes (ends now) (min 1000 (deadline - ends now))) in
        settle_round (migrate files (free now) db) (leb deadline (ends now)) rest
