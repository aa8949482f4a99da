-- ===== src/Migrations/Tests.antt =====
-- Migrations of a schema that is the list of the SQL texts that were run.
use daja_platform.Base.{
  ℕ, ◌+◌, ◌*◌, ◌≤◌, ◌<◌, ◌≡◌, refl, Bool, true, false, Option, none, some, List, [], ◌∷◌, leb,
  Result, ok, err, arith, All,
}
use daja_platform.Tokens.Split.{Text, same_text}
use daja_platform.Tokens.Example.{total}
use daja_platform.Migrations.{
  MigrationFile, MigrationDb, MigrationStatus, Migrated, done, migrate, status_of,
  migrate_when_available, checksum_matches,
}
use daja_platform.Migrations.Again.{IsDistinct, migrate_again}
use daja_platform.Migrations.Waiting.{waiting_ends, waiting_migrates}

abbrev record_sql : Text → List Text → Result (List Text)
record_sql sql s = ok (sql ∷ s)

-- 001, 031 and another 031
abbrev first : MigrationFile
first = record { version = 48 ∷ 48 ∷ 49 ∷ []; name = []; sql = 100 ∷ 10 ∷ [] }

abbrev second : MigrationFile
second = record { version = 48 ∷ 51 ∷ 49 ∷ []; name = 97 ∷ []; sql = 200 ∷ [] }

abbrev third : MigrationFile
third = record { version = 48 ∷ 51 ∷ 49 ∷ []; name = 98 ∷ []; sql = 300 ∷ [] }

-- The history has 031 under another checksum.
abbrev db : MigrationDb (List Text)
db = record {
  schema = [];
  history = record { version = 48 ∷ 51 ∷ 49 ∷ []; name = 97 ∷ []; checksum = 7 } ∷ [];
}

abbrev answer : List MigrationStatus
answer = status_of total record_sql first true ∷ status_of total record_sql second true ∷ []

answered : (migrate total record_sql (first ∷ second ∷ []) true db).0 ≡ done answer
unfolding migrate daja_platform.Base.◌>>=◌ same_text
answered = refl

distinct : IsDistinct (first ∷ second ∷ [])
unfolding IsDistinct same_text
distinct = ((refl, tt), (tt, tt))

migrate_again_example :
    migrate total record_sql
      (first ∷ second ∷ [])
      true
      (migrate total record_sql (first ∷ second ∷ []) true db).1
    ≡ (done answer, (migrate total record_sql (first ∷ second ∷ []) true db).1)
migrate_again_example =
    migrate_again total record_sql (first ∷ second ∷ []) db answer distinct answered

abbrev twice : MigrationDb (List Text)
twice = (migrate total record_sql (second ∷ third ∷ []) true db).1

-- Two files under one recoverable version are both run again by every migration.
run_again :
    (migrate total record_sql (second ∷ third ∷ []) true twice).1.schema
    ≡ (300 ∷ []) ∷ (200 ∷ []) ∷ (300 ∷ []) ∷ (200 ∷ []) ∷ []
unfolding migrate daja_platform.Base.◌>>=◌ same_text
run_again = refl

-- Windows line ends are accepted.
windows : checksum_matches total record_sql (100 ∷ 13 ∷ 10 ∷ []) 110 ≡ true
unfolding checksum_matches
windows = refl

abbrev ends : ℕ → ℕ
ends t = t + 5

abbrev wakes : ℕ → ℕ → ℕ
wakes t d = t + d

abbrev never : ℕ → Bool
never t = false

abbrev soon : ℕ → Bool
soon t = leb 2500 t

ends_later : (t : ℕ) → t ≤ ends t
ends_later t = omega arith

wakes_later : (t d : ℕ) → t + d ≤ wakes t d
wakes_later t d = omega arith

waiting_ends_example :
    (r : Migrated × MigrationDb (List Text)) × (migrate_when_available total record_sql
        (first ∷ [])
        never
        ends
        wakes
        61
        60000
        0
        db
      ≡ some r)
waiting_ends_example =
    waiting_ends total record_sql (first ∷ []) never ends wakes 60 60000 0 db ends_later wakes_later
      (omega arith)

waiting_migrates_example :
    migrate_when_available total record_sql (first ∷ []) soon ends wakes 61 60000 0 db
    ≡ some (migrate total record_sql (first ∷ []) true db)
waiting_migrates_example =
    waiting_migrates total record_sql (first ∷ []) soon ends wakes 60 60000 0 2500 db ends_later
      wakes_later (λ t h. ground (arith, h)) (λ t h. omega (arith, h)) (omega arith)
