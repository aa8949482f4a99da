-- ===== src/Transactions/Tests.antt =====
-- Runs of an operation that returns and of one that raises, with a driver that works and one that
-- cannot commit.
use daja_platform.Base.{ℕ, ◌+◌, ◌≡◌, refl, none, some, [], ◌∷◌, ok, err, Action, modify}
use daja_platform.Security.Errors.{other_error}
use daja_platform.Transactions.{Driver, Pool, run}
use daja_platform.Transactions.Atomicity.{release_reason, run_raises, run_releases}

abbrev healthy : Driver
healthy = record {
  connect = none;
  begin_fails = none;
  fault = none;
  commit_fails = none;
  rollback_fails = none;
}

abbrev unable : Driver
unable = record healthy { commit_fails = some (other_error "disk full") }

abbrev pool : Pool ℕ
pool = record { database = 3; released = []; listeners = 0; logged = []; leaked = [] }

abbrev increment : Action ℕ (Unit {0})
increment = modify (λ n. n + 1)

returned : (run healthy increment pool).0 ≡ ok tt
unfolding run
returned = refl

raised : (run unable increment pool).0 ≡ err (other_error "disk full")
unfolding run
raised = refl

run_raises_example :
    ((run unable increment pool).1.database ≡ 3) × ((run unable increment pool).1.leaked ≡ [])
run_raises_example = run_raises unable increment pool (other_error "disk full") raised

run_releases_example :
    ((run unable increment pool).1.released
      ≡ release_reason unable (run unable increment pool).0 ∷ [])
    × ((run unable increment pool).1.listeners ≡ 0)
run_releases_example = run_releases unable increment pool refl
