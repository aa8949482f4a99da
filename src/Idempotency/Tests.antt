-- ===== src/Idempotency/Tests.antt =====
-- A command that is sent twice, and one under a key that is taken.
use daja_platform.Base.{ℕ, ◌+◌, ◌≡◌, ◌≢◌, refl, false, true, [], ◌∷◌, ok, err, Action, arith}
use daja_platform.Json.{null, text}
use daja_platform.Security.Errors.{idempotency_conflict}
use daja_platform.Idempotency.{Database, Response, Reply, new_entry, run, run_from, handle, settle}
use daja_platform.Idempotency.Replay.{run_conflict, run_replays}

-- A handler that counts how often it is run.
abbrev count : Action ℕ Response
count n = (ok (record { status = 201; payload = text "made" }), n + 1)

abbrev fresh : Database ℕ
fresh = record { entries = []; rest = 0 }

abbrev made : Reply
made = record { replayed = false; status = 201; payload = text "made" }

present : text "made" ≢ null
present = ground arith

first_run : (run 1 5 77 count fresh).0 ≡ ok made
unfolding run run_from handle settle
first_run = refl

run_replays_example : run 1 5 77 count (run 1 5 77 count fresh).1 ≡ (
  ok (record { replayed = true; status = 201; payload = text "made" }),
  (run 1 5 77 count fresh).1,
)
run_replays_example = run_replays 1 5 77 count count made fresh first_run present

abbrev taken : Database ℕ
taken = record { entries = new_entry 1 5 76 ∷ []; rest = 0 }

other_hash : ◌≢◌ {A = ℕ} 76 77
other_hash = omega arith

taken_refused : run 1 5 77 count taken ≡ (err idempotency_conflict, taken)
taken_refused = run_conflict 1 5 77 count taken (new_entry 1 5 76) refl other_hash
