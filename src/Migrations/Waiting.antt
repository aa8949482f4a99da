-- ===== src/Migrations/Waiting.antt =====
-- The wait for the lock ends, and it ends with a migration if the lock comes free in time.
use daja_platform.Base.{
  ℕ, suc, zero, ◌+◌, ◌-◌, ◌*◌, ◌≤◌, ◌<◌, min, ◌≡◌, refl, ◌∙◌, Bool, true, false, Option, some, List,
  leb, Result, ok, err, arith, Bool-cases, inl, inr,
}
use daja_platform.Tokens.Split.{Text}
use daja_platform.Migrations.{
  MigrationFile, MigrationDb, Migrated, lock_held, migrate, migrate_when_available, answer_migrate,
  settle_round, as_migrated, migration_status, MigrationStatus, migrate_all,
}

module _ {S : Type 0} (digest : Text → ℕ) (execute : Text → S → Result S)
    (files : List MigrationFile) (free : ℕ → Bool) (ends : ℕ → ℕ) (wakes : ℕ → ℕ → ℕ) where
  -- A round that does not find the lock, before the deadline.
  round_waits :
      (fuel deadline now : ℕ) (db : MigrationDb S)
      → free now ≡ false
      → ends now < deadline
      → migrate_when_available digest execute files free ends wakes (suc fuel) deadline now db
        ≡ migrate_when_available digest execute files free ends wakes fuel deadline
            (wakes (ends now) (min 1000 (deadline - ends now)))
            db
  unfolding migrate_when_available migrate
  round_waits fuel deadline now db taken early = ground (arith, taken, early)

  answered :
      (r : Result (Unit {0})) (db : MigrationDb S) (over : Bool)
      (rest : MigrationDb S → Option (Migrated × MigrationDb S))
      → settle_round digest execute (answer_migrate digest execute files r db) over rest
        ≡ some (answer_migrate digest execute files r db)
  unfolding answer_migrate
  answered (err e) db over rest = refl
  answered (ok u) db over rest = listed (migration_status digest execute db.history files)
    where
      listed :
          (s : Result (List MigrationStatus))
          → settle_round digest execute (as_migrated digest execute s, db) over rest
            ≡ some (as_migrated digest execute s, db)
      listed (ok s) = refl
      listed (err e) = refl

  -- A round that finds the lock ends the wait.
  round_ends :
      (fuel deadline now : ℕ) (db : MigrationDb S)
      → free now ≡ true
      → migrate_when_available digest execute files free ends wakes (suc fuel) deadline now db
        ≡ some (migrate digest execute files true db)
  unfolding migrate_when_available migrate
  round_ends fuel deadline now db f = ground (
    arith,
    f,
    answered (migrate_all digest execute files db).0 (migrate_all digest execute files db).1
        (leb deadline (ends now)),
  )

  round_gives_up :
      (fuel deadline now : ℕ) (db : MigrationDb S)
      → free now ≡ false
      → deadline ≤ ends now
      → migrate_when_available digest execute files free ends wakes (suc fuel) deadline now db
        ≡ some (lock_held, db)
  unfolding migrate_when_available migrate
  round_gives_up fuel deadline now db taken late = ground (arith, taken, late)

  next_round :
      (n deadline now woken : ℕ)
      → ends now < deadline
      → now ≤ ends now
      → ends now + min 1000 (deadline - ends now) ≤ woken
      → deadline ≤ now + 1000 * suc n
      → deadline ≤ woken + 1000 * n
  next_round n deadline now woken early later slept far = omega (arith, early, later, slept, far)

  -- The wait comes to an end: where no round ends before it starts and no sleep wakes early, one
  -- round more than the seconds up to the deadline, rounded up, are enough for an answer, whether
  -- the lock ever comes free or not.
  pub waiting_ends :
      (n deadline now : ℕ) (db : MigrationDb S)
      → ((t : ℕ) → t ≤ ends t)
      → ((t d : ℕ) → t + d ≤ wakes t d)
      → deadline ≤ now + 1000 * n
      → (answer : Migrated × MigrationDb S) × (migrate_when_available digest execute files free ends
            wakes
            (suc n)
            deadline
            now
            db
          ≡ some answer)
  waiting_ends zero deadline now db later slept far = elim (Bool-cases (free now)) [
    | inl f ↦ (_, round_ends zero deadline now db f)
    | inr taken ↦ (_, round_gives_up zero deadline now db taken (omega (arith, far, later now)))
  ]
  waiting_ends (suc n) deadline now db later slept far =
      let woken : ℕ = wakes (ends now) (min 1000 (deadline - ends now)) in
      elim (Bool-cases (free now)) [
        | inl f ↦ (_, round_ends (suc n) deadline now db f)
        | inr taken ↦ elim (Bool-cases (leb deadline (ends now))) [
          | inl late ↦ (_, round_gives_up (suc n) deadline now db taken (ground (arith, late)))
          | inr e ↦
              let early : ends now < deadline = ground (arith, e) in
              let far' = next_round n deadline now woken early (later now) (slept _ _) far in
              let (answer, ended) = waiting_ends n deadline woken db later slept far' in
              (answer, round_waits (suc n) deadline now db taken early ∙ ended)
        ]
      ]

  not_yet : (from now : ℕ) → ((t : ℕ) → from ≤ t → free t ≡ true) → free now ≡ false → now < from
  not_yet from now frees taken = elim (Bool-cases (leb from now)) [
    | inl t ↦ let f = frees now (ground (arith, t)) in absurd (ground (arith, f, taken))
    | inr t ↦ ground (arith, t)
  ]

  -- If the lock is free from some time on, and every round that starts before that time ends before
  -- the deadline, then the wait ends with what `migrate` answers under the lock, never with the
  -- lock's error; no round ends before it starts and no sleep wakes early.
  pub waiting_migrates :
      (n deadline now from : ℕ) (db : MigrationDb S)
      → ((t : ℕ) → t ≤ ends t)
      → ((t d : ℕ) → t + d ≤ wakes t d)
      → ((t : ℕ) → from ≤ t → free t ≡ true)
      → ((t : ℕ) → t < from → ends t < deadline)
      → deadline ≤ now + 1000 * n
      → migrate_when_available digest execute files free ends wakes (suc n) deadline now db
        ≡ some (migrate digest execute files true db)
  waiting_migrates zero deadline now from db later slept frees quick far =
      elim (Bool-cases (leb from now)) [
        | inl t ↦ round_ends zero deadline now db (frees now (ground (arith, t)))
        | inr t ↦ absurd (omega (arith, far, later now, quick now (ground (arith, t))))
      ]
  waiting_migrates (suc n) deadline now from db later slept frees quick far =
      let woken : ℕ = wakes (ends now) (min 1000 (deadline - ends now)) in
      elim (Bool-cases (free now)) [
        | inl f ↦ round_ends (suc n) deadline now db f
        | inr taken ↦
            let early : ends now < deadline = quick now (not_yet from now frees taken) in
            let far' = next_round n deadline now woken early (later now) (slept _ _) far in
            round_waits (suc n) deadline now db taken early
            ∙ waiting_migrates n deadline woken from db later slept frees quick far'
      ]
