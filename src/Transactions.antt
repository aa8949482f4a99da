-- ===== src/Transactions.antt =====
-- packages/database/src/transaction.ts: `TransactionManager.run`. The pool and the connection
-- belong to the driver; what they answer is an argument. What a transaction writes reaches the
-- database when COMMIT succeeds. A COMMIT whose answer is lost after it took effect, and an error
-- event while COMMIT or ROLLBACK runs, are left out.
pub mod Atomicity
mod Tests
use daja_platform.Base.{ℕ, ◌+◌, ◌-◌, Option, none, some, List, [], ◌∷◌, Result, ok, err, Action}
use daja_platform.Security.Errors.{AppError}

-- What the driver answers to one run; `none` is success. `fault` is an `error` event that the
-- connection emits before the operation has ended.
pub record Driver : Type 0 where
  pub connect : Option AppError
  pub begin_fails : Option AppError
  pub fault : Option AppError
  pub commit_fails : Option AppError
  pub rollback_fails : Option AppError

-- The database, the clients given back with the error that each was released with, the number
-- of listeners on clients, the errors logged, and the transactions that are still open on clients
-- that the pool hands out again.
pub record Pool (S : Type 0) : Type 0 where
  pub database : S
  pub released : List (Option AppError)
  pub listeners : ℕ
  pub logged : List AppError
  pub leaked : List S

-- A client that is given back without an error stays in the pool, with a transaction that is still
-- open on it; one that is given back with an error is closed.
abbrev left_open : {S : Type 0} → Option AppError → Option S → List S → List S
left_open none (some s) rest = s ∷ rest
left_open _ _ rest = rest

module _ {S A : Type 0} where
  -- the `finally` block; `transaction` is what the open transaction has written, if one is open
  finish : Option AppError → Result A → Option S → Pool S → Result A × Pool S
  finish connection_error result transaction p = (
    result,
    record p {
      released = connection_error ∷ p.released;
      listeners = p.listeners - 1;
      leaked = left_open connection_error transaction p.leaked;
    },
  )

  -- the `catch` block; ROLLBACK ends the transaction
  recover : Driver → Option S → AppError → Pool S → Result A × Pool S
  unfolding finish
  recover d transaction error p = elim d.fault [
    | some fault ↦ finish (some fault) (err error) transaction p
    | none ↦ elim d.rollback_fails [
      | none ↦ finish none (err error) none p
      | some rollback_error ↦
          finish (some rollback_error) (err error) transaction
            (record p { logged = rollback_error ∷ p.logged })
    ]
  ]

  -- after the operation has returned; COMMIT writes the transaction to the database and ends it
  complete : Driver → S → A → Pool S → Result A × Pool S
  unfolding recover finish
  complete d written a p = elim d.fault [
    | some fault ↦ recover d (some written) fault p
    | none ↦ elim d.commit_fails [
      | some error ↦ recover d (some written) error p
      | none ↦ finish none (ok a) none (record p { database = written })
    ]
  ]

  settle : Driver → S → Result A → Pool S → Result A × Pool S
  unfolding complete recover finish
  settle d written (ok a) p = complete d written a p
  settle d written (err e) p = recover d (some written) e p

  unfoldable pub run : Driver → Action S A → Action (Pool S) A
  unfolding settle complete recover finish
  run d operation p = elim d.connect [
    | some e ↦ (err e, p)
    | none ↦
        let opened : Pool S = record p { listeners = p.listeners + 1 } in
        elim d.begin_fails [
          | some e ↦ recover d none e opened
          | none ↦ let (r, written) = operation p.database in settle d written r opened
        ]
  ]
