-- ===== src/Transactions/Atomicity.antt =====
-- A run keeps all that its operation wrote, or nothing, and always gives its client back.
use daja_platform.Base.{◌≡◌, Option, none, ◌∷◌, Result, ok, err, Action, arith}
use mathlib.Core.Path.{refl, sym, ap, subst, ◌∙◌}
use daja_platform.Base.Keeps.{Keeps, returned_value}
use daja_platform.Context.{or_else}
use daja_platform.Security.Errors.{AppError}
use daja_platform.Transactions.{Driver, Pool, run}

-- The error that the pool is given with the client: it drops the connection if there is one.
abbrev pub release_reason : {A : Type 0} → Driver → Result A → Option AppError
release_reason d (ok a) = none
release_reason d (err e) = or_else d.fault d.rollback_fails

module _ {S A : Type 0} (d : Driver) (op : Action S A) (p : Pool S) where
  -- A run that returns has the value and the database of its operation, which returned too.
  pub run_returns :
      (a : A) → (run d op p).0 ≡ ok a → op p.database ≡ (ok a, (run d op p).1.database)
  unfolding run
  run_returns a h = ground arith

  -- A run that raises, for whatever reason, leaves the database as it was, and leaves no transaction
  -- open on a client that the pool hands out again.
  pub run_raises :
      (e : AppError)
      → (run d op p).0 ≡ err e
      → ((run d op p).1.database ≡ p.database) × ((run d op p).1.leaked ≡ p.leaked)
  unfolding run
  run_raises e h = ground arith

  -- Without a failure of the driver a run ends as its operation does.
  pub run_healthy :
      d.connect ≡ none
      → d.begin_fails ≡ none
      → d.fault ≡ none
      → d.commit_fails ≡ none
      → (run d op p).0 ≡ (op p.database).0
  unfolding run
  run_healthy c b f m = ground arith

  -- Once connected, a run gives its client back exactly once, with the connection's error if
  -- there is one, and takes its listener off again, also when it raises.
  pub run_releases :
      d.connect ≡ none
      → ((run d op p).1.released ≡ release_reason d (run d op p).0 ∷ p.released)
        × ((run d op p).1.listeners ≡ p.listeners)
  unfolding run
  run_releases h = ground arith

-- What an operation keeps whenever it returns, its run keeps whatever happens.
pub run_keeps :
    {S A : Type 0} (P : S → Type 0) (d : Driver) (op : Action S A) (p : Pool S)
    → Keeps P op
    → P p.database
    → P (run d op p).1.database
run_keeps {A = A} P d op p k h = outcome (run d op p).0 refl
  where
    outcome : (r : Result A) → (run d op p).0 ≡ r → P (run d op p).1.database
    outcome (ok a) e =
        let returned = run_returns d op p a e in
        subst P (ap (λ o. o.1) returned) (
          returned_value P (op p.database).0 (op p.database).1 a (k.at p.database h)
            (ap (λ o. o.0) returned))
    outcome (err x) e = subst P (sym (run_raises d op p x e).0) h

-- What an operation raises, its run raises.
pub run_refused :
    {S A : Type 0} (d : Driver) (op : Action S A) (p : Pool S) (e : AppError)
    → d.connect ≡ none
    → d.begin_fails ≡ none
    → (op p.database).0 ≡ err e
    → (run d op p).0 ≡ err e
unfolding run
run_refused d op p e c b h = ground arith

-- The transaction of a driver that does not fail has the database of its operation.
pub run_committed :
    {S A : Type 0} (d : Driver) (op : Action S A) (p : Pool S) (a : A) (db : S)
    → d.connect ≡ none
    → d.begin_fails ≡ none
    → d.fault ≡ none
    → d.commit_fails ≡ none
    → op p.database ≡ (ok a, db)
    → ((run d op p).0 ≡ ok a) × ((run d op p).1.database ≡ db)
run_committed d op p a db c b f m e =
    let r = run_healthy d op p c b f m ∙ ap (λ o. o.0) e in
    (r, sym (ap (λ o. o.1) (run_returns d op p a r)) ∙ ap (λ o. o.1) e)
