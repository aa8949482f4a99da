-- ===== src/Base/Effect.antt =====
-- A method of the program over a store: it raises or returns, and the store comes back in both
-- cases, since what was written before a raise stays written until a transaction is rolled back.
use mathlib.Core.Bool.{Bool}
use mathlib.Core.Option.{Option, none, some}
use daja_platform.Security.Errors.{AppError}
use daja_platform.Base.Tests.{if◌then◌else◌}

pub data Result (A : Type 0) : Type 0 where
  ok : A → Result A
  err : AppError → Result A

abbrev pub Action : Type 0 → Type 0 → Type 0
Action S A = S → Result A × S

module _ {S A : Type 0} where
  abbrev pub pure : A → Action S A
  pure a s = (ok a, s)

  abbrev pub raise : AppError → Action S A
  raise e s = (err e, s)

  -- a query that changes nothing
  abbrev pub gets : (S → A) → Action S A
  gets f s = (ok (f s), s)

  -- a check that changes nothing and may raise
  abbrev pub check : (S → Result A) → Action S A
  check f s = (f s, s)

abbrev pub modify : {S : Type 0} → (S → S) → Action S (Unit {0})
modify f s = (ok tt, f s)

abbrev pub guard : Bool → AppError → Result (Unit {0})
guard c e = if c then ok tt else err e

abbrev pub raise_if : {S : Type 0} → Bool → AppError → Action S (Unit {0})
raise_if c e s = ((if c then err e else ok tt), s)

abbrev pub or_raise : {S A : Type 0} → Option A → AppError → Action S A
or_raise none e s = (err e, s)
or_raise (some a) e s = (ok a, s)

abbrev pub continue : {S A B : Type 0} → Result A → (A → Action S B) → Action S B
continue (ok a) f s = f a s
continue (err e) f s = (err e, s)

infixl 5 ◌>>=◌ ◌>>◌
-- Shut, so that the rules on actions apply to it by its name.
unfoldable pub ◌>>=◌ : {S A B : Type 0} → Action S A → (A → Action S B) → Action S B
◌>>=◌ m f s = let (r, s') = m s in continue r f s'

abbrev pub ◌>>◌ : {S A B : Type 0} → Action S A → Action S B → Action S B
m >> k = m >>= λ _. k

-- A chain of checks that write nothing.
abbrev pub and_then : {A B : Type 0} → Result A → (A → Result B) → Result B
and_then (ok a) f = f a
and_then (err e) f = err e
