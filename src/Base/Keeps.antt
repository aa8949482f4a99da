-- ===== src/Base/Keeps.antt =====
-- What an action establishes whenever it returns, with a rule for each way to build an action.
use mathlib.Core.Path.{◌≡◌, refl}
use mathlib.Core.Bool.{Bool, true, false}
use mathlib.Core.Option.{Option, none, some}
use daja_platform.Security.Errors.{AppError}
use daja_platform.Base.Effect.{
  Result, ok, err, Action, pure, raise, gets, check, raise_if, or_raise, continue, ◌>>=◌, and_then,
}

module _ {S : Type 0} (P : S → Type 0) where
  abbrev pub Returns : {A : Type 0} → Result A × S → Type 0
  Returns (ok a, s) = P s
  Returns (err e, s) = Unit

-- If `P` holds before `m` and `m` returns, then `P` holds after it.
pub record Keeps {S A : Type 0} (P : S → Type 0) (m : Action S A) : Type 0 where
  pub at : (s : S) → P s → Returns P (m s)

module _ {S : Type 0} (P : S → Type 0) where
  pub Returns-of :
      {A : Type 0} (r : Result A) (s : S) → ((a : A) → r ≡ ok a → P s) → Returns P (r, s)
  Returns-of (ok a) s h = h a refl
  Returns-of (err e) s h = tt

  pub returned_value :
      {A : Type 0} (r : Result A) (s : S) (a : A) → Returns P (r, s) → r ≡ ok a → P s
  returned_value (ok a) s b h e = h
  returned_value (err x) s b h e = cc

  Returns-continue :
      {A B : Type 0} (r : Result A) (f : A → Action S B) (s : S)
      → Returns P (r, s)
      → ((a : A) → Keeps P (f a))
      → Returns P (continue r f s)
  Returns-continue (ok a) f s h k = (k a).at s h
  Returns-continue (err e) f s h k = tt

  pub Keeps-bind :
      {A B : Type 0} (m : Action S A) (f : A → Action S B)
      → Keeps P m
      → ((a : A) → Keeps P (f a))
      → Keeps P (m >>= f)
  unfolding ◌>>=◌
  Keeps-bind m f h k = record { at = λ s p. Returns-continue (m s).0 f (m s).1 (h.at s p) k }

  pub Keeps-pure : {A : Type 0} (a : A) → Keeps P (pure a)
  Keeps-pure a = record { at = λ s p. p }

  pub Keeps-raise : {A : Type 0} (e : AppError) → Keeps P (raise {A = A} e)
  Keeps-raise e = record { at = λ s p. tt }

  pub Keeps-gets : {A : Type 0} (f : S → A) → Keeps P (gets f)
  Keeps-gets f = record { at = λ s p. p }

  pub Keeps-check : {A : Type 0} (f : S → Result A) → Keeps P (check f)
  Keeps-check f = record { at = λ s p. Returns-of (f s) s (λ _ _. p) }

  pub Keeps-raise_if : (c : Bool) (e : AppError) → Keeps P (raise_if c e)
  Keeps-raise_if true e = record { at = λ s p. tt }
  Keeps-raise_if false e = record { at = λ s p. p }

  pub Keeps-or_raise : {A : Type 0} (o : Option A) (e : AppError) → Keeps P (or_raise o e)
  Keeps-or_raise none e = record { at = λ s p. tt }
  Keeps-or_raise (some a) e = record { at = λ s p. p }

  pub Keeps-modify : (f : S → S) → ((s : S) → P s → P (f s)) → Keeps P (λ s. (ok tt, f s))
  Keeps-modify f h = record { at = h }

-- Inversion of a chain that returned.
pub bind_returns :
    {S A B : Type 0} (m : Action S A) (f : A → Action S B) (s : S) {b : B}
    → ((m >>= f) s).0 ≡ ok b
    → (a : A) × ((m s).0 ≡ ok a) × ((f a (m s).1).0 ≡ ok b)
unfolding ◌>>=◌
bind_returns {A = A} {B = B} m f s {b = b} h = go (m s).0 refl h
  where
    go :
        (r : Result A)
        → (m s).0 ≡ r
        → (continue r f (m s).1).0 ≡ ok b
        → (a : A) × ((m s).0 ≡ ok a) × ((f a (m s).1).0 ≡ ok b)
    go (ok a) e k = (a, e, k)
    go (err x) e k = cc

pub bind_ok :
    {S A B : Type 0} (m : Action S A) (f : A → Action S B) (s : S) (a : A)
    → (m s).0 ≡ ok a
    → (m >>= f) s ≡ f a (m s).1
unfolding ◌>>=◌
bind_ok m f s a h = rw h

pub and_then_returns :
    {A B : Type 0} (r : Result A) (f : A → Result B) {b : B}
    → and_then r f ≡ ok b
    → (a : A) × (r ≡ ok a) × (f a ≡ ok b)
and_then_returns (ok a) f h = (a, refl, h)
and_then_returns (err e) f h = cc
