-- ===== src/Base/Rows.antt =====
-- What holds of every row of a table, under queries and updates.
use mathlib.Core.Path.{◌≡◌, refl, subst}
use mathlib.Core.Bool.{Bool, true, false, not}
use mathlib.Core.Option.{some}
use mathlib.Core.List.{List, [], ◌∷◌}
use mathlib.Core.Logic.{inl, inr}
use native.Mathlib.Omega.{arith}
use daja_platform.Base.Tests.{if◌then◌else◌, Bool-cases}
use daja_platform.Base.Lists.{All, any, find_row, update_rows}

pub find_row-All :
    {A : Type 0} (P : A → Type 0) (f : A → Bool) (rows : List A) (a : A)
    → All P rows
    → find_row f rows ≡ some a
    → P a
find_row-All P f [] a h e = cc
find_row-All P f (x ∷ rows) a h e = elim (Bool-cases (f x)) [
  | inl t ↦ subst P (ground (arith, t, e)) h.0
  | inr n ↦ find_row-All P f rows a h.1 (ground (arith, n, e))
]

pub All-zip :
    {A : Type 0} {P Q : A → Type 0} (R : A → Type 0) (f : (a : A) → P a → Q a → R a) (rows : List A)
    → All P rows
    → All Q rows
    → All R rows
All-zip R f [] h k = tt
All-zip R f (x ∷ rows) h k = (f x h.0 k.0, All-zip R f rows h.1 k.1)

-- An update of the rows with `c`, where of each row also `Q` is known.
pub update_rows-All :
    {A : Type 0} {P Q : A → Type 0} (R : A → Type 0) (c : A → Bool) (f : A → A)
    → ((a : A) → P a → Q a → R (if c a then f a else a))
    → (rows : List A) → All P rows
    → All Q rows
    → All R (update_rows c f rows)
update_rows-All R c f step [] h k = tt
update_rows-All R c f step (x ∷ rows) h k =
    (step x h.0 k.0, update_rows-All R c f step rows h.1 k.1)

-- What no element lacks, all have.
pub All-any :
    {A : Type 0} (f : A → Bool) (xs : List A)
    → any (λ x. not (f x)) xs ≡ false
    → All (λ x. f x ≡ true) xs
All-any f [] h = tt
All-any f (x ∷ xs) h = (ground (arith, h), All-any f xs (ground (arith, h)))

-- What is found passes the test.
pub find_row-passes :
    {A : Type 0} (f : A → Bool) (rows : List A) (a : A) → find_row f rows ≡ some a → f a ≡ true
find_row-passes f [] a e = cc
find_row-passes f (x ∷ rows) a e = elim (Bool-cases (f x)) [
  | inl t ↦ subst (λ y. f y ≡ true) (ground (arith, t, e)) t
  | inr n ↦ find_row-passes f rows a (ground (arith, n, e))
]

unnoticed :
    {A : Type 0} (f c : A → Bool) (g : A → A)
    → ((a : A) → f (g a) ≡ f a)
    → (a : A) → f (if c a then g a else a) ≡ f a
unnoticed f c g same a = elim (Bool-cases (c a)) [ inl t ↦ rw t (same a) | inr n ↦ rw n refl ]

-- An update that the test does not notice.
pub find_row-update_rows :
    {A : Type 0} (f c : A → Bool) (g : A → A)
    → ((a : A) → f (g a) ≡ f a)
    → (rows : List A) (a : A) → find_row f rows ≡ some a
    → find_row f (update_rows c g rows) ≡ some (if c a then g a else a)
find_row-update_rows f c g same [] a e = cc
find_row-update_rows f c g same (x ∷ rows) a e = elim (Bool-cases (f x)) [
  | inl t ↦
      let here : x ≡ a = ground (arith, t, e) in
      subst (λ b. find_row f (update_rows c g (x ∷ rows)) ≡ some (if c b then g b else b)) here
        (rw (unnoticed f c g same x, t) refl)
  | inr n ↦
      rw (unnoticed f c g same x, n) (find_row-update_rows f c g same rows a (ground (arith, n, e)))
]

-- What no row has, the row that is found has not.
pub find_row-lacks :
    {A : Type 0} (p f : A → Bool) (rows : List A) (a : A)
    → any p rows ≡ false
    → find_row f rows ≡ some a
    → p a ≡ false
find_row-lacks p f [] a n e = cc
find_row-lacks p f (x ∷ rows) a n e = elim (Bool-cases (f x)) [
  | inl t ↦
      let first : p x ≡ false = ground (arith, n) in
      subst (λ y. p y ≡ false) (ground (arith, t, e)) first
  | inr m ↦ find_row-lacks p f rows a (ground (arith, n)) (ground (arith, m, e))
]

pub any-update_rows :
    {A : Type 0} (p c : A → Bool) (g : A → A)
    → ((a : A) → p (g a) ≡ p a)
    → (rows : List A) → any p (update_rows c g rows) ≡ any p rows
any-update_rows p c g same [] = refl
any-update_rows p c g same (x ∷ rows) =
    ground (arith, unnoticed p c g same x, any-update_rows p c g same rows)

-- An update of no row.
pub update_rows-none :
    {A : Type 0} (c : A → Bool) (g : A → A) (rows : List A)
    → any c rows ≡ false
    → update_rows c g rows ≡ rows
update_rows-none c g [] n = refl
update_rows-none c g (x ∷ rows) n = ground (arith, n, update_rows-none c g rows)

-- What a test implies holds of some row if the test finds one.
pub found-any :
    {A : Type 0} (f g : A → Bool)
    → ((a : A) → f a ≡ true → g a ≡ true)
    → (rows : List A) (a : A) → find_row f rows ≡ some a
    → any g rows ≡ true
found-any f g imp [] a e = cc
found-any f g imp (x ∷ rows) a e = elim (Bool-cases (f x)) [
  | inl t ↦ ground (arith, imp x t)
  | inr n ↦ ground (arith, found-any f g imp rows a (ground (arith, n, e)))
]

pub any-any :
    {A : Type 0} (f g : A → Bool)
    → ((a : A) → f a ≡ true → g a ≡ true)
    → (rows : List A) → any f rows ≡ true
    → any g rows ≡ true
any-any f g imp [] e = cc
any-any f g imp (x ∷ rows) e = elim (Bool-cases (f x)) [
  | inl t ↦ ground (arith, imp x t)
  | inr n ↦ ground (arith, any-any f g imp rows (ground (arith, n, e)))
]
