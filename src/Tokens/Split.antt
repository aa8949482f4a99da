-- ===== src/Tokens/Split.antt =====
-- Texts, and `token.split('.')`.
use daja_platform.Base.{
  ℕ, ◌≡◌, refl, Bool, true, false, not, List, [], ◌∷◌, ◌++◌, ◌&&◌, ◌==◌, if◌then◌else◌, all, arith,
  Bool-cases, inl, inr,
}

abbrev pub Text : Type 0
Text = List ℕ

abbrev pub dot : ℕ
dot = 46

unfoldable pub same_text : Text → Text → Bool
same_text [] [] = true
same_text (a ∷ x) (b ∷ y) = a == b && same_text x y
same_text _ _ = false

unfoldable pub push : ℕ → List Text → List Text
push c [] = (c ∷ []) ∷ []
push c (w ∷ ws) = (c ∷ w) ∷ ws

unfoldable pub split_dots : Text → List Text
unfolding push
split_dots [] = [] ∷ []
split_dots (c ∷ cs) = let parts = split_dots cs in if c == dot then [] ∷ parts else push c parts

-- No character of the text is a dot.
abbrev pub has_no_dot : Text → Bool
has_no_dot = all (λ c. not (c == dot))

-- The texts with a dot between any two.
unfoldable pub joined : List Text → Text
joined [] = []
joined (w ∷ []) = w
joined (w ∷ v ∷ ws) = w ++ dot ∷ joined (v ∷ ws)

pub same_text-eq : (x y : Text) → same_text x y ≡ true → x ≡ y
unfolding same_text
same_text-eq [] [] h = refl
same_text-eq [] (b ∷ y) h = cc
same_text-eq (a ∷ x) [] h = cc
same_text-eq (a ∷ x) (b ∷ y) h = ground (arith, h, same_text-eq x y)

pub same_text_refl : (x : Text) → same_text x x ≡ true
unfolding same_text
same_text_refl [] = refl
same_text_refl (a ∷ x) = ground (arith, same_text_refl x)

pub split_dots_word : (w : Text) → has_no_dot w ≡ true → split_dots w ≡ w ∷ []
unfolding split_dots push
split_dots_word [] h = refl
split_dots_word (c ∷ w) h = ground (arith, h, split_dots_word w)

pub split_dots-append :
    (w rest : Text) → has_no_dot w ≡ true → split_dots (w ++ dot ∷ rest) ≡ w ∷ split_dots rest
unfolding split_dots push
split_dots-append [] rest h = ground arith
split_dots-append (c ∷ w) rest h = ground (arith, h, split_dots-append w rest)

joined-push : (c : ℕ) (ws : List Text) → joined (push c ws) ≡ c ∷ joined ws
unfolding joined push
joined-push c [] = refl
joined-push c (w ∷ []) = refl
joined-push c (w ∷ v ∷ ws) = refl

joined-cons : (ws : Text) → joined ([] ∷ split_dots ws) ≡ dot ∷ joined (split_dots ws)
unfolding joined split_dots push
joined-cons [] = refl
joined-cons (c ∷ cs) = elim (Bool-cases (c == dot)) [
  | inl t ↦ rw t refl
  | inr n ↦ rw n (by_parts (split_dots cs))
]
  where
    by_parts : (ps : List Text) → joined ([] ∷ push c ps) ≡ dot ∷ joined (push c ps)
    by_parts [] = refl
    by_parts (p ∷ ps) = refl

-- Joining the parts gives the text back.
pub joined-split : (x : Text) → joined (split_dots x) ≡ x
unfolding split_dots
joined-split [] = unfold joined in refl
joined-split (c ∷ cs) = elim (Bool-cases (c == dot)) [
  | inl t ↦ ground (arith, t, joined-cons cs, joined-split cs)
  | inr n ↦ ground (arith, n, joined-push c (split_dots cs), joined-split cs)
]
