-- ===== src/Promotions/Double/Bounds.antt =====
-- Rounding keeps bounds that are doubles themselves, and never loses half of a number.
use Prim.Native.Nat.{◌^◌}
use mathlib.Core.Path.{subst}
use native.Mathlib.Nat.{
  div-mul-le_self, lt-div-mul-add, le-div_iff_mul-le, div-lt_iff_lt-mul, one-le-pow,
  mul-le-mul_left, mul-le-mul_right, mul_assoc, pow-suc, pow-succ', div-div-eq-div-mul,
  pow-le-pow_right, div-le_of_le-mul, div-add-mod',
}
use daja_platform.Base.{
  ℕ, zero, suc, ◌+◌, ◌-◌, ◌*◌, ◌/◌, ◌%◌, ◌≤◌, ◌<◌, ◌≡◌, refl, sym, ap, ◌∙◌, Bool, ◌&&◌, ◌||◌, ◌==◌,
  ltb, arith, inl, inr, Bool-cases,
}
use daja_platform.Promotions.Double.{
  round_to, spare_bits, to_double, math_round, hundredth, percent,
}

is_below : ℕ → ℕ → Bool
is_below q x = ltb (2 * (x % q)) q || (2 * (x % q) == q && x / q % 2 == 0)

round_to-le : (q c x : ℕ) → 0 < q → x ≤ c * q → round_to q x ≤ c * q
unfolding round_to
round_to-le q c x p h = elim (Bool-cases (ltb (x / q) c)) [
  | inl t ↦
      let up : (x / q + 1) * q ≤ c * q = mul-le-mul_right q (ground (arith, t)) in
      let down = div-mul-le_self x q in ground (arith, up, down, h)
  | inr n ↦
      let least : c * q ≤ x / q * q = mul-le-mul_right q (ground (arith, n)) in
      let parts = div-add-mod' x q in
      let none_left : x % q ≡ 0 = omega (arith, least, parts, h) in
      ground (arith, none_left, least, parts, h, p)
]

round_to-half : (q x : ℕ) → 0 < q → q ≤ x → x ≤ 2 * round_to q x
unfolding round_to
round_to-half q x p h =
    let one : 1 ≤ x / q = (le-div_iff_mul-le p).1 (omega (arith, h)) in
    let whole : 1 * q ≤ x / q * q = mul-le-mul_right q one in
    let over = lt-div-mul-add {a = x} p in
    let more : x / q * q ≤ (x / q + 1) * q = mul-le-mul_right q (omega arith) in
    ground (arith, whole, over, more)

round_to-one : (x : ℕ) → round_to 1 x ≡ x
unfolding round_to
round_to-one x = ground arith

spare_bits-le : (fuel x k : ℕ) → spare_bits fuel x ≡ suc k → 2 ^ 53 * 2 ^ k ≤ x
unfolding spare_bits
spare_bits-le zero x k h = cc
spare_bits-le (suc fuel) x k h = elim (Bool-cases (ltb x (2 ^ 53))) [
  | inl t ↦ absurd (ground (arith, t, h))
  | inr n ↦
      longer (2 ^ 53) k (spare_bits fuel (x / 2)) x (spare_bits-le fuel (x / 2))
        (ground (arith, n, h)) (ground (arith, n))
]
  where
    longer :
        (b k rest x : ℕ)
        → ((j : ℕ) → rest ≡ suc j → b * 2 ^ j ≤ x / 2)
        → rest ≡ k
        → b ≤ x
        → b * 2 ^ k ≤ x
    longer b zero rest x step e l = omega (arith, l)
    longer b (suc k) rest x step e l =
        let half = step k e in
        let twice : b * 2 ^ suc k ≡ b * 2 ^ k * 2 =
          rw (pow-suc 2 k) (sym (mul_assoc b (2 ^ k) 2)) in
        omega (arith, half, twice)

-- With enough fuel, at most 53 bits are left.
spare_bits-enough : (fuel x : ℕ) → x < 2 ^ 53 * 2 ^ fuel → x / 2 ^ spare_bits fuel x < 2 ^ 53
unfolding spare_bits
spare_bits-enough zero x h = omega (arith, h)
spare_bits-enough (suc fuel) x h = elim (Bool-cases (ltb x (2 ^ 53))) [
  | inl t ↦ rw t (one_part x (ground (arith, t)))
  | inr n ↦
      let half : x / 2 < 2 ^ 53 * 2 ^ fuel =
        omega (arith, h, pow-suc 2 fuel, mul_assoc (2 ^ 53) (2 ^ fuel) 2) in
      rw n (halved x (spare_bits fuel (x / 2)) (spare_bits-enough fuel (x / 2) half))
]
  where
    one_part : (x : ℕ) → x < 2 ^ 53 → x / 2 ^ 0 < 2 ^ 53
    one_part x l = omega (arith, l)

    halved : (x k : ℕ) → x / 2 / 2 ^ k < 2 ^ 53 → x / 2 ^ suc k < 2 ^ 53
    halved x k l =
        subst (λ y. x / y < 2 ^ 53) (sym (pow-succ' 2 k))
          (subst (λ y. y < 2 ^ 53) (div-div-eq-div-mul x 2 (2 ^ k)) l)

-- So a number of 309 bits at most is rounded to 53 bits.
pub spare_bits_suffice : (x : ℕ) → x < 2 ^ 309 → x / 2 ^ spare_bits 256 x < 2 ^ 53
spare_bits_suffice x h = spare_bits-enough 256 x (omega (arith, h))

pow-add : (d k : ℕ) → 2 ^ (d + k) ≡ 2 ^ d * 2 ^ k
pow-add d zero = let once : 2 ^ d ≡ 2 ^ d * 1 = omega arith in ap (λ y. 2 ^ y) (omega arith) ∙ once
pow-add d (suc k) =
    let next : d + suc k ≡ suc (d + k) = omega arith in
    ap (λ y. 2 ^ y) next
    ∙ pow-suc 2 (d + k)
    ∙ ap (λ y. y * 2) (pow-add d k)
    ∙ mul_assoc (2 ^ d) (2 ^ k) 2
    ∙ ap (λ y. 2 ^ d * y) (sym (pow-suc 2 k))

-- A product of a double and a power of 2 bounds the rounded number if it bounds the number.
pub to_double-le : (c e x : ℕ) → c < 2 ^ 53 → x ≤ c * 2 ^ e → to_double x ≤ c * 2 ^ e
unfolding to_double
to_double-le c e x small h = by_spare (spare_bits 256 x) (spare_bits-le 256 x)
  where
    by_spare : (k : ℕ) → ((j : ℕ) → k ≡ suc j → 2 ^ 53 * 2 ^ j ≤ x) → round_to (2 ^ k) x ≤ c * 2 ^ e
    by_spare zero step = rw (round_to-one x) h
    by_spare (suc k) step = elim (Bool-cases (ltb k e)) [
      | inl t ↦
          let k_le : suc k ≤ e = ground (arith, t) in
          let split : c * 2 ^ e ≡ c * 2 ^ (e - suc k) * 2 ^ suc k =
            ap (λ y. c * 2 ^ y) (omega (arith, k_le))
            ∙ ap (λ y. c * y) (pow-add (e - suc k) (suc k))
            ∙ sym (mul_assoc c (2 ^ (e - suc k)) (2 ^ suc k)) in
          subst (λ y. round_to (2 ^ suc k) x ≤ y) (sym split)
            (round_to-le (2 ^ suc k) (c * 2 ^ (e - suc k)) x (one-le-pow (suc k) 2 (omega arith))
              (subst (λ y. x ≤ y) split h))
      | inr n ↦
          let more : 2 ^ e ≤ 2 ^ k = pow-le-pow_right (omega arith) (ground (arith, n)) in
          let long = step k refl in
          let wide : 2 ^ 53 * 2 ^ e ≤ 2 ^ 53 * 2 ^ k = mul-le-mul_left (2 ^ 53) more in
          let short : suc c * 2 ^ e ≤ 2 ^ 53 * 2 ^ e = mul-le-mul_right (2 ^ e) small in
          let positive = one-le-pow e 2 (omega arith) in
          absurd (omega (arith, long, wide, short, positive, h))
    ]

pub to_double-half : (x : ℕ) → x ≤ 2 * to_double x
unfolding to_double
to_double-half x = by_spare (spare_bits 256 x) (spare_bits-le 256 x)
  where
    by_spare : (k : ℕ) → ((j : ℕ) → k ≡ suc j → 2 ^ 53 * 2 ^ j ≤ x) → x ≤ 2 * round_to (2 ^ k) x
    by_spare zero step = omega (arith, round_to-one x)
    by_spare (suc k) step =
        let twice = pow-suc 2 k in
        let long = step k refl in
        round_to-half (2 ^ suc k) x (one-le-pow (suc k) 2 (omega arith))
          (omega (arith, twice, long))

pub math_round-le : (c x e : ℕ) → x ≤ c * 2 ^ e → math_round x e ≤ c
unfolding math_round
math_round-le c x e h =
    let positive = one-le-pow e 2 (omega arith) in
    let wide : 2 * x + 2 ^ e < suc c * (2 * 2 ^ e) = grind (arith, h, positive) in
    let less : math_round x e < suc c =
      (div-lt_iff_lt-mul {x = 2 * x + 2 ^ e} {y = suc c} (omega (arith, positive))).1 wide in
    omega (arith, less)

pub math_round-positive : (x e : ℕ) → 2 ^ e ≤ 2 * x → 1 ≤ math_round x e
unfolding math_round
math_round-positive x e h =
    let positive = one-le-pow e 2 (omega arith) in
    (le-div_iff_mul-le (omega (arith, positive))).1 (omega (arith, h))

hundredth-le : (value : ℕ) → value ≤ 100 → hundredth value ≤ 1 * 2 ^ 120
unfolding hundredth
hundredth-le value h =
    to_double-le 1 120 _ (omega arith)
      (div-le_of_le-mul 100 {m = value * 2 ^ 120} (omega (arith, h)))

-- A percentage of at most 100 of an amount that is a double is at most the amount.
pub percent-le : (base value : ℕ) → base < 2 ^ 53 → value ≤ 100 → percent base value ≤ base
unfolding percent
percent-le base value small h =
    math_round-le base (to_double (base * hundredth value)) 120
      (to_double-le base 120 _ small (mul-le-mul_left base (omega (arith, hundredth-le value h))))
