-- ===== src/RateLimit/Tests.antt =====
-- Bursts around the moment at which a window ends.
use daja_platform.Base.{ℕ, ◌*◌, ◌≤◌, ◌≡◌, refl, Option, none, some, List, [], ◌∷◌, All, arith}
use daja_platform.RateLimit.{Counter, window, LoginBudget, consume_login_attempt}
use daja_platform.RateLimit.Windows.{
  IsWithin, allowed_at, allowed_at-le, passed_at, passed_at-quarter_hour,
}

-- One hit of two is left when the window ends at 100; then a new window begins.
abbrev late : Option Counter
late = some record { hits = 1; expires_at = 100 }

abbrev burst : List ℕ
burst = 98 ∷ 99 ∷ 100 ∷ 101 ∷ 102 ∷ []

burst_allowed : allowed_at 2 1000 burst late ≡ 3
unfolding allowed_at window
burst_allowed = refl

within : All (IsWithin 98 1000) burst
within = (
  (omega arith, omega arith),
  (
    (omega arith, omega arith),
    ((omega arith, omega arith), ((omega arith, omega arith), ((omega arith, omega arith), tt))),
  ),
)

allowed_at-le_example : allowed_at 2 1000 burst late ≤ 2 * 2
allowed_at-le_example = allowed_at-le 2 1000 98 burst late within

abbrev unused : LoginBudget
unused = record { minute = none; quarter_hour = none }

-- Six attempts in a second: the last one is refused.
six_attempts : passed_at (1 ∷ 2 ∷ 3 ∷ 4 ∷ 5 ∷ 6 ∷ []) unused ≡ 5
unfolding passed_at consume_login_attempt
six_attempts = refl

within_quarter : All (IsWithin 1 900000) (1 ∷ 60002 ∷ [])
within_quarter = ((omega arith, omega arith), ((omega arith, omega arith), tt))

passed_at-quarter_hour_example : passed_at (1 ∷ 60002 ∷ []) unused ≤ 40
passed_at-quarter_hour_example = passed_at-quarter_hour 1 (1 ∷ 60002 ∷ []) unused within_quarter
