-- ===== src/RateLimit/Windows.antt =====
-- How many requests the counters let through in a time that is no longer than their window.
use daja_platform.Base.{
  ℕ, ◌+◌, ◌-◌, ◌*◌, ◌≤◌, ◌<◌, Bool, true, false, Option, none, some, List, [], ◌∷◌, leb,
  if◌then◌else◌, All, Result, ok, err, arith,
}
use daja_platform.RateLimit.{
  Counter, live_counter, hits_of, increment_counter, window, window_live, LoginBudget,
  consume_login_attempt,
}

abbrev one_if : Bool → ℕ
one_if true = 1
one_if false = 0

-- The requests that `window` allows, one after another at the given times.
unfoldable pub allowed_at : ℕ → ℕ → List ℕ → Option Counter → ℕ
allowed_at limit ttl [] c = 0
allowed_at limit ttl (t ∷ ts) c =
    let (a, next) = window limit ttl t c in one_if a.allowed + allowed_at limit ttl ts next

abbrev pub IsWithin : ℕ → ℕ → ℕ → Type 0
IsWithin from ttl t = (from ≤ t) × (t < from + ttl)

-- What a counter may still let through before `from + ttl`: once it has expired, a whole window.
potential : ℕ → ℕ → ℕ → Option Counter → ℕ
potential limit ttl from none = limit
potential limit ttl from (some c) =
    if leb (from + ttl) c.expires_at then limit - c.hits else limit - c.hits + limit

potential-le : (limit ttl from : ℕ) (c : Option Counter) → potential limit ttl from c ≤ 2 * limit
unfolding potential
potential-le limit ttl from none = omega arith
potential-le limit ttl from (some c) = ground arith

window_step :
    (limit ttl from t : ℕ) (c : Option Counter)
    → IsWithin from ttl t
    → one_if (window limit ttl t c).0.allowed + potential limit ttl from (window limit ttl t c).1
      ≤ potential limit ttl from c
unfolding window window_live live_counter hits_of increment_counter potential
window_step limit ttl from t none (a, b) = ground arith
window_step limit ttl from t (some c) (a, b) = ground arith

allowed_at-potential :
    (limit ttl from : ℕ) (ts : List ℕ) (c : Option Counter)
    → All (IsWithin from ttl) ts
    → allowed_at limit ttl ts c ≤ potential limit ttl from c
unfolding allowed_at
allowed_at-potential limit ttl from [] c h = omega arith
allowed_at-potential limit ttl from (t ∷ ts) c h = omega (
  arith,
  window_step limit ttl from t c h.0,
  allowed_at-potential limit ttl from ts (window limit ttl t c).1 h.1,
)

-- Of the requests of a time that is no longer than the window, in any order and whatever the counter
-- holds at first, at most twice the limit are allowed: one window's worth on either side of the
-- moment at which a counter expires.
pub allowed_at-le :
    (limit ttl from : ℕ) (ts : List ℕ) (c : Option Counter)
    → All (IsWithin from ttl) ts
    → allowed_at limit ttl ts c ≤ 2 * limit
allowed_at-le limit ttl from ts c h =
    omega (arith, allowed_at-potential limit ttl from ts c h, potential-le limit ttl from c)

abbrev is_ok : Result (Unit {0}) → Bool
is_ok (ok u) = true
is_ok (err e) = false

-- The attempts of an account that pass, one after another at the given times.
unfoldable pub passed_at : List ℕ → LoginBudget → ℕ
passed_at [] b = 0
passed_at (t ∷ ts) b =
    let (r, next) = consume_login_attempt t b in one_if (is_ok r) + passed_at ts next

minute_step :
    (from t : ℕ) (b : LoginBudget)
    → IsWithin from 60000 t
    → one_if (is_ok (consume_login_attempt t b).0)
        + potential 5 60000 from (consume_login_attempt t b).1.minute
      ≤ potential 5 60000 from b.minute
unfolding consume_login_attempt
minute_step from t b h = ground (arith, window_step 5 60000 from t b.minute h)

quarter_step :
    (from t : ℕ) (b : LoginBudget)
    → IsWithin from 900000 t
    → one_if (is_ok (consume_login_attempt t b).0)
        + potential 20 900000 from (consume_login_attempt t b).1.quarter_hour
      ≤ potential 20 900000 from b.quarter_hour
unfolding consume_login_attempt
quarter_step from t b h = ground (arith, window_step 20 900000 from t b.quarter_hour h)

passed_at-minute_potential :
    (from : ℕ) (ts : List ℕ) (b : LoginBudget)
    → All (IsWithin from 60000) ts
    → passed_at ts b ≤ potential 5 60000 from b.minute
unfolding passed_at
passed_at-minute_potential from [] b h = omega arith
passed_at-minute_potential from (t ∷ ts) b h = omega (
  arith,
  minute_step from t b h.0,
  passed_at-minute_potential from ts (consume_login_attempt t b).1 h.1,
)

passed_at-quarter_potential :
    (from : ℕ) (ts : List ℕ) (b : LoginBudget)
    → All (IsWithin from 900000) ts
    → passed_at ts b ≤ potential 20 900000 from b.quarter_hour
unfolding passed_at
passed_at-quarter_potential from [] b h = omega arith
passed_at-quarter_potential from (t ∷ ts) b h = omega (
  arith,
  quarter_step from t b h.0,
  passed_at-quarter_potential from ts (consume_login_attempt t b).1 h.1,
)

-- At most ten attempts pass within a minute.
pub passed_at-minute :
    (from : ℕ) (ts : List ℕ) (b : LoginBudget) → All (IsWithin from 60000) ts → passed_at ts b ≤ 10
passed_at-minute from ts b h =
    omega (arith, passed_at-minute_potential from ts b h, potential-le 5 60000 from b.minute)

-- Of an account's login attempts within a quarter of an hour, in any order and whatever was counted
-- before, at most forty pass.
pub passed_at-quarter_hour :
    (from : ℕ) (ts : List ℕ) (b : LoginBudget) → All (IsWithin from 900000) ts → passed_at ts b ≤ 40
passed_at-quarter_hour from ts b h =
    omega
      (arith, passed_at-quarter_potential from ts b h, potential-le 20 900000 from b.quarter_hour)
