-- ===== src/RateLimit.antt =====
-- apps/api/src/runtime/shared-rate-storage.ts: counters in Redis; and
-- apps/api/src/login-attempts.ts. Its scripts run one at a time;
-- `now` is Redis' clock in milliseconds. A key that has expired reads like one that is not there.
pub mod Windows
mod Tests
use daja_platform.Base.{
  ℕ, suc, ◌+◌, ◌-◌, ◌*◌, ◌/◌, max, Bool, true, false, not, Option, none, some, List, [], ◌∷◌, ◌==◌,
  ltb, leb, if◌then◌else◌, Result, ok, err,
}
use daja_platform.Security.Errors.{AppError, app_error}

-- A counter under a key, and the time at which it expires. Every script sets the time with the
-- first hit.
pub record Counter : Type 0 where
  pub hits : ℕ
  pub expires_at : ℕ

-- GET of the counter, at a time: what is left of it.
unfoldable pub live_counter : ℕ → Option Counter → Option Counter
live_counter now none = none
live_counter now (some c) = if leb c.expires_at now then none else some c

unfoldable pub hits_of : Option Counter → ℕ
hits_of none = 0
hits_of (some c) = c.hits

-- INCR, and PEXPIRE of the first hit.
unfoldable pub increment_counter : ℕ → ℕ → Option Counter → Counter
increment_counter now ttl none = record { hits = 1; expires_at = now + ttl }
increment_counter now ttl (some c) = record c { hits = suc c.hits }

-- PTTL
abbrev pub ttl_of : ℕ → Counter → ℕ
ttl_of now c = c.expires_at - now

-- `Math.max(1, Math.ceil(ms / 1000))`
abbrev pub seconds_of : ℕ → ℕ
seconds_of ms = max 1 ((ms + 999) / 1000)

pub record WindowAnswer : Type 0 where
  pub hits : ℕ
  pub allowed : Bool
  pub retry_after : ℕ
  pub remaining_ms : ℕ

abbrev pub window_answer : ℕ → Bool → Counter → WindowAnswer
window_answer now allowed c = record {
  hits = c.hits;
  allowed = allowed;
  retry_after = seconds_of (ttl_of now c);
  remaining_ms = ttl_of now c;
}

-- PTTL of a key that is not there is below zero; it reads 0 here.
abbrev pub refused_answer : ℕ → Option Counter → WindowAnswer
refused_answer now none = record { hits = 0; allowed = false; retry_after = 1; remaining_ms = 0 }
refused_answer now (some c) = window_answer now false c

-- The script of `window`, on what is left of the counter.
unfoldable pub window_live : ℕ → ℕ → ℕ → Option Counter → WindowAnswer × Option Counter
unfolding hits_of increment_counter
window_live limit ttl now c =
    let next = increment_counter now ttl c in
    if ltb (hits_of c) limit
    then (window_answer now true next, some next)
    else (refused_answer now c, c)

-- `window`, on the counter of its key.
unfoldable pub window : ℕ → ℕ → ℕ → Option Counter → WindowAnswer × Option Counter
unfolding window_live live_counter
window limit ttl now c = window_live limit ttl now (live_counter now c)

pub record ThrottleAnswer : Type 0 where
  pub total_hits : ℕ
  pub time_to_expire : ℕ
  pub is_blocked : Bool
  pub time_to_block_expire : ℕ

-- `increment`, which counts on when the limit is passed.
unfoldable pub increment : ℕ → ℕ → ℕ → Option Counter → ThrottleAnswer × Option Counter
unfolding live_counter increment_counter
increment ttl limit now c =
    let next = increment_counter now ttl (live_counter now c) in
    let seconds = seconds_of (ttl_of now next) in
    (
      record {
        total_hits = next.hits;
        time_to_expire = seconds;
        is_blocked = ltb limit next.hits;
        time_to_block_expire = if ltb limit next.hits then seconds else 0;
      },
      some next,
    )

-- The two counters of an account.
pub record LoginBudget : Type 0 where
  pub minute : Option Counter
  pub quarter_hour : Option Counter

abbrev pub rate_limited : AppError
rate_limited = app_error "RATE_LIMITED" "Too many login attempts. Try again later." 429

unfoldable pub consume_login_attempt : ℕ → LoginBudget → Result (Unit {0}) × LoginBudget
unfolding window
consume_login_attempt now b =
    let (minute, m) = window 5 60000 now b.minute in
    let (longer, q) = window 20 900000 now b.quarter_hour in
    if not minute.allowed
    then (err rate_limited, record b { minute = m })
    else if not longer.allowed
    then (err rate_limited, record { minute = m; quarter_hour = q })
    else (ok tt, record { minute = m; quarter_hour = q })
