-- ===== src/AuthBudget.antt =====
-- auth_budget.py: the token bucket before every credential check. The clock is a number of
-- microseconds and the tokens a number of millionths, in which the rate of whole tokens per second is
-- exact; the rounding of Python's floats is not modelled.
pub mod Bucket
mod Tests
pub mod Verifier
use android_apm_server.Prelude.{
  ℕ, ◌+◌, ◌-◌, ◌*◌, min, String, Bool, true, false, ltb, if◌then◌else◌,
}
use android_apm_server.Errors.{ApiError, Result, ok, err, busy}

-- One token, in the unit of `tokens`.
abbrev pub token : ℕ
token = 1000000

pub record AuthAttemptBudget : Type 0 where
  pub rate : ℕ
  pub burst : ℕ
  pub tokens : ℕ
  pub updated : ℕ

-- AUTH_ATTEMPTS_PER_SECOND and AUTH_ATTEMPT_BURST
abbrev pub attempts_per_second : ℕ
attempts_per_second = 20

abbrev pub attempt_burst : ℕ
attempt_burst = 40

abbrev pub busy_error : ApiError
busy_error = busy 429 "authentication_busy" 1

-- __init__
unfoldable pub new : ℕ → ℕ → ℕ → AuthAttemptBudget
new rate burst now = record { rate = rate; burst = burst; tokens = burst * token; updated = now }

-- A clock that went back adds nothing: `now - updated` is 0 then.
unfoldable pub refilled : AuthAttemptBudget → ℕ → ℕ
refilled b now = min (b.burst * token) (b.tokens + (now - b.updated) * b.rate)

-- The refill is kept also where the attempt is refused.
unfoldable pub consume : AuthAttemptBudget → ℕ → Result (Unit {0}) × AuthAttemptBudget
unfolding refilled
consume b now =
    let tokens = refilled b now in
    if ltb tokens token
    then (err busy_error, record b { tokens = tokens; updated = now })
    else (ok tt, record b { tokens = tokens - token; updated = now })
