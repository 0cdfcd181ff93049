-- ===== src/AuthBudget/Bucket.antt =====
-- `AuthAttemptBudget` of auth_budget.py over a series of attempts.
use native.Mathlib.Nat.{add-mul}
use android_apm_server.Prelude.{
  ℕ, ◌+◌, ◌-◌, ◌*◌, ◌≤◌, ◌≡◌, refl, ap, List, [], ◌∷◌, arith, ltb, Bool-cases, inl, inr,
}
use android_apm_server.Errors.{Result, ok, err}
use android_apm_server.AuthBudget.{AuthAttemptBudget, token, new, refilled, consume}

abbrev pub accepted : Result (Unit {0}) → ℕ
accepted (ok a) = 1
accepted (err e) = 0

-- Attempts at these readings of the clock.
unfoldable pub attempts : AuthAttemptBudget → List ℕ → ℕ × AuthAttemptBudget
attempts b [] = (0, b)
attempts b (now ∷ times) =
    let (result, b') = consume b now in
    let (n, b'') = attempts b' times in (accepted result + n, b'')

-- Readings of a monotonic clock, none before `from`.
abbrev pub IsMonotonic : ℕ → List ℕ → Type 0
IsMonotonic from [] = Unit
IsMonotonic from (now ∷ times) = (from ≤ now) × IsMonotonic now times

abbrev pub last_reading : ℕ → List ℕ → ℕ
last_reading from [] = from
last_reading from (now ∷ times) = last_reading now times

consume-step :
    (b : AuthAttemptBudget) (now : ℕ)
    → ((consume b now).1.rate ≡ b.rate)
      × ((consume b now).1.burst ≡ b.burst)
      × ((consume b now).1.updated ≡ now)
      × (accepted (consume b now).0 * token + (consume b now).1.tokens
          ≤ b.tokens + (now - b.updated) * b.rate)
      × ((consume b now).1.tokens ≤ b.burst * token)
unfolding consume refilled
consume-step b now = elim (Bool-cases (ltb (refilled b now) token)) [
  | inl e ↦ rw e (refl, refl, refl, omega arith, omega arith)
  | inr e ↦ rw e (refl, refl, refl, ground arith, omega arith)
]

elapsed_split : (rate a b c : ℕ) → a ≤ b → b ≤ c → (c - a) * rate ≡ (b - a) * rate + (c - b) * rate
elapsed_split rate a b c h k =
    let whole : c - a ≡ (b - a) + (c - b) = omega arith in rw whole (add-mul (b - a) (c - b) rate)

last_reading-le :
    (from : ℕ) (times : List ℕ) → IsMonotonic from times → from ≤ last_reading from times
last_reading-le from [] m = omega arith
last_reading-le from (now ∷ times) m = omega (arith, last_reading-le now times m.1)

attempts-bound :
    (b : AuthAttemptBudget) (from : ℕ) (times : List ℕ)
    → b.updated ≡ from
    → IsMonotonic from times
    → (attempts b times).0 * token + (attempts b times).1.tokens
      ≤ b.tokens + (last_reading from times - from) * b.rate
unfolding attempts
attempts-bound b from [] e m = omega arith
attempts-bound b from (now ∷ times) e m =
    let b' = (consume b now).1 in
    let (same_rate, same_burst, read, spent, capped) = consume-step b now in
    let earned : (last_reading now times - now) * b'.rate
        ≡ (last_reading now times - now) * b.rate =
      ap (λ (t : ℕ). (last_reading now times - now) * t) same_rate in
    let spent' : accepted (consume b now).0 * token + b'.tokens ≤ b.tokens + (now - from) * b.rate =
      rw (← e) spent in
    omega (
      arith,
      attempts-bound b' now times read m.1,
      earned,
      spent',
      elapsed_split b.rate from now (last_reading now times) m.0 (last_reading-le now times m.1),
    )

-- Of any attempts after a start at `from`, at monotonic readings of the clock, at most the burst and
-- `rate` per second that have passed are let through.
pub attempts_limited :
    (rate burst from : ℕ) (times : List ℕ)
    → IsMonotonic from times
    → (attempts (new rate burst from) times).0 * token
      ≤ burst * token + (last_reading from times - from) * rate
unfolding new
attempts_limited rate burst from times m =
    omega (arith, attempts-bound (new rate burst from) from times refl m)

-- The bucket never holds more than the burst, and a pause in which one token is earned lets the next
-- attempt through, whoever used up the tokens before.
pub consume_after_pause :
    (b : AuthAttemptBudget) (now : ℕ)
    → 1 ≤ b.burst
    → token ≤ (now - b.updated) * b.rate
    → ((consume b now).0 ≡ ok tt) × ((consume b now).1.tokens ≤ b.burst * token)
unfolding consume refilled
consume_after_pause b now some_burst earned = ground arith
