-- ===== src/Db/Worker/Retry.antt =====
-- The retry policy of db/worker.py.
use native.Mathlib.Nat.{pow-le-pow_right}
use android_apm_server.Prelude.{
  ℕ, suc, ◌+◌, ◌^◌, ◌≤◌, ◌<◌, min, String, ◌≡◌, refl, true, none, some, List, [], ◌∷◌, length,
  arith, ap, ◌∙◌, ltb, if◌then◌else◌,
}
use android_apm_server.Db.Models.{InboxStatus, Delivery}
use android_apm_server.Db.Worker.{
  leased, delay_seconds, max_backoff_seconds, should_retry, Failure, failed,
}

-- Without a Retry-After (or with one of 0) the delay is 2 ^ min(attempts, 8) seconds, between 1 and
-- 256: the cap of 300 seconds is never reached. A positive Retry-After is the delay.
pub delay_seconds_bounds :
    (attempts : ℕ)
    → (1 ≤ delay_seconds none attempts)
      × (delay_seconds none attempts ≤ 256)
      × (delay_seconds none attempts < max_backoff_seconds)
      × (delay_seconds (some 0) attempts ≡ delay_seconds none attempts)
      × ((n : ℕ) → delay_seconds (some (suc n)) attempts ≡ suc n)
unfolding delay_seconds
delay_seconds_bounds attempts =
    let low : 2 ^ 0 ≤ 2 ^ min attempts 8 =
      pow-le-pow_right (omega arith) {i = 0} {j = min attempts 8} (omega arith) in
    let high : 2 ^ min attempts 8 ≤ 2 ^ 8 =
      pow-le-pow_right (omega arith) {i = min attempts 8} {j = 8} (omega arith) in
    (omega arith, omega arith, omega arith, refl, λ n. refl)

-- One claim and one failure of a row: the claimant's token, the lease's end, the time of the failure.
unfoldable pub round : Failure → String × ℕ × ℕ → Delivery → Delivery
round failure (owner, expiry, observed) d =
    let claimed = leased owner expiry d in failed failure claimed.attempt_count observed claimed

unfoldable pub rounds : Failure → List (String × ℕ × ℕ) → Delivery → Delivery
rounds failure [] d = d
rounds failure (r ∷ rs) d = rounds failure rs (round failure r d)

round-attempts :
    (failure : Failure) (r : String × ℕ × ℕ) (d : Delivery)
    → (round failure r d).attempt_count ≡ d.attempt_count + 1
unfolding round leased failed
round-attempts failure r d = refl

round-status :
    (failure : Failure) (r : String × ℕ × ℕ) (d : Delivery)
    → (round failure r d).status ≡ (
        if should_retry failure.retryable failure.max_attempts (d.attempt_count + 1)
        then InboxStatus.pending
        else InboxStatus.dead_letter)
unfolding round leased failed
round-status failure r d = refl

-- After any positive number of rounds of a retryable failure the row waits again if it has attempts
-- left, and is a dead letter from the round on that uses the last one. Each round is one attempt.
pub rounds-status :
    (failure : Failure) (r : String × ℕ × ℕ) (rs : List (String × ℕ × ℕ)) (d : Delivery)
    → failure.retryable ≡ true
    → ((rounds failure (r ∷ rs) d).attempt_count ≡ d.attempt_count + suc (length rs))
      × ((rounds failure (r ∷ rs) d).status ≡ (
          if ltb (d.attempt_count + suc (length rs)) failure.max_attempts
          then InboxStatus.pending
          else InboxStatus.dead_letter))
unfolding rounds should_retry
rounds-status failure r [] d h =
    (round-attempts failure r d, ground (arith, round-status failure r d))
rounds-status failure r (r' ∷ rs) d h =
    let ih = rounds-status failure r' rs (round failure r d) h in
    let shift : (round failure r d).attempt_count + suc (length rs)
        ≡ d.attempt_count + suc (suc (length rs)) =
      omega (arith, round-attempts failure r d) in
    (
      ih.0 ∙ shift,
      ih.1
          ∙ ap
              (λ n.
                if ltb n failure.max_attempts then InboxStatus.pending else InboxStatus.dead_letter)
              shift,
    )
