-- ===== src/AuthBudget/Tests.antt =====
-- Attempts and hashes on small budgets, and the theorems at these inputs.
use android_apm_server.Prelude.{
  ℕ, ◌+◌, ◌-◌, ◌*◌, ◌≤◌, ◌≡◌, refl, arith, true, some, List, [], ◌∷◌, length,
}
use android_apm_server.Errors.{ok, err}
use android_apm_server.AuthBudget.{
  AuthAttemptBudget, token, attempts_per_second, attempt_burst, busy_error, new, consume,
}
use android_apm_server.AuthBudget.Bucket.{
  attempts, last_reading, attempts_limited, consume_after_pause,
}
use android_apm_server.AuthBudget.Verifier.{
  start_pool, verify, Event, submitted, done, steps, steps-slots,
}

-- Two attempts at once, and one a tenth of a second later.
abbrev readings : List ℕ
readings = 5 ∷ 5 ∷ 100005 ∷ []

one_refused : (attempts (new 5 1 5) readings).0 ≡ 1
unfolding attempts new consume
one_refused = refl

attempts_limited_example :
    (attempts (new 5 1 5) readings).0 * token ≤ 1 * token + (last_reading 5 readings - 5) * 5
attempts_limited_example =
    attempts_limited 5 1 5 readings (omega arith, (omega arith, (omega arith, tt)))

abbrev used_up : AuthAttemptBudget
used_up = record {
  rate = attempts_per_second;
  burst = attempt_burst;
  tokens = 0;
  updated = 1000000;
}

consume_after_pause_example :
    ((consume used_up 1050000).0 ≡ ok tt)
    × ((consume used_up 1050000).1.tokens ≤ attempt_burst * token)
consume_after_pause_example = consume_after_pause used_up 1050000 (omega arith) (omega arith)

-- Two hashes run, a third is refused, and the first ends.
abbrev history : List Event
history = submitted 1 true ∷ submitted 2 true ∷ submitted 3 true ∷ done 1 ∷ []

steps-slots_example :
    ((steps (start_pool 2) history).slots + length (steps (start_pool 2) history).running ≡ 2)
    × (length (steps (start_pool 2) history).running ≤ 2)
    × ((verify (steps (start_pool 2) history) 4 true).0 ≡ some (err busy_error)
        → length (steps (start_pool 2) history).running ≡ 2)
    × (length (steps (start_pool 2) history).running ≡ 2
        → (verify (steps (start_pool 2) history) 4 true).0 ≡ some (err busy_error))
steps-slots_example = steps-slots 2 history 4

one_runs : (steps (start_pool 2) history).running ≡ 2 ∷ []
unfolding steps start_pool
one_runs = refl
