-- ===== src/AuthBudget/Verifier.antt =====
-- `BoundedHashVerifier` of auth_budget.py: a semaphore around a pool of threads. A slot is taken
-- before a hash is submitted and given back by the callback of its future, so also for a request that
-- was cancelled meanwhile. Each hash in flight has a number.
use android_apm_server.Prelude.{
  ℕ, ◌+◌, ◌-◌, ◌≤◌, ◌≡◌, refl, Bool, true, Option, none, some, List, [], ◌∷◌, arith, length,
  contains, ltb, if◌then◌else◌, ◌==◌,
}
use android_apm_server.Errors.{Result, ok, err}
use android_apm_server.AuthBudget.{busy_error}

pub record BoundedHashVerifier : Type 0 where
  pub slots : ℕ
  pub running : List ℕ

unfoldable pub start_pool : ℕ → BoundedHashVerifier
start_pool workers = record { slots = workers; running = [] }

-- `verify` up to its await; `submits` says whether the executor takes the work or raises, and then the
-- slot is released and the exception goes on (`none`).
unfoldable pub verify :
    BoundedHashVerifier → ℕ → Bool → Option (Result (Unit {0})) × BoundedHashVerifier
verify v task submits =
    if ltb 0 v.slots
    then (if submits
        then (some (ok tt), record { slots = v.slots - 1; running = task ∷ v.running })
        else (none, v))
    else (some (err busy_error), v)

abbrev pub without : ℕ → List ℕ → List ℕ
without t [] = []
without t (u ∷ us) = let rest = u ∷ without t us in if u == t then us else rest

-- The done callback of a task's future.
unfoldable pub finished : BoundedHashVerifier → ℕ → BoundedHashVerifier
finished v task =
    if contains v.running task
    then record { slots = v.slots + 1; running = without task v.running }
    else v

pub data Event : Type 0 where
  submitted : ℕ → Bool → Event
  done : ℕ → Event

unfoldable pub step : BoundedHashVerifier → Event → BoundedHashVerifier
unfolding verify finished
step v (submitted task submits) = (verify v task submits).1
step v (done task) = finished v task

unfoldable pub steps : BoundedHashVerifier → List Event → BoundedHashVerifier
unfolding step
steps v [] = v
steps v (e ∷ es) = steps (step v e) es

length-without :
    (t : ℕ) (us : List ℕ) → contains us t ≡ true → length (without t us) + 1 ≡ length us
length-without t [] h = absurd (cc)
length-without t (u ∷ us) h = ground (arith, length-without t us)

step-slots :
    (v : BoundedHashVerifier) (e : Event)
    → (step v e).slots + length (step v e).running ≡ v.slots + length v.running
unfolding step verify finished
step-slots v (submitted task submits) = ground arith
step-slots v (done task) = ground (arith, length-without task v.running)

steps_total :
    (v : BoundedHashVerifier) (es : List Event)
    → (steps v es).slots + length (steps v es).running ≡ v.slots + length v.running
unfolding steps
steps_total v [] = refl
steps_total v (e ∷ es) = omega (arith, steps_total (step v e) es, step-slots v e)

-- In every history no slot is lost or made up: the free slots and the running hashes add up to the
-- number of workers, so at most that many hashes run at once, and a request is refused exactly when
-- that many run.
pub steps-slots :
    (workers : ℕ) (es : List Event) (task : ℕ)
    → let v = steps (start_pool workers) es in
      (v.slots + length v.running ≡ workers)
      × (length v.running ≤ workers)
      × (((verify v task true).0 ≡ some (err busy_error)) → length v.running ≡ workers)
      × (length v.running ≡ workers → (verify v task true).0 ≡ some (err busy_error))
unfolding verify start_pool
steps-slots workers es task =
    let total : (steps (record { slots = workers; running = [] }) es).slots
          + length (steps (record { slots = workers; running = [] }) es).running
        ≡ workers =
      omega (arith, steps_total (record { slots = workers; running = [] }) es) in
    (omega arith, omega arith, ground arith, ground arith)
