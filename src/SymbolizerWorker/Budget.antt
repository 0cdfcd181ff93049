-- ===== src/SymbolizerWorker/Budget.antt =====
-- The tool runs of symbolizer_worker.py and the attempts of a job.
use android_apm_server.Prelude.{
  ℕ, ◌≤◌, ◌<◌, ◌≡◌, refl, ◌+◌, Bool, true, false, ◌&&◌, none, some, String, List, [], ◌∷◌, arith,
  leb, ◌==◌, any, All,
}
use android_apm_server.Db.Models.{
  SymbolStatus, InboxEvent, SymbolizationJob, Database, is_awaiting_symbols,
}
use android_apm_server.Db.Table.{Pointwise, update_where}
use android_apm_server.Db.Table.Rows.{Pointwise-update_where_of}
use android_apm_server.Db.Symbolization.{owns_job, start_symbolization_attempt}
use android_apm_server.Db.Symbolization.Completion.{
  fail_job, job_should_retry, mark_symbolization_failed, release_inbox, release,
}
use android_apm_server.Db.System.{run}
use android_apm_server.SymbolizerWorker.{
  SymbolizerSettings, SymbolizationFailure, ToolRun, Turn, failure_of, attempts_exhausted,
  record_failure, process_claim,
}

all_units : {A : Type 0} (xs : List A) → All (λ x. Unit {0}) xs
all_units [] = tt
all_units (x ∷ xs) = (tt, all_units xs)

-- A job of the table with this key and this number of attempts.
abbrev pub has_attempts : ℕ → ℕ → SymbolizationJob → Bool
has_attempts id n row = row.id == id && row.attempt_count == n

-- An attempt that was started is counted in the table, within the budget.
pub record IsStarted (owner : String) (job : SymbolizationJob) (max_attempts observed : ℕ)
    (db : Database) (started : SymbolizationJob) : Type 0 where
  pub same_id : started.id ≡ job.id
  pub counted : started.attempt_count ≡ job.attempt_count + 1
  pub stored :
      any
        (has_attempts job.id (job.attempt_count + 1))
        (start_symbolization_attempt owner job max_attempts observed db).1.symbolization_jobs
      ≡ true

module _ (settings : SymbolizerSettings) (turn : Turn) (job : SymbolizationJob)
    (db : Database) where
  -- The database when the artifact has been looked up, and with another tool run.
  abbrev pub resolved_at : Database
  resolved_at = run turn.while_resolving db

  abbrev pub with_tool : ToolRun → Turn
  with_tool tool = record turn { tool = tool }

  -- The turn runs the tool on a counted attempt.
  pub record IsAttempted : Type 0 where
    pub artifact : ℕ
    pub started : SymbolizationJob
    pub unstopped : turn.stopped ≡ none
    pub resolved : turn.resolved ≡ some artifact
    pub affordable : job.attempt_count < settings.symbolizer_max_attempts
    pub begun :
        IsStarted turn.owner job settings.symbolizer_max_attempts turn.started_at resolved_at
          started

  abbrev pub owned : SymbolizationJob → Bool
  owned = owns_job turn.owner job.id turn.finished_at

  -- The failed jobs, and the rows that wait for them no longer.
  abbrev pub IsFailed : SymbolizationJob → SymbolizationJob → Type 0
  IsFailed before now =
      (now.id ≡ before.id) × (owned before ≡ true → now.status ≡ SymbolStatus.failed)

  abbrev pub IsFreed : InboxEvent → InboxEvent → Type 0
  IsFreed before now =
      (now.id ≡ before.id)
      × (before.id ≡ job.inbox_event_id → is_awaiting_symbols now.delivery.status ≡ false)

  fail_job-IsFailed :
      (f : SymbolizationFailure)
      → f.retryable ≡ false
      → Pointwise IsFailed resolved_at.symbolization_jobs (
          update_where owned
            (fail_job (failure_of settings f) job.attempt_count turn.finished_at)
            resolved_at.symbolization_jobs)
  unfolding fail_job job_should_retry
  fail_job-IsFailed f final =
      Pointwise-update_where_of (λ row. Unit {0}) IsFailed owned
        (fail_job (failure_of settings f) job.attempt_count turn.finished_at)
        resolved_at.symbolization_jobs (λ row u e. (refl, λ o. rw final refl))
        (λ row u e. (refl, λ o. absurd (ground (arith, o, e))))
        (all_units resolved_at.symbolization_jobs)

  release_inbox-IsFreed :
      (rows : List InboxEvent) → Pointwise IsFreed rows (release_inbox job.inbox_event_id rows)
  unfolding release_inbox release
  release_inbox-IsFreed rows =
      Pointwise-update_where_of (λ row. Unit {0}) IsFreed
        (λ row. row.id == job.inbox_event_id && is_awaiting_symbols row.delivery.status) release
        rows (λ row u e. (refl, λ same. refl)) (λ row u e. (refl, λ same. ground (arith, same, e)))
        (all_units rows)

  -- Where nothing stops the turn, an artifact is resolved, the job's attempts are spent, and the
  -- symbolizer still owns the job when it records that, the turn is a committed failure: each job that
  -- it owns under this key has the status failed, whatever the tool would give, and the inbox row of the
  -- job does not wait for symbols.
  pub process_claim-exhausted :
      (artifact : ℕ)
      → turn.stopped ≡ none
      → turn.resolved ≡ some artifact
      → settings.symbolizer_max_attempts ≤ job.attempt_count
      → any owned resolved_at.symbolization_jobs ≡ true
      → ((process_claim settings turn job db).0 ≡ some "failed")
        × Pointwise IsFailed resolved_at.symbolization_jobs
            (process_claim settings turn job db).1.symbolization_jobs
        × Pointwise IsFreed resolved_at.inbox_events
            (process_claim settings turn job db).1.inbox_events
  unfolding process_claim record_failure mark_symbolization_failed job_should_retry
  process_claim-exhausted artifact u v spent owns =
      let over : leb settings.symbolizer_max_attempts job.attempt_count ≡ true = ground arith in
      rw (u, v, over, owns)
        (
          refl,
          fail_job-IsFailed attempts_exhausted refl,
          release_inbox-IsFreed resolved_at.inbox_events,
        )
