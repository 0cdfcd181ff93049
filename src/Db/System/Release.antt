-- ===== src/Db/System/Release.antt =====
-- The inbox rows that await symbols and their jobs, over histories of Db/System.antt.
use android_apm_server.Prelude.{
  ℕ, ◌+◌, ◌≡◌, refl, inl, inr, Bool, true, false, ◌&&◌, String, List, [], ◌∷◌, arith, ◌==◌, All,
  any, Bool-cases,
}
use android_apm_server.Db.Models.{
  JobType, InboxEvent, SymbolizationJob, Database, seconds, is_awaiting_symbols,
}
use android_apm_server.Db.Table.{Pointwise, Ascending, update_where}
use android_apm_server.Db.Table.Rows.{
  Pointwise-update_where, Pointwise-update_where_of, Pointwise-refl, Pointwise-trans,
  Ascending-Pointwise,
}
use android_apm_server.Db.Table.Claims.{update_chosen}
use android_apm_server.Db.Worker.{
  Failure, should_retry, lease, claim_batch, complete, completes, mark_delivered, fail, failed,
  mark_failed,
}
use android_apm_server.Db.Symbolization.{
  lease_job, claim_symbolization_batch, owns_job, start_symbolization_attempt, park_job,
  mark_symbols_missing, requeued, wake, requeue_matching_missing_jobs,
}
use android_apm_server.Db.Symbolization.Completion.{
  Completion, JobFailure, release, release_inbox, supported_completion, finish_job, publish,
  publish_issue, mark_symbolized, job_should_retry, fail_job, mark_symbolization_failed, committed,
}
use android_apm_server.Db.Symbolization.Release.{
  IsReleasable, KeepsOpen, StaysOpen, StartsNoWait, Released, IsReleasable-jobs, IsReleasable-rows,
  IsReleasable-release,
}
use android_apm_server.Db.Symbolization.Enqueuing.{enqueue-IsReleasable}
use android_apm_server.Db.System.{
  WorkerAction, SymbolAction, Action, claims, deliveries, failures, enqueues, job_claims, attempts,
  misses, completions, job_failures, wakes, worker, symbols, work, symbolize, act, IsKnown,
  IsHonest,
}
use android_apm_server.Db.System.Custody.{act-IsSettled, IsSettled}

NoWait-refl : (row : InboxEvent) → StartsNoWait row row
NoWait-refl row = (refl, λ h. h)

NoWait-trans : (a b c : InboxEvent) → StartsNoWait a b → StartsNoWait b c → StartsNoWait a c
NoWait-trans a b c p q = (cc (p.0, q.0), λ h. p.1 (q.1 h))

-- The export workers start no wait.
fail-NoWait :
    (failure : Failure) (tries observed : ℕ) (row : InboxEvent)
    → StartsNoWait row (fail failure tries observed row)
unfolding fail failed
fail-NoWait failure tries observed row =
    elim (Bool-cases (should_retry failure.retryable failure.max_attempts tries)) [
      | inl e ↦ (refl, rw e (λ h. absurd (cc)))
      | inr e ↦ (refl, rw e (λ h. absurd (cc)))
    ]

mark_failed-NoWait :
    (owner : String) (events : List (InboxEvent × ℕ)) (failure : Failure) (rows : List InboxEvent)
    → Pointwise StartsNoWait rows (mark_failed owner events failure rows).0
unfolding mark_failed
mark_failed-NoWait owner [] failure rows = Pointwise-refl StartsNoWait rows NoWait-refl
mark_failed-NoWait owner ((event, observed) ∷ events) failure rows =
    let rows' =
      update_where (completes owner (event.id ∷ []) observed)
        (fail failure event.delivery.attempt_count observed) rows in
    Pointwise-trans StartsNoWait rows rows' (mark_failed owner events failure rows').0 NoWait-trans
      (Pointwise-update_where StartsNoWait (completes owner (event.id ∷ []) observed)
        (fail failure event.delivery.attempt_count observed) rows
        (λ row h. fail-NoWait failure event.delivery.attempt_count observed row) NoWait-refl)
      (mark_failed-NoWait owner events failure rows')

work-NoWait :
    (a : WorkerAction) (rows : List InboxEvent) → Pointwise StartsNoWait rows (work a rows)
unfolding work claim_batch update_chosen mark_delivered lease complete
work-NoWait (claims owner limit lease_seconds observed locked) rows =
    Pointwise-update_where StartsNoWait _ (lease owner (observed + seconds lease_seconds)) rows
      (λ row h. (refl, λ w. absurd (cc))) NoWait-refl
work-NoWait (deliveries owner [] observed) rows = Pointwise-refl StartsNoWait rows NoWait-refl
work-NoWait (deliveries owner (i ∷ ids) observed) rows =
    Pointwise-update_where StartsNoWait _ (complete observed) rows
      (λ row h. (refl, λ w. absurd (cc))) NoWait-refl
work-NoWait (failures owner events failure) rows = mark_failed-NoWait owner events failure rows

-- The symbolizer's own writes keep an open job open, but for the last ones.
Stays-refl : (job : SymbolizationJob) → StaysOpen job job
Stays-refl job = (refl, λ h. h)

owns_job-id :
    (owner : String) (job_id observed : ℕ) (row : SymbolizationJob)
    → owns_job owner job_id observed row ≡ true
    → row.id ≡ job_id
unfolding owns_job
owns_job-id owner job_id observed row h = ground arith

KeepsOpen-update :
    (owner : String) (job : SymbolizationJob) (observed : ℕ)
    (f : SymbolizationJob → SymbolizationJob) (db : Database)
    → IsKnown job db
    → ((row : SymbolizationJob) → (f row).inbox_event_id ≡ row.inbox_event_id)
    → Pointwise
        (KeepsOpen job.inbox_event_id)
        db.symbolization_jobs
        (update_where (owns_job owner job.id observed) f db.symbolization_jobs)
KeepsOpen-update owner job observed f db known same =
    Pointwise-update_where_of (λ row. row.id ≡ job.id → row.inbox_event_id ≡ job.inbox_event_id)
      (KeepsOpen job.inbox_event_id) (owns_job owner job.id observed) f db.symbolization_jobs
      (λ row k e. (same row, inl (k (owns_job-id owner job.id observed row e))))
      (λ row k e. (refl, inr (λ h. h))) known

Released-row :
    (i : ℕ) (row : InboxEvent)
    → (row.id == i && is_awaiting_symbols row.delivery.status) ≡ false
    → Released i row row
Released-row i row h = ((refl, λ w. w), ground arith)

release_inbox-Released :
    (i : ℕ) (rows : List InboxEvent) → Pointwise (Released i) rows (release_inbox i rows)
unfolding release_inbox release
release_inbox-Released i rows =
    Pointwise-update_where_of (λ row. Unit {0}) (Released i)
      (λ row. row.id == i && is_awaiting_symbols row.delivery.status) release rows
      (λ row u e. ((refl, λ w. absurd (cc)), inr refl)) (λ row u e. Released-row i row e)
      (all_rows rows)
  where
    all_rows : (rows : List InboxEvent) → All (λ row. Unit {0}) rows
    all_rows [] = tt
    all_rows (row ∷ rows) = (tt, all_rows rows)

publish-NoWait :
    (kind : JobType) (i : ℕ) (fingerprint : String) (rows : List InboxEvent)
    → Pointwise StartsNoWait rows (publish_issue kind i fingerprint rows)
unfolding publish_issue publish
publish-NoWait JobType.native i fingerprint rows = Pointwise-refl StartsNoWait rows NoWait-refl
publish-NoWait JobType.java i fingerprint rows =
    Pointwise-update_where StartsNoWait _ (publish fingerprint) rows (λ row h. (refl, λ w. w))
      NoWait-refl

jobs-IsReleasable :
    (db : Database) (test : SymbolizationJob → Bool) (f : SymbolizationJob → SymbolizationJob)
    → ((job : SymbolizationJob) → StaysOpen job (f job))
    → IsReleasable db
    → IsReleasable (record db { symbolization_jobs = update_where test f db.symbolization_jobs })
jobs-IsReleasable db test f stays h =
    IsReleasable-jobs db.inbox_events db.symbolization_jobs
      (update_where test f db.symbolization_jobs)
      (Pointwise-update_where StaysOpen test f db.symbolization_jobs (λ job e. stays job)
        Stays-refl)
      h

completion-IsReleasable :
    (owner : String) (job : SymbolizationJob) (c : Completion) (observed : ℕ) (db : Database)
    → IsKnown job db
    → IsReleasable db
    → IsReleasable (committed (mark_symbolized owner job c observed db) db)
unfolding mark_symbolized finish_job
completion-IsReleasable owner job c observed db known h =
    elim (Bool-cases (supported_completion c.status job.job_type)) [
      | inl s ↦ elim (Bool-cases (any (owns_job owner job.id observed) db.symbolization_jobs)) [
        | inl e ↦
            let published =
              publish_issue job.job_type job.inbox_event_id c.fingerprint_sha256 db.inbox_events in
            rw (s, e)
              (IsReleasable-release job.inbox_event_id db.symbolization_jobs
                (update_where (owns_job owner job.id observed) (finish_job c) db.symbolization_jobs)
                published (release_inbox job.inbox_event_id published)
                (KeepsOpen-update owner job observed (finish_job c) db known (λ row. refl))
                (release_inbox-Released job.inbox_event_id published)
                (IsReleasable-rows db.symbolization_jobs db.inbox_events published
                  (publish-NoWait job.job_type job.inbox_event_id c.fingerprint_sha256
                    db.inbox_events)
                  h))
        | inr e ↦ rw (s, e) h
      ]
      | inr s ↦ rw s h
    ]

fail_job-open :
    (f : JobFailure) (tries observed : ℕ) (job : SymbolizationJob)
    → job_should_retry f tries ≡ true
    → StaysOpen job (fail_job f tries observed job)
unfolding fail_job
fail_job-open f tries observed job e = (refl, λ h. rw e)

failure-IsReleasable :
    (owner : String) (job : SymbolizationJob) (f : JobFailure) (observed : ℕ) (db : Database)
    → IsKnown job db
    → IsReleasable db
    → IsReleasable (mark_symbolization_failed owner job f observed db).1
unfolding mark_symbolization_failed
failure-IsReleasable owner job f observed db known h =
    elim (Bool-cases (any (owns_job owner job.id observed) db.symbolization_jobs)) [
      | inl e ↦ elim (Bool-cases (job_should_retry f job.attempt_count)) [
        | inl again ↦
            rw (e, again)
              (jobs-IsReleasable db (owns_job owner job.id observed)
                (fail_job f job.attempt_count observed)
                (λ row. fail_job-open f job.attempt_count observed row again) h)
        | inr final ↦
            rw (e, final)
              (IsReleasable-release job.inbox_event_id db.symbolization_jobs
                (update_where (owns_job owner job.id observed)
                  (fail_job f job.attempt_count observed) db.symbolization_jobs)
                db.inbox_events (release_inbox job.inbox_event_id db.inbox_events)
                (KeepsOpen-update owner job observed (fail_job f job.attempt_count observed) db
                  known (unfold fail_job in λ row. refl))
                (release_inbox-Released job.inbox_event_id db.inbox_events) h)
      ]
      | inr e ↦ rw e h
    ]

symbolize-IsReleasable :
    (a : SymbolAction) (db : Database)
    → Ascending (λ row. row.id) db.inbox_events
    → IsHonest (symbols a) db
    → IsReleasable db
    → IsReleasable (symbolize a db)
unfolding symbolize
symbolize-IsReleasable (enqueues q) db ids known h = enqueue-IsReleasable q db ids h
symbolize-IsReleasable (job_claims owner limit lease_seconds observed locked) db ids known h =
    unfold claim_symbolization_batch update_chosen lease_job in
    jobs-IsReleasable db _ (lease_job owner (observed + seconds lease_seconds))
      (λ job. (refl, λ o. refl)) h
symbolize-IsReleasable (attempts owner job max_attempts observed) db ids known h =
    unfold start_symbolization_attempt in jobs-IsReleasable db _ _ (λ job. (refl, λ o. o)) h
symbolize-IsReleasable (misses owner job_id message observed) db ids known h =
    unfold mark_symbols_missing park_job in
    jobs-IsReleasable db (owns_job owner job_id observed) (park_job observed message)
      (λ job. (refl, λ o. refl)) h
symbolize-IsReleasable (completions owner job c observed) db ids known h =
    completion-IsReleasable owner job c observed db known h
symbolize-IsReleasable (job_failures owner job f observed) db ids known h =
    failure-IsReleasable owner job f observed db known h
symbolize-IsReleasable (wakes identity now) db ids known h =
    unfold requeue_matching_missing_jobs wake in
    jobs-IsReleasable db (requeued identity db.inbox_events) (wake now) (λ job. (refl, λ o. refl)) h

-- What every transaction keeps.
pub record IsSound (db : Database) : Type 0 where
  pub ids_ascend : Ascending (λ row. row.id) db.inbox_events
  pub releasable : IsReleasable db

pub act-IsSound : (a : Action) (db : Database) → IsHonest a db → IsSound db → IsSound (act a db)
unfolding act
act-IsSound (worker a) db known s = record {
  ids_ascend =
      Ascending-Pointwise (λ row. row.id) IsSettled db.inbox_events _ (λ x y k. k.0)
        (act-IsSettled (worker a) db s.ids_ascend) s.ids_ascend;
  releasable =
      IsReleasable-rows db.symbolization_jobs db.inbox_events (work a db.inbox_events)
        (work-NoWait a db.inbox_events) s.releasable;
}
act-IsSound (symbols a) db known s = record {
  ids_ascend =
      Ascending-Pointwise (λ row. row.id) IsSettled db.inbox_events _ (λ x y k. k.0)
        (act-IsSettled (symbols a) db s.ids_ascend) s.ids_ascend;
  releasable = symbolize-IsReleasable a db s.ids_ascend known s.releasable;
}
