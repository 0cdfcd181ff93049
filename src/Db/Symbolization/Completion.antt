-- ===== src/Db/Symbolization/Completion.antt =====
-- The end of an attempt: `mark_symbolized`, `mark_symbolization_failed` and `_release_inbox` of
-- db/symbolization.py.
use android_apm_server.Prelude.{
  ℕ, ◌+◌, ◌^◌, min, String, Bool, true, false, not, ◌&&◌, Option, none, some, List, ltb, ◌==◌,
  is_none, any, text_take, if◌then◌else◌,
}
use android_apm_server.Db.Models.{
  InboxStatus, SymbolStatus, JobType, InboxEvent, SymbolizationJob, Database, seconds,
  is_awaiting_symbols,
}
use android_apm_server.Db.Table.{update_where}
use android_apm_server.Db.Symbolization.{max_symbol_backoff_seconds, max_error_length, owns_job}

-- _release_inbox
unfoldable pub release : InboxEvent → InboxEvent
release row = record row { delivery = record row.delivery { status = InboxStatus.pending } }

unfoldable pub release_inbox : ℕ → List InboxEvent → List InboxEvent
unfolding release
release_inbox inbox_event_id =
    update_where (λ row. row.id == inbox_event_id && is_awaiting_symbols row.delivery.status)
      release

-- The result of a tool run.
pub record Completion : Type 0 where
  pub artifact_id : ℕ
  pub fingerprint_sha256 : String
  pub status : SymbolStatus

-- `none` is the ValueError of an unsupported status.
unfoldable pub supported_completion : SymbolStatus → JobType → Bool
supported_completion SymbolStatus.symbolized kind = true
supported_completion SymbolStatus.partially_symbolized JobType.native = true
supported_completion _ kind = false

unfoldable pub finish_job : Completion → SymbolizationJob → SymbolizationJob
finish_job c job = record job {
  status = c.status;
  artifact_id = some c.artifact_id;
  fingerprint_sha256 = some c.fingerprint_sha256;
  lease_owner = none;
  lease_expires_at = none;
  last_error_code = none;
  last_error_message = none;
}

-- Publish the canonical issue identity of a Java crash.
unfoldable pub publish : String → InboxEvent → InboxEvent
publish fingerprint row = record row {
  evidence = record row.evidence { incident_fingerprint = some fingerprint };
}

unfoldable pub publish_issue : JobType → ℕ → String → List InboxEvent → List InboxEvent
unfolding publish
publish_issue JobType.native inbox_event_id fingerprint rows = rows
publish_issue JobType.java inbox_event_id fingerprint rows =
    update_where
      (λ row. row.id == inbox_event_id && not (is_none row.evidence.incident_fingerprint))
      (publish fingerprint) rows

unfoldable pub mark_symbolized :
    String → SymbolizationJob → Completion → ℕ → Database → Option (Bool × Database)
unfolding owns_job finish_job publish_issue release_inbox supported_completion
mark_symbolized owner job c observed db =
    let test = owns_job owner job.id observed in
    let done : Database = record {
      inbox_events =
          release_inbox job.inbox_event_id
            (publish_issue job.job_type job.inbox_event_id c.fingerprint_sha256 db.inbox_events);
      symbolization_jobs = update_where test (finish_job c) db.symbolization_jobs;
    } in
    if supported_completion c.status job.job_type
    then some (if any test db.symbolization_jobs then (true, done) else (false, db))
    else none

-- A refused completion raises, and its transaction is rolled back.
abbrev pub committed : Option (Bool × Database) → Database → Database
committed none db = db
committed (some (done, db')) db = db'

pub record JobFailure : Type 0 where
  pub retryable : Bool
  pub max_attempts : ℕ
  pub error_code : String
  pub error_message : String

unfoldable pub job_should_retry : JobFailure → ℕ → Bool
job_should_retry f attempts = f.retryable && ltb attempts f.max_attempts

unfoldable pub fail_job : JobFailure → ℕ → ℕ → SymbolizationJob → SymbolizationJob
unfolding job_should_retry
fail_job f attempts observed job = record job {
  status = if job_should_retry f attempts then SymbolStatus.pending else SymbolStatus.failed;
  next_attempt_at = observed + seconds (min (2 ^ min attempts 8) max_symbol_backoff_seconds);
  lease_owner = none;
  lease_expires_at = none;
  last_error_code = some (text_take 128 f.error_code);
  last_error_message = some (text_take max_error_length f.error_message);
}

unfoldable pub mark_symbolization_failed :
    String → SymbolizationJob → JobFailure → ℕ → Database → Bool × Database
unfolding owns_job fail_job release_inbox
mark_symbolization_failed owner job f observed db =
    let test = owns_job owner job.id observed in
    let jobs = update_where test (fail_job f job.attempt_count observed) db.symbolization_jobs in
    let inbox =
      if job_should_retry f job.attempt_count
      then db.inbox_events
      else release_inbox job.inbox_event_id db.inbox_events in
    if any test db.symbolization_jobs
    then (true, record { inbox_events = inbox; symbolization_jobs = jobs })
    else (false, db)
