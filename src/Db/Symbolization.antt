-- ===== src/Db/Symbolization.antt =====
-- db/symbolization.py: the operations on symbolization jobs and on the inbox rows that wait for
-- them: claims, attempts and missing artifacts here, the rest in Creation and Completion.
-- A job that the caller holds is a row as it was when the caller read it. `observed` and `now` are
-- readings of the clock, `sha256` is the digest of a text in hexadecimal.
pub mod Identity
pub mod Creation
pub mod Completion
pub mod Release
pub mod Evolution
pub mod Enqueuing
use android_apm_server.Prelude.{
  ℕ, zero, suc, ◌+◌, ◌^◌, min, max, String, Bool, true, false, not, ◌&&◌, ◌||◌, Option, none, some,
  List, [], ◌∷◌, ◌++◌, map, leb, ltb, ◌==◌, after, due, text_is, is_none, contains, any, take,
  select, text_take, str_eq, if◌then◌else◌,
}
use android_apm_server.Domain.{ApmEvent}
use android_apm_server.Db.Models.{
  InboxStatus, SymbolStatus, JobType, InboxEvent, SymbolizationJob, Database, seconds, is_pending,
  is_awaiting_symbols,
}
use android_apm_server.Db.Table.{update_where, count_where}
use android_apm_server.Db.Table.Claims.{update_chosen}
use Identity.{
  ArtifactIdentity, ArtifactType, job_type_eq, job_type, stack_value, has_symbol_identity,
  option_is, artifact_identity_for_job, same_identity, frame_matches, find_row,
}

abbrev pub max_symbol_backoff_seconds : ℕ
max_symbol_backoff_seconds = 300

abbrev pub symbol_artifact_recheck_seconds : ℕ
symbol_artifact_recheck_seconds = 60

abbrev pub max_error_length : ℕ
max_error_length = 2048

unfoldable pub claimable_job : ℕ → SymbolizationJob → Bool
claimable_job observed job = elim job.status [
  | SymbolStatus.pending ↦ leb job.next_attempt_at observed
  | SymbolStatus.processing ↦ due job.lease_expires_at observed
  | SymbolStatus.symbols_missing ↦ leb job.next_attempt_at observed
  | _ ↦ false
]

unfoldable pub lease_job : String → ℕ → SymbolizationJob → SymbolizationJob
lease_job owner expiry job = record job {
  status = SymbolStatus.processing;
  lease_owner = some owner;
  lease_expires_at = some expiry;
}

unfoldable pub claim_symbolization_batch :
    String → ℕ → ℕ → ℕ → (ℕ → Bool) → Database → List SymbolizationJob × Database
unfolding claimable_job lease_job update_chosen
claim_symbolization_batch owner limit lease_seconds observed locked db =
    let test = λ (job : SymbolizationJob). claimable_job observed job && not (locked job.id) in
    let chosen = take limit (select test db.symbolization_jobs) in
    let claim = lease_job owner (observed + seconds lease_seconds) in
    (
      map claim chosen,
      record db {
        symbolization_jobs = update_chosen (λ j. j.id) chosen claim db.symbolization_jobs;
      },
    )

-- The fence of every write to a job.
unfoldable pub owns_job : String → ℕ → ℕ → SymbolizationJob → Bool
owns_job owner job_id observed job =
    job.id == job_id
    && (elim job.status [ SymbolStatus.processing ↦ true | _ ↦ false ])
    && text_is job.lease_owner owner
    && after job.lease_expires_at observed

-- `none` where the update found no row; else the job as the caller has it afterwards.
unfoldable pub start_symbolization_attempt :
    String → SymbolizationJob → ℕ → ℕ → Database → Option SymbolizationJob × Database
unfolding owns_job
start_symbolization_attempt owner job max_attempts observed db =
    let test = λ (row : SymbolizationJob).
      owns_job owner job.id observed row
      && row.attempt_count == job.attempt_count
      && ltb row.attempt_count max_attempts in
    let spend = λ (row : SymbolizationJob). record row { attempt_count = row.attempt_count + 1 } in
    (
      (if any test db.symbolization_jobs
          then some (record job { attempt_count = job.attempt_count + 1 })
          else none),
      record db { symbolization_jobs = update_where test spend db.symbolization_jobs },
    )

unfoldable pub park_job : ℕ → String → SymbolizationJob → SymbolizationJob
park_job observed message job = record job {
  status = SymbolStatus.symbols_missing;
  next_attempt_at = observed + seconds symbol_artifact_recheck_seconds;
  lease_owner = none;
  lease_expires_at = none;
  last_error_code = some "symbols_missing";
  last_error_message = some (text_take max_error_length message);
}

unfoldable pub mark_symbols_missing : String → ℕ → String → ℕ → Database → Bool × Database
unfolding owns_job park_job
mark_symbols_missing owner job_id message observed db =
    let test = owns_job owner job_id observed in
    (
      any test db.symbolization_jobs,
      record db {
        symbolization_jobs = update_where test (park_job observed message) db.symbolization_jobs;
      },
    )

-- The query of `requeue_matching_missing_jobs` and its test on each job that it returns.
unfoldable pub requeue_matches : ArtifactIdentity → JobType → InboxEvent → SymbolizationJob → Bool
unfolding artifact_identity_for_job frame_matches
requeue_matches identity kind row job =
    job_type_eq job.job_type kind
    && str_eq job.tenant_id identity.tenant_id
    && str_eq row.identity.app_id identity.app_id
    && option_is row.identity.version_code identity.version_code
    && option_is row.identity.app_build identity.app_build
    && option_is row.identity.variant identity.variant
    && (elim kind [
      | JobType.java ↦ same_identity (artifact_identity_for_job job row) identity
      | JobType.native ↦ any (frame_matches identity) row.evidence.native_identity
    ])

unfoldable pub requeued : ArtifactIdentity → List InboxEvent → SymbolizationJob → Bool
unfolding requeue_matches find_row
requeued identity rows job =
    let kind : JobType = elim identity.artifact_type [
      | ArtifactType.java_mapping ↦ JobType.java
      | ArtifactType.native_elf ↦ JobType.native
    ] in
    (elim job.status [ SymbolStatus.symbols_missing ↦ true | _ ↦ false ])
    && (elim (find_row job.inbox_event_id rows) [
      | none ↦ false
      | some row ↦ requeue_matches identity kind row job
    ])

unfoldable pub wake : ℕ → SymbolizationJob → SymbolizationJob
wake now job = record job {
  status = SymbolStatus.pending;
  next_attempt_at = now;
  last_error_code = none;
  last_error_message = none;
}

unfoldable pub requeue_matching_missing_jobs : ArtifactIdentity → ℕ → Database → Database × ℕ
unfolding requeued wake
requeue_matching_missing_jobs identity now db =
    let test = requeued identity db.inbox_events in
    (
      record db { symbolization_jobs = update_where test (wake now) db.symbolization_jobs },
      count_where test db.symbolization_jobs,
    )
