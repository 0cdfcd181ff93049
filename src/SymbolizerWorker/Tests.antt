-- ===== src/SymbolizerWorker/Tests.antt =====
-- A cycle over one job, with a batch size of two: the second turn finds nothing to claim.
use android_apm_server.Prelude.{◌≡◌, refl, arith, true, false, none, some, List, [], ◌∷◌}
use android_apm_server.Db.Models.{SymbolStatus, JobType, SymbolizationJob, Database}
use android_apm_server.Db.Symbolization.{
  claim_symbolization_batch, start_symbolization_attempt, owns_job,
}
use android_apm_server.Db.Symbolization.Creation.{enqueue_symbolization_jobs}
use android_apm_server.Db.Symbolization.Completion.{mark_symbolized}
use android_apm_server.Db.Table.{Pointwise, update_where}
use android_apm_server.Db.System.{run}
use android_apm_server.Db.Tests.{two_rows, ingest}
use android_apm_server.SymbolizerWorker.{
  SymbolizerSettings, ToolRun, Turn, succeeded, raised, symbolize_once, process_claim,
}
use android_apm_server.SymbolizerWorker.Budget.{IsFailed, IsFreed, process_claim-exhausted}

abbrev test_settings : SymbolizerSettings
test_settings = record {
  symbolization_enabled = true;
  symbolizer_batch_size = 2;
  symbolizer_lease_seconds = 30;
  symbolizer_max_attempts = 3;
}

abbrev test_turn : Turn
test_turn = record {
  owner = "s:1";
  before_claim = [];
  claimed_at = 10;
  locked = λ id. false;
  stopped = none;
  resolved = some 7;
  while_resolving = [];
  started_at = 11;
  tool =
      succeeded
        (record { artifact_id = 7; fingerprint_sha256 = "ff"; status = SymbolStatus.symbolized });
  while_running = [];
  finished_at = 12;
}

abbrev waiting : Database
waiting = (enqueue_symbolization_jobs ingest two_rows).0

one_changed : (symbolize_once test_settings (test_turn ∷ test_turn ∷ []) waiting).0 ≡ 1
unfolding symbolize_once enqueue_symbolization_jobs claim_symbolization_batch
    start_symbolization_attempt mark_symbolized run update_where process_claim
one_changed = refl

-- The claimed job, a tool that raises, and a budget that is spent.
abbrev claim : List SymbolizationJob × Database
claim = claim_symbolization_batch "s:1" 1 30 10 (λ id. false) waiting

abbrev first_job : List SymbolizationJob → SymbolizationJob
first_job [] = record {
  id = 0;
  inbox_event_id = 0;
  tenant_id = "";
  event_id = "";
  job_type = JobType.java;
  status = SymbolStatus.pending;
  artifact_id = none;
  input_sha256 = "";
  fingerprint_sha256 = none;
  attempt_count = 0;
  next_attempt_at = 0;
  lease_owner = none;
  lease_expires_at = none;
  last_error_code = none;
  last_error_message = none;
}
first_job (job ∷ jobs) = job

abbrev crashed : ToolRun
crashed = raised (record { code = "tool_failed"; message = "exit 1"; retryable = true })

abbrev no_attempts : SymbolizerSettings
no_attempts = record test_settings { symbolizer_max_attempts = 0 }

process_claim-exhausted_example :
    ((process_claim no_attempts test_turn (first_job claim.0) claim.1).0 ≡ some "failed")
    × Pointwise
        (IsFailed no_attempts test_turn (first_job claim.0) claim.1)
        claim.1.symbolization_jobs
        (process_claim no_attempts test_turn (first_job claim.0) claim.1).1.symbolization_jobs
    × Pointwise
        (IsFreed no_attempts test_turn (first_job claim.0) claim.1)
        claim.1.inbox_events
        (process_claim no_attempts test_turn (first_job claim.0) claim.1).1.inbox_events
unfolding run enqueue_symbolization_jobs claim_symbolization_batch update_where owns_job
process_claim-exhausted_example =
    process_claim-exhausted no_attempts test_turn (first_job claim.0) claim.1 7 refl refl
      (omega arith) refl
