-- ===== src/SymbolizerWorker.antt =====
-- symbolizer_worker.py: one cycle of the symbolizer. Between its transactions come actions of Db/System.antt. What
-- the registry resolves and what the tool run of symbolization.py gives are part of a turn.
pub mod Cycle
pub mod Budget
mod Tests
use android_apm_server.Prelude.{
  ℕ, ◌+◌, String, Bool, true, false, ◌&&◌, Option, none, some, List, [], ◌∷◌, take, leb, ltb,
  is_none, if◌then◌else◌,
}
use android_apm_server.Db.Models.{SymbolStatus, SymbolizationJob, Database}
use android_apm_server.Db.Symbolization.{
  claim_symbolization_batch, start_symbolization_attempt, mark_symbols_missing,
}
use android_apm_server.Db.Symbolization.Completion.{
  Completion, JobFailure, mark_symbolized, mark_symbolization_failed,
}
use android_apm_server.Db.System.{Action, run}

pub record SymbolizerSettings : Type 0 where
  pub symbolization_enabled : Bool
  pub symbolizer_batch_size : ℕ
  pub symbolizer_lease_seconds : ℕ
  pub symbolizer_max_attempts : ℕ

-- SymbolizationFailure
pub record SymbolizationFailure : Type 0 where
  pub code : String
  pub message : String
  pub retryable : Bool

pub data ToolRun : Type 0 where
  succeeded : Completion → ToolRun
  raised : SymbolizationFailure → ToolRun

-- One turn of the loop: its claim token, the clock at each write, the locked rows, the artifact that is
-- resolved, what stops the turn before the attempt (its deadline or an exception), the tool run, and
-- the other processes.
pub record Turn : Type 0 where
  pub owner : String
  pub before_claim : List Action
  pub claimed_at : ℕ
  pub locked : ℕ → Bool
  pub stopped : Option SymbolizationFailure
  pub resolved : Option ℕ
  pub while_resolving : List Action
  pub started_at : ℕ
  pub tool : ToolRun
  pub while_running : List Action
  pub finished_at : ℕ

abbrev pub budget_exhausted : SymbolizationFailure
budget_exhausted = record {
  code = "symbolizer_lease_budget_exhausted";
  message = "The symbolization job exceeded its lease execution budget";
  retryable = true;
}

abbrev pub attempts_exhausted : SymbolizationFailure
attempts_exhausted = record {
  code = "symbolizer_attempts_exhausted";
  message = "The symbolization tool retry budget is exhausted";
  retryable = false;
}

abbrev pub internal_failure : SymbolizationFailure
internal_failure = record {
  code = "symbolizer_internal_error";
  message = "The symbolization job failed internally";
  retryable = true;
}

abbrev pub failure_of : SymbolizerSettings → SymbolizationFailure → JobFailure
failure_of settings error = record {
  retryable = error.retryable;
  max_attempts = settings.symbolizer_max_attempts;
  error_code = error.code;
  error_message = error.message;
}

abbrev pub label_if : Bool → String → Option String
label_if changed label = if changed then some label else none

-- _record_failure: the label, where a transition was committed, and the database.
unfoldable pub record_failure :
    SymbolizerSettings
    → Turn
    → SymbolizationJob
    → SymbolizationFailure
    → Database
    → Option String × Database
record_failure settings turn job error db =
    let (changed, db') =
      mark_symbolization_failed turn.owner job (failure_of settings error) turn.finished_at db in
    (
      label_if changed (
          if error.retryable && ltb job.attempt_count settings.symbolizer_max_attempts
          then "retry"
          else "failed"),
      db',
    )

-- The texts of the statuses.
abbrev pub status_text : SymbolStatus → String
status_text SymbolStatus.pending = "pending"
status_text SymbolStatus.processing = "processing"
status_text SymbolStatus.symbolized = "symbolized"
status_text SymbolStatus.partially_symbolized = "partially_symbolized"
status_text SymbolStatus.symbols_missing = "symbols_missing"
status_text SymbolStatus.metadata_missing = "metadata_missing"
status_text SymbolStatus.disabled = "disabled"
status_text SymbolStatus.failed = "failed"

-- The completion; an unsupported status raises, and is recorded as an internal failure.
abbrev pub completed :
    SymbolizerSettings
    → Turn
    → SymbolizationJob
    → Completion
    → Database
    → Option (Bool × Database)
    → Option String × Database
completed settings turn job c db none = record_failure settings turn job internal_failure db
completed settings turn job c db (some (changed, db')) =
    (label_if changed (status_text c.status), db')

unfoldable pub complete_run :
    SymbolizerSettings → Turn → SymbolizationJob → Completion → Database → Option String × Database
unfolding record_failure
complete_run settings turn job c db =
    completed settings turn job c db (mark_symbolized turn.owner job c turn.finished_at db)

abbrev pub finish_run :
    SymbolizerSettings → Turn → SymbolizationJob → ToolRun → Database → Option String × Database
finish_run settings turn job (succeeded c) db = complete_run settings turn job c db
finish_run settings turn job (raised error) db = record_failure settings turn job error db

-- The attempt, where the update found the row: the tool, and its outcome.
abbrev pub attempted :
    SymbolizerSettings → Turn → Option SymbolizationJob → Database → Option String × Database
attempted settings turn none db = (none, db)
attempted settings turn (some job) db =
    finish_run settings turn job turn.tool (run turn.while_running db)

abbrev pub with_artifact :
    SymbolizerSettings → Turn → SymbolizationJob → Option ℕ → Database → Option String × Database
with_artifact settings turn job none db =
    let (changed, db') =
      mark_symbols_missing turn.owner job.id "No exact symbol artifact is registered"
        turn.started_at db in
    (label_if changed "symbols_missing", db')
with_artifact settings turn job (some artifact) db =
    let failed = record_failure settings turn job attempts_exhausted db in
    let (started, db') =
      start_symbolization_attempt turn.owner job settings.symbolizer_max_attempts turn.started_at
        db in
    if leb settings.symbolizer_max_attempts job.attempt_count
    then failed
    else attempted settings turn started db'

-- _process_claim with the handlers round it.
abbrev pub process_stopped :
    SymbolizerSettings
    → Turn
    → SymbolizationJob
    → Option SymbolizationFailure
    → Database
    → Option String × Database
process_stopped settings turn job (some error) db = record_failure settings turn job error db
process_stopped settings turn job none db = with_artifact settings turn job turn.resolved db

unfoldable pub process_claim :
    SymbolizerSettings → Turn → SymbolizationJob → Database → Option String × Database
unfolding complete_run
process_claim settings turn job db =
    process_stopped settings turn job turn.stopped (run turn.while_resolving db)

-- One turn behind its claim, and the turns behind it; the loop ends where nothing is claimed.
abbrev pub after_claim :
    SymbolizerSettings
    → Turn
    → (Database → ℕ × Database)
    → Database
    → List SymbolizationJob
    → ℕ × Database
after_claim settings turn more claimed [] = (0, claimed)
after_claim settings turn more claimed (job ∷ rest) =
    let (label, processed) = process_claim settings turn job claimed in
    let (changed, last) = more processed in (if is_none label then changed else changed + 1, last)

-- The loop: the number of committed transitions, and the database.
unfoldable pub symbolize_turns : SymbolizerSettings → List Turn → Database → ℕ × Database
unfolding process_claim
symbolize_turns settings [] db = (0, db)
symbolize_turns settings (turn ∷ turns) db =
    let (jobs, claimed) =
      claim_symbolization_batch turn.owner 1 settings.symbolizer_lease_seconds turn.claimed_at
        turn.locked (run turn.before_claim db) in
    after_claim settings turn (symbolize_turns settings turns) claimed jobs

unfoldable pub symbolize_once : SymbolizerSettings → List Turn → Database → ℕ × Database
unfolding symbolize_turns
symbolize_once settings turns db =
    if settings.symbolization_enabled
    then symbolize_turns settings (take settings.symbolizer_batch_size turns) db
    else (0, db)
