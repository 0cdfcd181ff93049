-- ===== src/Db/Maintenance.antt =====
-- db/maintenance.py: capacity admission of the inbox, and the pruning of raw evidence. The normalized
-- view and the results of symbolization are not part of the rows here; the deletion of old rate
-- windows and the audit log are not modelled.
pub mod Pruning
mod Tests
use android_apm_server.Prelude.{
  ℕ, ◌+◌, ◌*◌, String, Bool, true, false, not, ◌&&◌, ◌||◌, Option, none, some, List, [], ◌∷◌,
  is_none, leb, ◌==◌, length, take, select, any, map, if◌then◌else◌,
}
use android_apm_server.Json.{Json, Fields, get}
use android_apm_server.Errors.{ApiError, Result, ok, err, refuse_if, busy}
use android_apm_server.Db.Models.{
  InboxStatus, SymbolStatus, Delivery, Evidence, InboxEvent, SymbolizationJob, Database, is_pending,
  is_processing, is_awaiting_symbols, seconds,
}
use android_apm_server.Db.Table.{update_where}
use android_apm_server.Db.Table.Claims.{update_chosen}

pub record RetentionSettings : Type 0 where
  pub inbox_max_live_events : ℕ
  pub inbox_max_raw_bytes : ℕ
  pub retention_enabled : Bool
  pub delivered_retention_days : ℕ
  pub dead_letter_retention_days : ℕ
  pub retention_batch_size : ℕ

abbrev pub capacity_error : ApiError
capacity_error = busy 503 "inbox_capacity_exceeded" 30

-- LIVE_STATUSES
abbrev pub is_live_status : InboxStatus → Bool
is_live_status status = is_pending status || is_processing status || is_awaiting_symbols status

unfoldable pub raw_bytes : List InboxEvent → ℕ
raw_bytes [] = 0
raw_bytes (row ∷ rows) =
    (if is_none row.evidence.raw_pruned_at then row.evidence.payload_size_bytes else 0)
    + raw_bytes rows

-- The count stops one above the limit. `timely` is false where the checks run into their timeout.
unfoldable pub check_inbox_capacity : RetentionSettings → Bool → List InboxEvent → Result (Unit {0})
check_inbox_capacity settings timely rows =
    let live =
      take (settings.inbox_max_live_events + 1)
        (select (λ row. is_live_status row.delivery.status) rows) in
    refuse_if
      (not (
        timely
        && leb (length live) settings.inbox_max_live_events
        && leb (raw_bytes rows) settings.inbox_max_raw_bytes))
      capacity_error

-- timedelta(days=n)
abbrev pub days : ℕ → ℕ
days n = seconds (n * 86400)

-- UNFINISHED_SYMBOL_STATUSES
abbrev pub is_unfinished : SymbolStatus → Bool
is_unfinished SymbolStatus.pending = true
is_unfinished SymbolStatus.processing = true
is_unfinished SymbolStatus.symbols_missing = true
is_unfinished _ = false

unfoldable pub has_unfinished_job : List SymbolizationJob → InboxEvent → Bool
has_unfinished_job jobs row =
    any (λ job. job.inbox_event_id == row.id && is_unfinished job.status) jobs

abbrev pub time_or : Option ℕ → ℕ → ℕ
time_or none other = other
time_or (some t) other = t

-- coalesce(finalized_at, delivered_at, next_attempt_at)
unfoldable pub terminal_time : Delivery → ℕ
terminal_time d = time_or d.finalized_at (time_or d.delivered_at d.next_attempt_at)

abbrev pub retention_days : RetentionSettings → InboxStatus → Option ℕ
retention_days settings InboxStatus.delivered = some settings.delivered_retention_days
retention_days settings InboxStatus.dead_letter = some settings.dead_letter_retention_days
retention_days settings _ = none

abbrev pub has_expired : Option ℕ → ℕ → ℕ → Bool
has_expired none terminal observed = false
has_expired (some n) terminal observed = leb (terminal + days n) observed

unfoldable pub prunable :
    RetentionSettings → ℕ → (ℕ → Bool) → List SymbolizationJob → InboxEvent → Bool
prunable settings observed locked jobs row =
    is_none row.evidence.raw_pruned_at
    && not (has_unfinished_job jobs row)
    && has_expired (retention_days settings row.delivery.status) (terminal_time row.delivery)
        observed
    && not (locked row.id)

abbrev pub keep_field : String → Option Json → Fields → Fields
keep_field key none rest = rest
keep_field key (some value) rest = Fields.field key value rest

abbrev pub routing : Json → Json
routing (Json.obj fs) =
    Json.obj (keep_field "module" (get "module" fs) (keep_field "name" (get "name" fs) Fields.end))
routing _ = Json.obj Fields.end

unfoldable pub prune : ℕ → InboxEvent → InboxEvent
prune observed row = record row {
  delivery = record row.delivery { last_error_message = none };
  evidence = record row.evidence {
    payload_json = routing row.evidence.payload_json;
    payload_size_bytes = 0;
    raw_pruned_at = some observed;
    native_identity = [];
  };
}

unfoldable pub prune_job : SymbolizationJob → SymbolizationJob
prune_job job = record job { last_error_message = none }

-- The database and the number of pruned rows.
unfoldable pub maintain_once : RetentionSettings → ℕ → (ℕ → Bool) → Database → Database × ℕ
unfolding update_chosen prunable prune
maintain_once settings observed locked db =
    let chosen =
      take settings.retention_batch_size
        (select (prunable settings observed locked db.symbolization_jobs) db.inbox_events) in
    let pruned : Database = record {
      inbox_events = update_chosen (λ row. row.id) chosen (prune observed) db.inbox_events;
      symbolization_jobs =
          update_where (λ job. any (λ row. row.id == job.inbox_event_id) chosen) prune_job
            db.symbolization_jobs;
    } in
    if settings.retention_enabled then (pruned, length chosen) else (db, 0)
