-- ===== src/ExportWorker.antt =====
-- worker.py: one cycle of the export worker. Between its transactions come actions of Db/System.antt:
-- `while_encoding` before its second transaction, `while_sending` before its last. The mapping of rows
-- to OTLP and the HTTP client come as `build` and `send`, which are `none` where they raise.
pub mod Isolation
pub mod Cycle
mod Tests
use android_apm_server.Prelude.{
  ℕ, ◌+◌, String, Bool, true, false, Option, none, some, List, [], ◌∷◌, map, is_none, if◌then◌else◌,
}
use android_apm_server.Db.Models.{InboxEvent, Database}
use android_apm_server.Db.Worker.{Failure, claim_batch, mark_delivered, mark_failed}
use android_apm_server.Db.System.{Action, run}
use android_apm_server.Otlp.Client.{ExportResult}

pub record Settings : Type 0 where
  pub export_enabled : Bool
  pub worker_batch_size : ℕ
  pub worker_lease_seconds : ℕ
  pub worker_max_attempts : ℕ

-- What the cycle meets: its claim token, the clock at each write, the rows that other claims lock, and
-- the other processes.
pub record World : Type 0 where
  pub owner : String
  pub claimed_at : ℕ
  pub locked : ℕ → Bool
  pub while_encoding : List Action
  pub rejected_at : InboxEvent → ℕ
  pub while_sending : List Action
  pub delivered_at : ℕ
  pub failed_at : InboxEvent → ℕ

abbrev pub text_or : Option String → String → String
text_or none other = other
text_or (some s) other = s

abbrev pub mapping_failure : Settings → Failure
mapping_failure settings = record {
  retryable = false;
  max_attempts = settings.worker_max_attempts;
  error_code = "otlp_mapping_failed";
  error_message = "The persisted event cannot be mapped to OTLP";
  retry_after_seconds = none;
}

-- Empty texts do not occur in results, so `or` asks for None only.
abbrev pub export_failure : Settings → ExportResult → Failure
export_failure settings result = record {
  retryable = result.retryable;
  max_attempts = settings.worker_max_attempts;
  error_code = text_or result.error_code "unknown_export_error";
  error_message = text_or result.error_message "OTLP export failed";
  retry_after_seconds = result.retry_after_seconds;
}

-- What `except Exception` makes of an unexpected failure of the client.
abbrev pub internal_failure : ExportResult
internal_failure = record {
  success = false;
  retryable = true;
  error_code = some "export_internal_error";
  error_message = some "OTLP transport failed";
  retry_after_seconds = none;
}

abbrev pub caught : Option ExportResult → ExportResult
caught none = internal_failure
caught (some result) = result

-- One call of mark_failed for each event.
unfoldable pub fail_each :
    String → List InboxEvent → (InboxEvent → ℕ) → Failure → List InboxEvent → List InboxEvent × ℕ
fail_each owner [] failed_at failure rows = (rows, 0)
fail_each owner (event ∷ events) failed_at failure rows =
    let (rows', count) = mark_failed owner ((event, failed_at event) ∷ []) failure rows in
    let (rows'', counts) = fail_each owner events failed_at failure rows' in
    (rows'', count + counts)

module _ {P : Type 0} (build : List InboxEvent → Option P) (no_payload : P) where
  -- The rows that can be encoded alone, and those that cannot.
  unfoldable pub isolate : List InboxEvent → List InboxEvent × List InboxEvent
  isolate [] = ([], [])
  isolate (event ∷ events) =
      let (valid, invalid) = isolate events in
      if is_none (build (event ∷ [])) then (valid, event ∷ invalid) else (event ∷ valid, invalid)

  abbrev pub encoded :
      Option P → List InboxEvent → List InboxEvent → Option (P × List InboxEvent × List InboxEvent)
  encoded none valid invalid = none
  encoded (some payload) valid invalid = some (payload, valid, invalid)

  -- The last encoding is outside the `try`: where it raises, the cycle ends.
  abbrev pub encode_valid :
      List InboxEvent → List InboxEvent → Option (P × List InboxEvent × List InboxEvent)
  encode_valid [] invalid = some (no_payload, [], invalid)
  encode_valid (event ∷ valid) invalid = encoded (build (event ∷ valid)) (event ∷ valid) invalid

  abbrev pub encode_or_isolate :
      Option P → List InboxEvent → Option (P × List InboxEvent × List InboxEvent)
  encode_or_isolate (some payload) events = some (payload, events, [])
  encode_or_isolate none events =
      let (valid, invalid) = isolate events in encode_valid valid invalid

  -- _encode_isolated_batch
  unfoldable pub encode_isolated_batch :
      List InboxEvent → Option (P × List InboxEvent × List InboxEvent)
  unfolding isolate
  encode_isolated_batch events = encode_or_isolate (build events) events

  module _ (send : P → Option ExportResult) (settings : Settings) (world : World) where
    -- The last transaction.
    unfoldable pub finish : ExportResult → List InboxEvent → Database → Database × ℕ
    unfolding fail_each
    finish result exportable db =
        let (rows, completed) =
          if result.success
          then mark_delivered world.owner (map (λ e. e.id) exportable) world.delivered_at
              db.inbox_events
          else fail_each world.owner exportable world.failed_at (export_failure settings result)
              db.inbox_events in
        (record db { inbox_events = rows }, completed)

    unfoldable pub reject_invalid : List InboxEvent → Database → Database × ℕ
    reject_invalid invalid db =
        let (rows, changed) =
          mark_failed world.owner (map (λ e. (e, world.rejected_at e)) invalid)
            (mapping_failure settings) db.inbox_events in
        (record db { inbox_events = rows }, changed)

    abbrev pub send_and_finish : P → List InboxEvent → Database × ℕ → Option ℕ × Database
    send_and_finish payload [] (db, changed) = (some changed, db)
    send_and_finish payload (event ∷ exportable) (db, changed) =
        let (db', completed) =
          finish (caught (send payload)) (event ∷ exportable) (run world.while_sending db) in
        (some (changed + completed), db')

    abbrev pub export_encoded :
        Option (P × List InboxEvent × List InboxEvent) → Database → Option ℕ × Database
    export_encoded none db = (none, db)
    export_encoded (some (payload, exportable, invalid)) db =
        send_and_finish payload exportable (reject_invalid invalid db)

    abbrev pub export_claimed : List InboxEvent → Database → Option ℕ × Database
    export_claimed [] db = (some 0, db)
    export_claimed (event ∷ events) db =
        export_encoded (encode_isolated_batch (event ∷ events)) (run world.while_encoding db)

    -- The count of rows that changed, where the cycle does not raise, and the database.
    unfoldable pub export_once : Database → Option ℕ × Database
    unfolding encode_isolated_batch finish reject_invalid
    export_once db =
        let (events, rows) =
          claim_batch world.owner settings.worker_batch_size settings.worker_lease_seconds
            world.claimed_at world.locked db.inbox_events in
        let cycle = export_claimed events (record db { inbox_events = rows }) in
        if settings.export_enabled then cycle else (some 0, db)
