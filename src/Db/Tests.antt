-- ===== src/Db/Tests.antt =====
-- Small tables, runs of the operations on them, and the theorems at these inputs.
use android_apm_server.Prelude.{
  ℕ, suc, ◌+◌, ◌≤◌, ◌<◌, String, ◌≡◌, refl, Bool, true, false, none, some, List, [], ◌∷◌, arith,
  eq_iff, length, map, All,
}
use android_apm_server.Json.{Json, Fields}
use android_apm_server.Domain.{ApmEvent, EventKind, EventSeverity, EventPriority}
use android_apm_server.Db.Models.{
  InboxStatus, IdentityQuality, EventIdentity, Delivery, Evidence, InboxEvent, Database, seconds,
}
use android_apm_server.Db.Table.{update_where}
use android_apm_server.Db.Worker.{
  Failure, claimable, delay_seconds, max_backoff_seconds, claim_batch,
}
use android_apm_server.Db.Worker.Retry.{rounds, rounds-status, delay_seconds_bounds}
use android_apm_server.Db.Symbolization.Creation.{Enqueue, enqueue_symbolization_jobs}
use android_apm_server.Db.System.{Action, worker, symbols, claims, enqueues, act}
use android_apm_server.Db.System.Custody.{Stranger}
use android_apm_server.Db.System.Delivery.{claim}
use android_apm_server.Db.System.Release.{IsSound}

abbrev pub crash_identity : String → EventIdentity
crash_identity event_id = record {
  tenant_id = "t";
  event_id = event_id;
  app_id = "app";
  environment = "prod";
  app_version = some "1.0";
  app_build = some "7";
  version_code = some "70";
  variant = some "release";
  release_identity_quality = IdentityQuality.occurrence_bound;
  installation_identity_quality = IdentityQuality.absent;
  installation_hmac = none;
  installation_hmac_key_version = none;
  payload_sha256 = "00";
}

abbrev pub crash_evidence : Evidence
crash_evidence = record {
  payload_json = Json.obj (
      Fields.field "fields"
        (Json.obj (Fields.field "stackTrace" (Json.str "at a.B.c(D.java:1)") Fields.end))
        Fields.end);
  payload_size_bytes = 60;
  raw_pruned_at = none;
  incident_fingerprint = some "raw";
  native_identity = [];
}

abbrev pub waiting_delivery : Delivery
waiting_delivery = record {
  status = InboxStatus.pending;
  attempt_count = 0;
  next_attempt_at = 0;
  lease_owner = none;
  lease_expires_at = none;
  delivered_at = none;
  finalized_at = none;
  last_error_code = none;
  last_error_message = none;
}

abbrev pub waiting_row : ℕ → String → InboxEvent
waiting_row i event_id = record {
  id = i;
  identity = crash_identity event_id;
  delivery = waiting_delivery;
  evidence = crash_evidence;
}

abbrev pub two_rows : Database
two_rows = record {
  inbox_events = waiting_row 1 "e1" ∷ waiting_row 2 "e2" ∷ [];
  symbolization_jobs = [];
}

abbrev pub unlocked : ℕ → Bool
unlocked i = false

abbrev pub crash_event : String → ApmEvent
crash_event event_id = record {
  timestamp = 5;
  event_id = event_id;
  module_name = "crash";
  name = "java_crash";
  kind = EventKind.alert;
  severity = EventSeverity.fatal;
  priority = EventPriority.critical;
  process_name = "main";
  thread_name = "ui";
  scene = none;
  foreground = some true;
  fields = Fields.field "stackTrace" (Json.str "at a.B.c(D.java:1)") Fields.end;
  field_types = Fields.end;
  global_context = Fields.end;
  extras = Fields.end;
  unknown = Fields.end;
  occurrence = none;
}

abbrev pub ingest : Enqueue
ingest = record {
  tenant_id = "t";
  events = crash_event "e2" ∷ [];
  enabled = true;
  now = 5;
  sha256 = λ s. s;
}

-- Another worker's claim and an ingest transaction.
abbrev pub strangers : List Action
strangers = worker (claims "b:2" 10 30 20 unlocked) ∷ symbols (enqueues ingest) ∷ []

pub strangers-Stranger : All (Stranger "a:1" (10 + seconds 30)) strangers
strangers-Stranger = ((λ e. ground (arith, eq_iff "b:2" "a:1", e), omega arith), (tt, tt))

abbrev pub claimed_rows : Database
claimed_rows = record two_rows { inbox_events = (claim "a:1" 1 30 10 unlocked two_rows).1 }

one_row_claimed : length (claim "a:1" 1 30 10 unlocked two_rows).0 ≡ 1
unfolding claim_batch claimable
one_row_claimed = refl

pub two_rows-IsSound : IsSound two_rows
two_rows-IsSound = record {
  ids_ascend = omega arith;
  releasable = ((λ h. absurd (cc)), ((λ h. absurd (cc)), tt));
}

-- The ingested crash waits for its symbols, with its job.
crash_parked :
    map (λ row. row.delivery.status) (act (symbols (enqueues ingest)) two_rows).inbox_events
    ≡ InboxStatus.pending ∷ InboxStatus.awaiting_symbols ∷ []
unfolding act enqueue_symbolization_jobs update_where
crash_parked = refl

abbrev transport_failure : Failure
transport_failure = record {
  retryable = true;
  max_attempts = 2;
  error_code = "transport_error";
  error_message = "timeout";
  retry_after_seconds = none;
}

rounds-status_example :
    ((rounds transport_failure
        (("a:1", 40, 20) ∷ ("a:2", 90, 60) ∷ [])
        waiting_delivery).attempt_count
      ≡ 2)
    × ((rounds transport_failure (("a:1", 40, 20) ∷ ("a:2", 90, 60) ∷ []) waiting_delivery).status
        ≡ InboxStatus.dead_letter)
rounds-status_example =
    rounds-status transport_failure ("a:1", 40, 20) (("a:2", 90, 60) ∷ []) waiting_delivery refl

delay_seconds_bounds_example :
    (1 ≤ delay_seconds none 12)
    × (delay_seconds none 12 ≤ 256)
    × (delay_seconds none 12 < max_backoff_seconds)
    × (delay_seconds (some 0) 12 ≡ delay_seconds none 12)
    × ((n : ℕ) → delay_seconds (some (suc n)) 12 ≡ suc n)
delay_seconds_bounds_example = delay_seconds_bounds 12
