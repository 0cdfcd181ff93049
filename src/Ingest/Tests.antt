-- ===== src/Ingest/Tests.antt =====
-- A batch of two events, of which another process has stored one since the read, and what follows.
use android_apm_server.Prelude.{
  ◌≡◌, refl, true, false, none, some, List, [], ◌∷◌, All, ◌⊎◌, split, partition,
}
use android_apm_server.Errors.{ApiError, Result, ok, err, ◌>>◌}
use android_apm_server.Json.{get}
use android_apm_server.Domain.{model_dump}
use android_apm_server.Db.Quota.{consume_quota}
use android_apm_server.Db.Inbox.{remove_known_installation_plaintext, occurs, holds_text}
use android_apm_server.Db.Inbox.Prepare.{prepare_event}
use android_apm_server.Db.Inbox.Batch.{prepare_unique_events, same_signature}
use android_apm_server.Db.Inbox.Insert.{InsertResult, insert_batch}
use android_apm_server.Db.Inbox.Tests.{
  test_hmac, no_fingerprint, test_dumps, test_sha256, test_bytes, test_metadata, test_events,
  test_keys, raced_rows, raced-Agrees,
}
use android_apm_server.Db.Maintenance.{check_inbox_capacity, raw_bytes}
use android_apm_server.Db.Symbolization.Creation.{enqueue_symbolization_jobs}
use android_apm_server.Db.Table.{update_where}
use android_apm_server.Db.System.{worker, claims}
use android_apm_server.Ingest.Headers.{
  MediaType, EnvelopeVersion, negotiate_content_type, parameters, last_value,
  unsupported_media_type, check_length, read_body_bounded,
}
use android_apm_server.Ingest.Body.{within, read_body_bounded-within}
use android_apm_server.Ingest.Transaction.{Store, IngestSettings, commit_batch}
use android_apm_server.Ingest.History.{
  IngestRequest, Happening, process, maintenance, request, history,
}
use android_apm_server.Ingest.Outcome.{run_of}
use android_apm_server.Ingest.Durability.{
  IsRecorded, commit_batch-IsRecorded, insert_batch-replayed,
}
use android_apm_server.Ingest.Atomicity.{IsAcknowledged, commit_batch-outcome}

abbrev pub test_settings : IngestSettings
test_settings = record {
  symbolization_enabled = true;
  retention = record {
    inbox_max_live_events = 100;
    inbox_max_raw_bytes = 1000;
    retention_enabled = true;
    delivered_retention_days = 1;
    dead_letter_retention_days = 1;
    retention_batch_size = 10;
  };
}

abbrev pub test_request : IngestRequest
test_request = record {
  moment = record { observed = 5000000; now = 5; timely = true; commits = true };
  principal = record {
    tenant_id = "t";
    key_id = "key";
    app_id = "app";
    environment = "prod";
    requests_per_minute = 10;
    events_per_minute = 100;
  };
  metadata = test_metadata;
  events = test_events;
  keys = test_keys;
  seen = [];
}

abbrev pub test_store : Store
test_store = record {
  windows = [];
  database = record { inbox_events = raced_rows; symbolization_jobs = [] };
}

abbrev test_after : Result InsertResult × Store
test_after =
    run_of test_hmac no_fingerprint test_dumps test_sha256 test_bytes test_settings test_request
      test_store

abbrev all_received : InsertResult
all_received = record { received = 3; inserted = 1; duplicates = 2 }

-- The request once more, a worker's claim, and a maintenance cycle.
abbrev pub test_later : List Happening
test_later =
    request test_settings test_request
    ∷ process (worker (claims "a:1" 10 30 6 (λ id. false)))
    ∷ maintenance test_settings.retention 9 (λ id. false)
    ∷ []

commit_batch-IsRecorded_example :
    All
      (IsRecorded test_hmac no_fingerprint test_dumps test_sha256 test_bytes test_settings
        test_request
        (history test_hmac no_fingerprint test_dumps test_sha256 test_bytes test_later
          test_after.1).database.inbox_events)
      test_events
unfolding commit_batch insert_batch remove_known_installation_plaintext model_dump occurs holds_text
    get prepare_unique_events prepare_event same_signature consume_quota check_inbox_capacity
    enqueue_symbolization_jobs update_where raw_bytes
commit_batch-IsRecorded_example =
    commit_batch-IsRecorded test_hmac no_fingerprint test_dumps test_sha256 test_bytes test_settings
      test_request test_store test_after.1 all_received test_later (tt, tt) raced-Agrees refl

insert_batch-replayed_example :
    insert_batch test_hmac no_fingerprint test_dumps test_sha256 test_bytes test_metadata
      test_events test_keys 12
      (history test_hmac no_fingerprint test_dumps test_sha256 test_bytes test_later
        test_after.1).database.inbox_events
      (history test_hmac no_fingerprint test_dumps test_sha256 test_bytes test_later (
        history test_hmac no_fingerprint test_dumps test_sha256 test_bytes test_later
          test_after.1)).database.inbox_events
    ≡ ok (
      record { received = 3; inserted = 0; duplicates = 3 },
      (history test_hmac no_fingerprint test_dumps test_sha256 test_bytes test_later (
          history test_hmac no_fingerprint test_dumps test_sha256 test_bytes test_later
            test_after.1)).database.inbox_events,
    )
unfolding commit_batch insert_batch remove_known_installation_plaintext model_dump occurs holds_text
    get prepare_unique_events prepare_event same_signature consume_quota check_inbox_capacity
    enqueue_symbolization_jobs update_where raw_bytes
insert_batch-replayed_example =
    insert_batch-replayed test_hmac no_fingerprint test_dumps test_sha256 test_bytes test_settings
      test_request test_store test_after.1 all_received test_later test_later 12 (tt, tt)
      raced-Agrees refl

commit_batch-outcome_example :
    ((result : InsertResult) × (test_after.0 ≡ ok result)
      × IsAcknowledged test_hmac no_fingerprint test_dumps test_sha256 test_bytes test_settings
          test_request test_store test_after.1 result)
    ⊎ ((e : ApiError) × (test_after.0 ≡ err e) × (test_after.1 ≡ test_store))
commit_batch-outcome_example =
    commit_batch-outcome test_hmac no_fingerprint test_dumps test_sha256 test_bytes test_settings
      test_request test_store

read_body_bounded-within_example :
    read_body_bounded (some "5") 4 ((1 ∷ 2 ∷ []) ∷ (3 ∷ []) ∷ [])
    ≡ (check_length (some "5") 4 >> within 4 (1 ∷ 2 ∷ 3 ∷ []))
read_body_bounded-within_example =
    read_body_bounded-within (some "5") 4 ((1 ∷ 2 ∷ []) ∷ (3 ∷ []) ∷ [])

-- Two media types, and an envelope of an unknown version.
envelope_header :
    negotiate_content_type "Application/X-Protobuf; message=ApmBatchEnvelope; version=\"3\""
    ≡ ok (MediaType.protobuf, some EnvelopeVersion.v3)
unfolding negotiate_content_type split parameters partition last_value
envelope_header = refl

unknown_envelope :
    negotiate_content_type "application/x-protobuf; message=ApmBatchEnvelope; version=4"
    ≡ err unsupported_media_type
unfolding negotiate_content_type split parameters partition last_value
unknown_envelope = refl

line_header : negotiate_content_type "text/plain; charset=utf-8" ≡ ok (MediaType.line, none)
unfolding negotiate_content_type split parameters partition last_value
line_header = refl
