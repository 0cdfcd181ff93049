-- ===== src/Db/Inbox/Tests.antt =====
-- A payload with the identifier in a key, in a list and in a map.
use android_apm_server.Prelude.{
  ℕ, ◌≡◌, refl, arith, eq_iff, some, none, String, List, [], ◌∷◌, length, leb, is_none, Option,
  if◌then◌else◌,
}
use android_apm_server.Json.{Json, Items, Fields, get, fields_of}
use android_apm_server.Errors.{Result, ok, err}
use android_apm_server.Domain.{ApmEvent, IngestMetadata, model_dump}
use android_apm_server.Identity.{InstallationHmacKeyRing}
use android_apm_server.Db.Models.{IdentityQuality, InboxEvent}
use android_apm_server.Db.Tests.{crash_event}
use android_apm_server.Db.Inbox.{remove_known_installation_plaintext, occurs, holds_text}
use android_apm_server.Db.Inbox.Prepare.{
  PreparedEvent, text_value, prepared_event, prepare_event, declared, safe_event, validate_frame,
  validate_frames,
}
use android_apm_server.Db.Inbox.Batch.{Prepared, prepare_unique_events, same_signature}
use android_apm_server.Db.Inbox.Insert.{
  InsertResult, insert_batch, find_event, conflict_error, to_row,
}
use android_apm_server.Db.Inbox.Taken.{Agrees}
use android_apm_server.Db.Inbox.Stored.{IsCounted, insert_batch-IsCounted}
use android_apm_server.Db.Inbox.Insert.Content.{IsReplay}
use android_apm_server.Db.Inbox.Replay.{insert_batch-conflict}
use android_apm_server.Db.Inbox.Privacy.Prepared.{IsPrivate, prepare_event-IsPrivate}

abbrev payload : Json
payload = Json.obj (
    Fields.field "device-42" (Json.nat 1) (
      Fields.field "list"
        (Json.arr (Items.cons (Json.str "id device-42") (Items.cons (Json.str "ok") Items.nil)))
        (Fields.field "user" (Json.str "device-42") Fields.end)))

cleaned :
    remove_known_installation_plaintext payload (some "device-42")
    ≡ Json.obj (Fields.field "list" (Json.arr (Items.cons (Json.str "ok") Items.nil)) Fields.end)
unfolding remove_known_installation_plaintext occurs holds_text
cleaned = refl

-- Concrete digests and a printer that writes the id of the event.
abbrev pub test_hmac : List ℕ → List ℕ → String
test_hmac secret message = if leb (length message) 40 then "short" else "long"

abbrev pub test_dumps : Json → String
test_dumps payload =
    if is_none (text_value (get "event_id" (fields_of (some payload)))) then "{}" else "e"

abbrev pub no_fingerprint : ApmEvent → Option String
no_fingerprint e = none

abbrev pub test_sha256 : String → String
test_sha256 s = s

abbrev pub test_bytes : Json → ℕ
test_bytes _ = 100

abbrev pub test_keys : Option InstallationHmacKeyRing
test_keys = some (record { keys = ("k1", 7 ∷ []) ∷ []; active_version = "k1" })

abbrev pub test_metadata : IngestMetadata
test_metadata = record {
  request_id = "r";
  tenant_id = "t";
  app_id = "app";
  environment = "prod";
  schema_version = "1";
  sdk_version = "2.0";
  app_version = some "1.0";
  app_build = some "7";
  version_code = some "70";
  variant = some "release";
  protocol = "line";
  release_identity_quality = IdentityQuality.request_declared;
  installation_identity_quality = IdentityQuality.request_declared;
  installation_id = some "device-42";
}

-- Two events, and the first one again.
abbrev pub test_events : List ApmEvent
test_events = crash_event "e1" ∷ crash_event "e2" ∷ crash_event "e1" ∷ []

abbrev test_run : List InboxEvent → List InboxEvent → Result (InsertResult × List InboxEvent)
test_run =
    insert_batch test_hmac no_fingerprint test_dumps test_sha256 test_bytes test_metadata
      test_events test_keys 5

abbrev result_of : Result (InsertResult × List InboxEvent) → InsertResult × List InboxEvent
result_of (ok done) = done
result_of (err e) = (record { received = 0; inserted = 0; duplicates = 0 }, [])

two_inserted :
    (result_of (test_run [] [])).0 ≡ record { received = 3; inserted = 2; duplicates = 1 }
unfolding insert_batch remove_known_installation_plaintext model_dump occurs holds_text get
    prepare_unique_events prepare_event same_signature
two_inserted = refl

-- A native crash whose frame names the installation.
abbrev native_event : ApmEvent
native_event = record (crash_event "e3") {
  occurrence = some (record {
    service_version = "1.0";
    version_code = "70";
    app_build = "7";
    variant = "release";
    installation_id = "device-42";
    native_frames =
        record {
          abi = "arm64";
          module_build_id = "ab";
          module_name = "lib-device-42.so";
          module_relative_pc = 16;
          load_bias = none;
        }
        ∷ record {
          abi = "arm64";
          module_build_id = "cd";
          module_name = "libc.so";
          module_relative_pc = 32;
          load_bias = some 0;
        }
        ∷ [];
  });
}

abbrev private_item : PreparedEvent
private_item =
    prepared_event no_fingerprint native_event (declared test_metadata native_event.occurrence)
      (record { installation_hmac = some "short"; key_version = some "k1" })
      (fields_of
        (some (remove_known_installation_plaintext (model_dump native_event) (some "device-42"))))

one_frame_left : length private_item.native_identity ≡ 1
unfolding prepared_event safe_event validate_frames validate_frame
    remove_known_installation_plaintext model_dump occurs holds_text get declared
one_frame_left = refl

prepare_event-IsPrivate_example : IsPrivate test_metadata native_event private_item "device-42"
unfolding prepare_event occurs holds_text prepared_event declared
prepare_event-IsPrivate_example =
    prepare_event-IsPrivate test_hmac no_fingerprint test_metadata test_keys native_event
      private_item "device-42" refl refl refl refl refl

abbrev prepared_of : Result Prepared → Prepared
prepared_of (ok prepared) = prepared
prepared_of (err e) = []

abbrev second_item : Prepared → PreparedEvent
second_item (a ∷ b ∷ rest) = b.1
second_item _ = private_item

-- Another process has stored the second event since the read.
abbrev pub raced_rows : List InboxEvent
raced_rows =
    (result_of (
      insert_batch test_hmac no_fingerprint test_dumps test_sha256 test_bytes test_metadata
        (crash_event "e2" ∷ []) test_keys 4 [] [])).1

pub raced-Agrees : Agrees "t" [] raced_rows
unfolding find_event
raced-Agrees k row row' h h' = absurd (cc)

insert_batch-IsCounted_example :
    IsCounted test_hmac no_fingerprint test_dumps test_sha256 test_bytes test_metadata test_keys 5
      test_events raced_rows
      (result_of (test_run [] raced_rows)).1
      (result_of (test_run [] raced_rows)).0
unfolding insert_batch remove_known_installation_plaintext model_dump occurs holds_text get
    prepare_unique_events prepare_event same_signature find_event
insert_batch-IsCounted_example =
    insert_batch-IsCounted test_hmac no_fingerprint test_dumps test_sha256 test_bytes test_metadata
      test_keys 5 test_events [] raced_rows (result_of (test_run [] raced_rows)).1
      (result_of (test_run [] raced_rows)).0 refl

-- The second event, of another release.
abbrev old_rows : List InboxEvent
old_rows =
    (result_of (
      insert_batch test_hmac no_fingerprint test_dumps test_sha256 test_bytes
        (record test_metadata { app_version = some "0.9" }) (crash_event "e2" ∷ []) test_keys 4 []
        [])).1

abbrev first_row : List InboxEvent → InboxEvent
first_row [] = to_row test_metadata private_item test_bytes 0 0
first_row (row ∷ rows) = row

old-Agrees : Agrees "t" [] old_rows
unfolding find_event
old-Agrees k row row' h h' = absurd (cc)

abbrev test_prepared : Prepared
test_prepared = prepared_of (
    prepare_unique_events test_hmac no_fingerprint test_dumps test_sha256 test_metadata test_events
      test_keys)

-- The row is of release 0.9.
other_release :
    ¬ IsReplay test_hmac test_metadata test_keys
      (second_item test_prepared)
      (first_row old_rows).identity
unfolding insert_batch remove_known_installation_plaintext model_dump occurs holds_text get
    prepare_unique_events prepare_event same_signature find_event
other_release (content, installation) =
    let old : Option String = some "0.9" in
    let new : Option String = some "1.0" in
    let version : old ≡ new = cc content in ground (arith, version, eq_iff "0.9" "1.0")

insert_batch-conflict_example : test_run [] old_rows ≡ err conflict_error
unfolding insert_batch remove_known_installation_plaintext model_dump occurs holds_text get
    prepare_unique_events prepare_event same_signature find_event
insert_batch-conflict_example =
    insert_batch-conflict test_hmac test_metadata test_keys no_fingerprint test_dumps test_sha256
      test_bytes test_events 5 [] old_rows test_prepared "e2" (second_item test_prepared)
      (first_row old_rows) old-Agrees refl refl refl other_release
