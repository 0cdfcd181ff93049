-- ===== src/Db/Inbox/Insert.antt =====
-- `insert_batch` of db/inbox.py, with the transactions that other processes commit between its first
-- read and its INSERT: `seen` is the table at the read, `rows` the table at the INSERT. `bytes_of` is
-- the UTF-8 length of the stored payload.
pub mod Rows
pub mod Checks
pub mod Keys
pub mod Content
use android_apm_server.Prelude.{
  ℕ, suc, ◌+◌, ◌-◌, max, String, Bool, true, false, not, ◌&&◌, ◌||◌, Option, none, some, List, [],
  ◌∷◌, ◌++◌, length, str_eq, option_eq, is_none, if◌then◌else◌,
}
use android_apm_server.Errors.{ApiError, Result, ok, err, ◌>>=◌, ◌>>◌, refuse_if, failure}
use android_apm_server.Json.{Json}
use android_apm_server.Domain.{ApmEvent, IngestMetadata}
use android_apm_server.Identity.{InstallationHmacKeyRing, digest}
use android_apm_server.Db.Models.{InboxStatus, EventIdentity, Delivery, Evidence, InboxEvent}
use android_apm_server.Db.Inbox.Prepare.{PreparedEvent}
use android_apm_server.Db.Inbox.Batch.{quality_eq, Prepared, prepare_unique_events}

pub record InsertResult : Type 0 where
  pub received : ℕ
  pub inserted : ℕ
  pub duplicates : ℕ

abbrev pub conflict_error : ApiError
conflict_error = failure 409 "event_id_conflict"

-- The unique key (tenant_id, event_id).
abbrev pub has_key : String → String → InboxEvent → Bool
has_key tenant_id event_id row =
    str_eq row.identity.tenant_id tenant_id && str_eq row.identity.event_id event_id

unfoldable pub find_event : String → String → List InboxEvent → Option InboxEvent
find_event tenant_id event_id [] = none
find_event tenant_id event_id (row ∷ rows) =
    let rest = find_event tenant_id event_id rows in
    if has_key tenant_id event_id row then some row else rest

-- `expected` and `actual` of _assert_existing_matches.
unfoldable pub same_content : IngestMetadata → PreparedEvent → EventIdentity → Bool
same_content m p i =
    str_eq i.payload_sha256 p.payload_hash
    && str_eq i.app_id m.app_id
    && str_eq i.environment m.environment
    && option_eq i.app_version p.app_version
    && option_eq i.app_build p.app_build
    && option_eq i.version_code p.version_code
    && option_eq i.variant p.variant
    && quality_eq i.release_identity_quality p.release_quality
    && quality_eq i.installation_identity_quality p.installation_quality

abbrev pub next_row_id : List InboxEvent → ℕ
next_row_id [] = 1
next_row_id (row ∷ rows) = max (row.id + 1) (next_row_id rows)

-- The columns of `_to_row`, and the defaults of db/models.py for the delivery.
unfoldable pub to_identity : IngestMetadata → PreparedEvent → EventIdentity
to_identity m p = record {
  tenant_id = m.tenant_id;
  event_id = p.event.event_id;
  app_id = m.app_id;
  environment = m.environment;
  app_version = p.app_version;
  app_build = p.app_build;
  version_code = p.version_code;
  variant = p.variant;
  release_identity_quality = p.release_quality;
  installation_identity_quality = p.installation_quality;
  installation_hmac = p.installation_hmac;
  installation_hmac_key_version = p.installation_hmac_key_version;
  payload_sha256 = p.payload_hash;
}

unfoldable pub to_row : IngestMetadata → PreparedEvent → (Json → ℕ) → ℕ → ℕ → InboxEvent
unfolding to_identity
to_row m p bytes_of now id = record {
  id = id;
  identity = to_identity m p;
  delivery = record {
    status = InboxStatus.pending;
    attempt_count = 0;
    next_attempt_at = now;
    lease_owner = none;
    lease_expires_at = none;
    delivered_at = none;
    finalized_at = none;
    last_error_code = none;
    last_error_message = none;
  };
  evidence = record {
    payload_json = p.payload;
    payload_size_bytes = bytes_of p.payload;
    raw_pruned_at = none;
    incident_fingerprint = p.incident_fingerprint;
    native_identity = p.native_identity;
  };
}

-- INSERT ... ON CONFLICT (tenant_id, event_id) DO NOTHING: the table, and the number of new rows.
unfoldable pub insert_rows :
    IngestMetadata → (Json → ℕ) → ℕ → Prepared → List InboxEvent → List InboxEvent × ℕ
unfolding find_event to_row
insert_rows m bytes_of now [] rows = (rows, 0)
insert_rows m bytes_of now ((key, p) ∷ prepared) rows =
    let kept = insert_rows m bytes_of now prepared rows in
    let (rows', inserted) =
      insert_rows m bytes_of now prepared
        (rows ++ to_row m p bytes_of now (next_row_id rows) ∷ []) in
    if is_none (find_event m.tenant_id p.event.event_id rows) then (rows', suc inserted) else kept

module _ (hmac : List ℕ → List ℕ → String) where
  abbrev pub digest_is : Option String → String → Bool
  digest_is none stored = false
  digest_is (some candidate) stored = str_eq candidate stored

  abbrev pub replay_matches :
      InstallationHmacKeyRing → String → String → Option String → Option String → Bool
  replay_matches ring tenant_id plaintext (some stored) (some version) =
      digest_is (digest hmac ring tenant_id plaintext (some version)) stored
  replay_matches ring tenant_id plaintext none version = false
  replay_matches ring tenant_id plaintext (some stored) none = false

  -- _matches_existing_installation
  unfoldable pub matches_existing_installation :
      Option InstallationHmacKeyRing → String → Option String → EventIdentity → Bool
  unfolding digest
  matches_existing_installation keys tenant_id none i =
      is_none i.installation_hmac && is_none i.installation_hmac_key_version
  matches_existing_installation none tenant_id (some plaintext) i = false
  matches_existing_installation (some ring) tenant_id (some plaintext) i =
      replay_matches ring tenant_id plaintext i.installation_hmac i.installation_hmac_key_version

  -- _assert_existing_matches
  unfoldable pub existing_matches :
      IngestMetadata → Option InstallationHmacKeyRing → PreparedEvent → EventIdentity → Bool
  unfolding same_content matches_existing_installation
  existing_matches m keys p i =
      same_content m p i
      && matches_existing_installation keys m.tenant_id p.installation_plaintext i

  abbrev pub row_matches :
      IngestMetadata → Option InstallationHmacKeyRing → PreparedEvent → Option InboxEvent → Bool
  row_matches m keys p none = true
  row_matches m keys p (some row) = existing_matches m keys p row.identity

  -- Every prepared event that has a row in the table matches it.
  unfoldable pub assert_existing :
      IngestMetadata
      → Option InstallationHmacKeyRing
      → Prepared
      → List InboxEvent
      → Result (Unit {0})
  unfolding existing_matches find_event
  assert_existing m keys [] rows = ok tt
  assert_existing m keys ((key, p) ∷ prepared) rows =
      refuse_if (not (row_matches m keys p (find_event m.tenant_id key rows))) conflict_error
      >> assert_existing m keys prepared rows

  -- The events that neither the read found nor the INSERT added, against the table that they lost to.
  unfoldable pub assert_raced :
      IngestMetadata
      → Option InstallationHmacKeyRing
      → Prepared
      → List InboxEvent
      → List InboxEvent
      → Result (Unit {0})
  unfolding existing_matches find_event
  assert_raced m keys [] seen rows = ok tt
  assert_raced m keys ((key, p) ∷ prepared) seen rows =
      refuse_if
        (is_none (find_event m.tenant_id key seen)
          && not (row_matches m keys p (find_event m.tenant_id key rows)))
        conflict_error
      >> assert_raced m keys prepared seen rows

  module _ (fingerprint : ApmEvent → Option String) (dumps : Json → String)
      (sha256 : String → String) (bytes_of : Json → ℕ) where
    -- The INSERT and the checks round it, on the prepared events.
    unfoldable pub insert_prepared :
        IngestMetadata
        → Option InstallationHmacKeyRing
        → ℕ
        → ℕ
        → List InboxEvent
        → Prepared
        → List InboxEvent
        → Result (InsertResult × List InboxEvent)
    unfolding assert_existing assert_raced insert_rows
    insert_prepared m keys received now seen prepared rows =
        let (rows', inserted) = insert_rows m bytes_of now prepared rows in
        assert_existing m keys prepared seen
        >> (assert_raced m keys prepared seen rows
            >> ok (
              record { received = received; inserted = inserted; duplicates = received - inserted },
              rows',
            ))

    unfoldable pub insert_batch :
        IngestMetadata
        → List ApmEvent
        → Option InstallationHmacKeyRing
        → ℕ
        → List InboxEvent
        → List InboxEvent
        → Result (InsertResult × List InboxEvent)
    unfolding insert_prepared
    insert_batch m events keys now seen rows =
        prepare_unique_events hmac fingerprint dumps sha256 m events keys >>= λ prepared.
        insert_prepared m keys (length events) now seen prepared rows
