-- ===== src/Ingest/Durability.antt =====
-- The inbox after an acknowledged batch of api/ingest.py, and later.
use android_apm_server.Prelude.{ℕ, ◌≡◌, ap, ◌∙◌, String, Option, List, length, All, All-map}
use android_apm_server.Errors.{ok}
use android_apm_server.Json.{Json}
use android_apm_server.Domain.{ApmEvent}
use android_apm_server.Db.Models.{InboxEvent}
use android_apm_server.Db.Table.{Ascending}
use android_apm_server.Db.Inbox.Insert.{InsertResult, existing_matches, insert_batch}
use android_apm_server.Ingest.Transaction.{Store, IngestSettings}
use android_apm_server.Db.Inbox.Prepare.{PreparedEvent}
use android_apm_server.Db.Inbox.Taken.{Agrees, IsMatched, IsTaken-IsMatched, insert_batch-IsTaken}
use android_apm_server.Db.Inbox.Replay.{insert_batch-matched}
use android_apm_server.Db.Inbox.Stored.{IsStored, insert_batch-IsStored}
use android_apm_server.Db.Inbox.Insert.{same_content}
use android_apm_server.Db.Inbox.Batch.{hashed}
use android_apm_server.Ingest.History.{IngestRequest, Happening, Lasts, Lasts-trans, history}
use android_apm_server.Ingest.Outcome.{run_of, commit_batch-IsCommitted}
use android_apm_server.Ingest.Persistence.{IsCommitted-Lasts, history-Lasts}

module _ (hmac : List ℕ → List ℕ → String) (fingerprint : ApmEvent → Option String)
    (dumps : Json → String) (sha256 : String → String) (bytes_of : Json → ℕ) where
  module _ (settings : IngestSettings) (r : IngestRequest) where
    -- The event is stored in the inbox.
    abbrev pub IsRecorded : List InboxEvent → ApmEvent → Type 0
    IsRecorded rows e =
        IsStored hmac fingerprint dumps sha256 bytes_of r.metadata r.keys r.moment.now rows e

    IsStored-Lasts :
        (rows rows' : List InboxEvent) (e : ApmEvent)
        → Lasts rows rows'
        → IsRecorded rows e
        → IsRecorded rows' e
    IsStored-Lasts rows rows' e l s =
        let (row, there, same) = l.persists r.metadata.tenant_id e.event_id s.row s.there in
        record {
          own = s.own;
          made = s.made;
          row = row;
          there = there;
          content =
              ap (λ i. same_content r.metadata (hashed dumps sha256 s.own) i) same ∙ s.content;
        }

    -- Where a batch is acknowledged, on an inbox whose keys ascend, and no row that was compared has
    -- changed its identity since, then after any later requests, actions of the workers and maintenance
    -- cycles every event of the batch still has a row under its id with the event's digest, scope and
    -- release identity.
    pub commit_batch-IsRecorded :
        (store after : Store) (result : InsertResult) (later : List Happening)
        → Ascending (λ row. row.id) store.database.inbox_events
        → Agrees r.metadata.tenant_id r.seen store.database.inbox_events
        → run_of hmac fingerprint dumps sha256 bytes_of settings r store ≡ (ok result, after)
        → All
            (IsRecorded
              (history hmac fingerprint dumps sha256 bytes_of later after).database.inbox_events)
            r.events
    commit_batch-IsRecorded store after result later a same h =
        let c =
          commit_batch-IsCommitted hmac fingerprint dumps sha256 bytes_of settings r store after
            result h in
        let (first, second) =
          IsCommitted-Lasts hmac fingerprint dumps sha256 bytes_of settings r store after result a
            c in
        let stored =
          insert_batch-IsStored hmac fingerprint dumps sha256 bytes_of r.metadata r.keys
            r.moment.now r.events r.seen store.database.inbox_events c.rows result same
            c.inserted in
        let last =
          Lasts-trans c.rows after.database.inbox_events _ second
            (history-Lasts hmac fingerprint dumps sha256 bytes_of later after second.ascending) in
        All-map (IsRecorded c.rows) (λ e s. IsStored-Lasts c.rows _ e last s) r.events stored

    -- A row that matches an entry matches it as long as it lasts.
    IsMatched-Lasts :
        (rows rows' : List InboxEvent) (e : String × PreparedEvent)
        → Lasts rows rows'
        → IsMatched hmac r.metadata r.keys rows e
        → IsMatched hmac r.metadata r.keys rows' e
    IsMatched-Lasts rows rows' e l h =
        let (row, there, same) = l.persists r.metadata.tenant_id e.0 h.row h.there in
        record {
          row = row;
          there = there;
          matches = ap (λ i. existing_matches hmac r.metadata r.keys e.1 i) same ∙ h.matches;
        }

    -- Where a batch was acknowledged, on an inbox whose keys ascend, and no row that was compared had
    -- changed its identity since, the same batch with the same metadata and key ring may come again:
    -- after any later requests, actions of the workers and maintenance cycles, and with more of them
    -- between its read and its INSERT, it is taken with every event a duplicate, and the inbox stays as
    -- it is.
    pub insert_batch-replayed :
        (store after : Store) (result : InsertResult) (later meanwhile : List Happening) (now : ℕ)
        → Ascending (λ row. row.id) store.database.inbox_events
        → Agrees r.metadata.tenant_id r.seen store.database.inbox_events
        → run_of hmac fingerprint dumps sha256 bytes_of settings r store ≡ (ok result, after)
        → let read = history hmac fingerprint dumps sha256 bytes_of later after in
          let rows =
            (history hmac fingerprint dumps sha256 bytes_of meanwhile read).database.inbox_events in
          insert_batch hmac fingerprint dumps sha256 bytes_of r.metadata r.events r.keys now
            read.database.inbox_events rows
          ≡ ok (
            record { received = length r.events; inserted = 0; duplicates = length r.events },
            rows,
          )
    insert_batch-replayed store after result later meanwhile now a same h =
        let c =
          commit_batch-IsCommitted hmac fingerprint dumps sha256 bytes_of settings r store after
            result h in
        let (first, second) =
          IsCommitted-Lasts hmac fingerprint dumps sha256 bytes_of settings r store after result a
            c in
        let t =
          insert_batch-IsTaken hmac r.metadata r.keys fingerprint dumps sha256 bytes_of r.moment.now
            r.events r.seen store.database.inbox_events c.rows result c.inserted in
        let matched =
          IsTaken-IsMatched hmac r.metadata r.keys fingerprint dumps sha256 bytes_of r.moment.now
            r.events r.seen store.database.inbox_events c.rows result same t in
        let read = history hmac fingerprint dumps sha256 bytes_of later after in
        let kept =
          Lasts-trans c.rows after.database.inbox_events read.database.inbox_events second
            (history-Lasts hmac fingerprint dumps sha256 bytes_of later after second.ascending) in
        let kept' =
          Lasts-trans c.rows read.database.inbox_events _ kept
            (history-Lasts hmac fingerprint dumps sha256 bytes_of meanwhile read kept.ascending) in
        insert_batch-matched hmac r.metadata r.keys fingerprint dumps sha256 bytes_of r.events now
          read.database.inbox_events _ t.prepared t.made t.unique.dict
          (All-map (IsMatched hmac r.metadata r.keys c.rows) (λ e. IsMatched-Lasts c.rows _ e kept)
            t.prepared matched)
          (All-map (IsMatched hmac r.metadata r.keys c.rows) (λ e. IsMatched-Lasts c.rows _ e kept')
            t.prepared matched)
