-- ===== src/Db/Inbox/Stored.antt =====
-- The table and the count that a successful `insert_batch` of db/inbox.py returns.
use android_apm_server.Prelude.{
  ℕ, ◌+◌, ◌≡◌, sym, ◌∙◌, String, true, Option, some, List, ◌++◌, length, arith, All, All-map,
}
use android_apm_server.Errors.{ok}
use android_apm_server.Json.{Json}
use android_apm_server.Domain.{ApmEvent, IngestMetadata}
use android_apm_server.Identity.{InstallationHmacKeyRing}
use android_apm_server.Db.Models.{InboxEvent}
use android_apm_server.Db.Inbox.Prepare.{PreparedEvent, prepare_event}
use android_apm_server.Db.Inbox.Batch.{Prepared, hashed}
use android_apm_server.Db.Inbox.Batch.Dict.{All-find_prepared}
use android_apm_server.Db.Inbox.Batch.Unique.{Entered}
use android_apm_server.Db.Inbox.Insert.{InsertResult, find_event, same_content, insert_batch}
use android_apm_server.Db.Inbox.Insert.Rows.{insert_rows-append, IsFresh, insert_rows_le}
use android_apm_server.Db.Inbox.Insert.Checks.{existing_matches-content, same_content-signature}
use android_apm_server.Db.Inbox.Taken.{Agrees, IsMatched, IsTaken-IsMatched, insert_batch-IsTaken}

module _ (hmac : List ℕ → List ℕ → String) (fingerprint : ApmEvent → Option String)
    (dumps : Json → String) (sha256 : String → String) (bytes_of : Json → ℕ) (m : IngestMetadata)
    (keys : Option InstallationHmacKeyRing) (now : ℕ) where
  -- The rows that a batch has added, and its counts.
  pub record IsCounted (events : List ApmEvent) (rows rows' : List InboxEvent) (r : InsertResult)
      : Type 0 where
    pub added : List InboxEvent
    pub kept : rows' ≡ rows ++ added
    pub count : length added ≡ r.inserted
    pub fresh : All (IsFresh m bytes_of now) added
    pub received : r.received ≡ length events
    pub total : r.inserted + r.duplicates ≡ r.received

  -- The event has a row with its digest and its content.
  pub record IsStored (rows : List InboxEvent) (e : ApmEvent) : Type 0 where
    pub own : PreparedEvent
    pub made : prepare_event hmac fingerprint m e keys ≡ ok own
    pub row : InboxEvent
    pub there : find_event m.tenant_id e.event_id rows ≡ some row
    pub content : same_content m (hashed dumps sha256 own) row.identity ≡ true

  Entered-IsStored :
      (prepared : Prepared) (rows : List InboxEvent) (e : ApmEvent)
      → All (IsMatched hmac m keys rows) prepared
      → Entered hmac fingerprint dumps sha256 m keys prepared e
      → IsStored rows e
  Entered-IsStored prepared rows e matched entered =
      let item = entered.entry.item in
      let found =
        All-find_prepared (IsMatched hmac m keys rows) e.event_id item prepared matched
          entered.entry.found in
      record {
        own = entered.own;
        made = entered.made;
        row = found.row;
        there = found.there;
        content =
            same_content-signature m (hashed dumps sha256 entered.own) item found.row.identity
              entered.entry.signed
            ∙ existing_matches-content hmac m keys item found.row.identity found.matches;
      }

  All-Entered-IsStored :
      (prepared : Prepared) (rows : List InboxEvent) (events : List ApmEvent)
      → All (IsMatched hmac m keys rows) prepared
      → All (Entered hmac fingerprint dumps sha256 m keys prepared) events
      → All (IsStored rows) events
  All-Entered-IsStored prepared rows events matched entered =
      All-map (Entered hmac fingerprint dumps sha256 m keys prepared)
        (λ e h. Entered-IsStored prepared rows e matched h) events entered

  -- Where a batch is taken and no row that was compared has changed its identity since, every event of
  -- the batch has been prepared, and has a row under its id whose digest, scope, release identity and
  -- identity qualities are the event's.
  pub insert_batch-IsStored :
      (events : List ApmEvent) (seen rows rows' : List InboxEvent) (r : InsertResult)
      → Agrees m.tenant_id seen rows
      → insert_batch hmac fingerprint dumps sha256 bytes_of m events keys now seen rows
        ≡ ok (r, rows')
      → All (IsStored rows') events
  insert_batch-IsStored events seen rows rows' r same h =
      let t =
        insert_batch-IsTaken hmac m keys fingerprint dumps sha256 bytes_of now events seen rows
          rows' r h in
      All-Entered-IsStored t.prepared rows' events
        (IsTaken-IsMatched hmac m keys fingerprint dumps sha256 bytes_of now events seen rows rows'
          r same t)
        t.entered

  -- Where a batch is taken, the rows that were there stay as they were, in their places; behind them
  -- are as many new rows as are counted inserted, each pending, unclaimed and of the tenant; and the
  -- inserted and the duplicates together are the events of the batch.
  pub insert_batch-IsCounted :
      (events : List ApmEvent) (seen rows rows' : List InboxEvent) (r : InsertResult)
      → insert_batch hmac fingerprint dumps sha256 bytes_of m events keys now seen rows
        ≡ ok (r, rows')
      → IsCounted events rows rows' r
  insert_batch-IsCounted events seen rows rows' r h =
      let t =
        insert_batch-IsTaken hmac m keys fingerprint dumps sha256 bytes_of now events seen rows
          rows' r h in
      let (added, same, count, fresh) = insert_rows-append m bytes_of now t.prepared rows in
      let few = insert_rows_le m bytes_of now t.prepared rows in
      record {
        added = added;
        kept = sym t.inserted.table ∙ same;
        count = count ∙ t.inserted.count;
        fresh = fresh;
        received = t.inserted.received_all;
        total = omega (
          arith, few, t.unique.few, t.inserted.count, t.inserted.others, t.inserted.received_all,
        );
      }
