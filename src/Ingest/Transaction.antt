-- ===== src/Ingest/Transaction.antt =====
-- The transaction of `ingest_events`: the charge, the inbox rows, the symbolization jobs and the
-- capacity check, which are committed together or rolled back together.
use android_apm_server.Prelude.{ℕ, String, Bool, not, Option, List, length, ◌==◌, if◌then◌else◌}
use android_apm_server.Errors.{Result, ok, err, ◌>>=◌, ◌>>◌, refuse_if}
use android_apm_server.Json.{Json}
use android_apm_server.Domain.{ApmEvent, IngestMetadata}
use android_apm_server.Identity.{InstallationHmacKeyRing}
use android_apm_server.Auth.{IngestPrincipal}
use android_apm_server.Db.Models.{InboxEvent, SymbolizationJob, Database}
use android_apm_server.Db.Quota.{Principal, IngestRateWindow, consume_quota}
use android_apm_server.Db.Inbox.Prepare.{unexpected}
use android_apm_server.Db.Inbox.Insert.{InsertResult, insert_batch}
use android_apm_server.Db.Symbolization.Creation.{enqueue_symbolization_jobs}
use android_apm_server.Db.Maintenance.{RetentionSettings, check_inbox_capacity}

-- The tables that the transaction writes.
pub record Store : Type 0 where
  pub windows : List IngestRateWindow
  pub database : Database

-- The clocks of the quota, the inbox and the jobs; `timely` is false where the capacity check runs into
-- its timeout, `commits` is false where the commit fails.
pub record Moment : Type 0 where
  pub observed : ℕ
  pub now : ℕ
  pub timely : Bool
  pub commits : Bool

pub record IngestSettings : Type 0 where
  pub symbolization_enabled : Bool
  pub retention : RetentionSettings

abbrev pub quota_principal : IngestPrincipal → Principal
quota_principal p = record {
  key_id = p.key_id;
  requests_per_minute = p.requests_per_minute;
  events_per_minute = p.events_per_minute;
}

-- `if result.inserted: await check_inbox_capacity(session, settings)`
unfoldable pub admit : IngestSettings → Bool → ℕ → List InboxEvent → Result (Unit {0})
admit settings timely inserted rows =
    if inserted == 0 then ok tt else check_inbox_capacity settings.retention timely rows

-- The commit, or the rollback to the state before.
abbrev pub committed_or : Result (InsertResult × Store) → Store → Result InsertResult × Store
committed_or (ok (result, after)) before = (ok result, after)
committed_or (err e) before = (err e, before)

module _ (hmac : List ℕ → List ℕ → String) (fingerprint : ApmEvent → Option String)
    (dumps : Json → String) (sha256 : String → String) (bytes_of : Json → ℕ) where
  -- What follows the insertion.
  unfoldable pub complete :
      IngestSettings
      → Moment
      → IngestMetadata
      → List ApmEvent
      → List IngestRateWindow
      → List SymbolizationJob
      → InsertResult × List InboxEvent
      → Result (InsertResult × Store)
  unfolding admit
  complete settings moment m events windows jobs (result, rows) =
      let (database, waiting) =
        enqueue_symbolization_jobs
          (record {
            tenant_id = m.tenant_id;
            events = events;
            enabled = settings.symbolization_enabled;
            now = moment.now;
            sha256 = sha256;
          })
          (record { inbox_events = rows; symbolization_jobs = jobs }) in
      admit settings moment.timely result.inserted database.inbox_events
      >> (refuse_if (not moment.commits) unexpected
          >> ok (result, record { windows = windows; database = database }))

  -- The try block. `seen` is the inbox at the first read of insert_batch, `store` the state that the
  -- transaction writes to, with what other transactions have committed since.
  unfoldable pub commit_batch :
      IngestSettings
      → Moment
      → IngestPrincipal
      → IngestMetadata
      → List ApmEvent
      → Option InstallationHmacKeyRing
      → List InboxEvent
      → Store
      → Result InsertResult × Store
  unfolding complete
  commit_batch settings moment p m events keys seen store =
      let (charged, windows) =
        consume_quota (quota_principal p) (length events) moment.observed store.windows in
      committed_or
        (charged
          >> (insert_batch hmac fingerprint dumps sha256 bytes_of m events keys moment.now seen
                store.database.inbox_events
              >>= complete settings moment m events windows store.database.symbolization_jobs))
        store
