-- ===== src/Ingest/Atomicity.antt =====
-- The transaction of `ingest_events` of api/ingest.py, by its outcome.
use android_apm_server.Prelude.{
  ℕ, ◌≡◌, sym, ap, inl, inr, String, true, Option, List, length, arith, ◌⊎◌, Bool-cases, ◌==◌, ◌+◌,
}
use android_apm_server.Errors.{ApiError, ok, err}
use android_apm_server.Json.{Json}
use android_apm_server.Domain.{ApmEvent}
use android_apm_server.Db.Models.{InboxEvent}
use android_apm_server.Db.Quota.{consume_quota}
use android_apm_server.Db.Inbox.Insert.{InsertResult}
use android_apm_server.Db.Inbox.Stored.{insert_batch-IsCounted}
use android_apm_server.Ingest.Transaction.{Store, IngestSettings, quota_principal, admit}
use android_apm_server.Ingest.History.{IngestRequest}
use android_apm_server.Ingest.Outcome.{run_of, commit_batch-IsCommitted}
use android_apm_server.Db.Maintenance.{check_inbox_capacity}
use android_apm_server.Ingest.Outcome.{run_of-cases}

module _ (hmac : List ℕ → List ℕ → String) (fingerprint : ApmEvent → Option String)
    (dumps : Json → String) (sha256 : String → String) (bytes_of : Json → ℕ)
    (settings : IngestSettings) (r : IngestRequest) where
  -- The request is charged, its events are counted, and the inbox with new rows is within its limits.
  pub record IsAcknowledged (store after : Store) (result : InsertResult) : Type 0 where
    pub charged :
        consume_quota
          (quota_principal r.principal)
          (length r.events)
          r.moment.observed
          store.windows
        ≡ (ok tt, after.windows)
    pub received : result.received ≡ length r.events
    pub total : result.inserted + result.duplicates ≡ result.received
    pub admitted :
        (result.inserted ≡ 0)
        ⊎ (check_inbox_capacity settings.retention r.moment.timely after.database.inbox_events
            ≡ ok tt)
    pub committed : r.moment.commits ≡ true

  admit-cases :
      (inserted : ℕ) (rows : List InboxEvent)
      → admit settings r.moment.timely inserted rows ≡ ok tt
      → (inserted ≡ 0) ⊎ (check_inbox_capacity settings.retention r.moment.timely rows ≡ ok tt)
  unfolding admit
  admit-cases inserted rows h = elim (Bool-cases (inserted == 0)) [
    | inl e ↦ inl (ground (arith, e))
    | inr e ↦ inr (ground (arith, e, h))
  ]

  -- A batch is acknowledged, and then its request is charged to the quota, each of its events is counted
  -- inserted or duplicate, and the inbox after it is within its limits if a row is new; or it is
  -- refused, and then the quota, the inbox and the jobs are as they were.
  pub commit_batch-outcome :
      (store : Store)
      → ((result : InsertResult) × ((run_of hmac fingerprint dumps sha256 bytes_of settings r
              store).0
            ≡ ok result)
          × IsAcknowledged store
              (run_of hmac fingerprint dumps sha256 bytes_of settings r store).1
              result)
        ⊎ ((e : ApiError) × ((run_of hmac fingerprint dumps sha256 bytes_of settings r store).0
              ≡ err e)
            × ((run_of hmac fingerprint dumps sha256 bytes_of settings r store).1 ≡ store))
  commit_batch-outcome store =
      let after = (run_of hmac fingerprint dumps sha256 bytes_of settings r store).1 in
      elim (run_of-cases hmac fingerprint dumps sha256 bytes_of settings r store) [
        | inl (result, e) ↦
            let c =
              commit_batch-IsCommitted hmac fingerprint dumps sha256 bytes_of settings r store after
                result (ap (λ o. (o, after)) e) in
            let counted =
              insert_batch-IsCounted hmac fingerprint dumps sha256 bytes_of r.metadata r.keys
                r.moment.now r.events r.seen store.database.inbox_events c.rows result c.inserted in
            inl (
              result,
              e,
              record {
                charged = cc (c.charged, sym c.windows);
                received = counted.received;
                total = counted.total;
                admitted = admit-cases result.inserted after.database.inbox_events c.admitted;
                committed = c.committed;
              },
            )
        | inr failed ↦ inr failed
      ]
