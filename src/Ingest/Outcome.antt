-- ===== src/Ingest/Outcome.antt =====
-- `commit_batch`, the transaction of `ingest_events`, case by case.
use android_apm_server.Prelude.{
  ℕ, ◌≡◌, refl, sym, ap, ◌∙◌, inl, inr, String, true, not, Option, List, length, arith, ◌⊎◌,
}
use android_apm_server.Errors.{
  ApiError, Result, ok, err, ◌>>=◌, ◌>>◌, refuse_if, found_ok, found_then,
}
use android_apm_server.Json.{Json}
use android_apm_server.Domain.{ApmEvent}
use android_apm_server.Db.Models.{InboxEvent, Database}
use android_apm_server.Db.Quota.{IngestRateWindow, consume_quota}
use android_apm_server.Db.Inbox.Prepare.{unexpected}
use android_apm_server.Db.Inbox.Insert.{InsertResult, insert_batch}
use android_apm_server.Db.Symbolization.Creation.{Enqueue, enqueue_symbolization_jobs}
use android_apm_server.Ingest.Transaction.{
  Store, IngestSettings, quota_principal, admit, complete, committed_or, commit_batch,
}
use android_apm_server.Ingest.History.{IngestRequest}

module _ (before : Store) where
  committed_or-ok :
      (outcome : Result (InsertResult × Store)) (r : InsertResult) (after : Store)
      → committed_or outcome before ≡ (ok r, after)
      → outcome ≡ ok (r, after)
  committed_or-ok (ok (result, store)) r after h = cc h
  committed_or-ok (err e) r after h = absurd (cc h)

  pub committed_or-err :
      (outcome : Result (InsertResult × Store)) (e : ApiError) (after : Store)
      → committed_or outcome before ≡ (err e, after)
      → after ≡ before
  committed_or-err (ok (result, store)) e after h = absurd (cc h)
  committed_or-err (err raised) e after h = cc h

module _ (hmac : List ℕ → List ℕ → String) (fingerprint : ApmEvent → Option String)
    (dumps : Json → String) (sha256 : String → String) (bytes_of : Json → ℕ)
    (settings : IngestSettings) (r : IngestRequest) where
  abbrev pub charge_of : Store → Result (Unit {0}) × List IngestRateWindow
  charge_of store =
      consume_quota (quota_principal r.principal) (length r.events) r.moment.observed store.windows

  abbrev pub enqueue_of : Enqueue
  enqueue_of = record {
    tenant_id = r.metadata.tenant_id;
    events = r.events;
    enabled = settings.symbolization_enabled;
    now = r.moment.now;
    sha256 = sha256;
  }

  abbrev pub enqueued_of : Store → List InboxEvent → Database
  enqueued_of store rows =
      (enqueue_symbolization_jobs enqueue_of
        (record { inbox_events = rows; symbolization_jobs = store.database.symbolization_jobs })).0

  -- What a committed request has passed and written.
  pub record IsCommitted (store after : Store) (result : InsertResult) : Type 0 where
    pub rows : List InboxEvent
    pub charged : (charge_of store).0 ≡ ok tt
    pub windows : after.windows ≡ (charge_of store).1
    pub inserted :
        insert_batch hmac fingerprint dumps sha256 bytes_of r.metadata r.events r.keys r.moment.now
          r.seen store.database.inbox_events
        ≡ ok (result, rows)
    pub admitted :
        admit settings r.moment.timely result.inserted after.database.inbox_events ≡ ok tt
    pub database : after.database ≡ enqueued_of store rows
    pub committed : r.moment.commits ≡ true

  complete-ok :
      (store after : Store) (result result' : InsertResult) (rows : List InboxEvent)
      → complete hmac fingerprint dumps sha256 bytes_of settings r.moment r.metadata r.events
          (charge_of store).1
          store.database.symbolization_jobs
          (result', rows)
        ≡ ok (result, after)
      → (admit settings r.moment.timely result'.inserted (enqueued_of store rows).inbox_events
          ≡ ok tt)
        × (result' ≡ result)
        × (record { windows = (charge_of store).1; database = enqueued_of store rows } ≡ after)
        × (r.moment.commits ≡ true)
  unfolding complete
  complete-ok store after result result' rows h =
      let done : Result (InsertResult × Store) =
        ok (result', record { windows = (charge_of store).1; database = enqueued_of store rows }) in
      let (u, (admitted, rest)) =
        found_then
          (admit settings r.moment.timely result'.inserted (enqueued_of store rows).inbox_events)
          (refuse_if (not r.moment.commits) unexpected >> done) (result, after) h in
      let (v, (commits, last)) =
        found_then (refuse_if (not r.moment.commits) unexpected) done (result, after) rest in
      (admitted, cc last, cc last, ground (arith, commits))

  abbrev pub run_of : Store → Result InsertResult × Store
  run_of store =
      commit_batch hmac fingerprint dumps sha256 bytes_of settings r.moment r.principal r.metadata
        r.events r.keys r.seen store

  pub commit_batch-IsCommitted :
      (store after : Store) (result : InsertResult)
      → run_of store ≡ (ok result, after)
      → IsCommitted store after result
  unfolding commit_batch
  commit_batch-IsCommitted store after result h =
      let insertion =
        insert_batch hmac fingerprint dumps sha256 bytes_of r.metadata r.events r.keys r.moment.now
          r.seen store.database.inbox_events in
      let completion =
        complete hmac fingerprint dumps sha256 bytes_of settings r.moment r.metadata r.events
          (charge_of store).1 store.database.symbolization_jobs in
      let (u, (charged, rest)) =
        found_then (charge_of store).0 (insertion >>= completion) (result, after)
          (committed_or-ok store _ result after h) in
      let ((result', rows), (inserted, last)) =
        found_ok insertion completion (result, after) rest in
      let (admitted, same, written, commits) = complete-ok store after result result' rows last in
      record {
        rows = rows;
        charged = charged;
        windows = ap (λ s. s.windows) (sym written);
        inserted = inserted ∙ ap (λ result. ok (result, rows)) same;
        admitted =
            ap
              (λ (done : InsertResult).
                admit settings r.moment.timely done.inserted after.database.inbox_events)
              (sym same)
            ∙ ap
                (λ (s : Store).
                  admit settings r.moment.timely result'.inserted s.database.inbox_events)
                (sym written)
            ∙ admitted;
        database = ap (λ s. s.database) (sym written);
        committed = commits;
      }

  pub commit_batch_rolled_back :
      (store after : Store) (e : ApiError) → run_of store ≡ (err e, after) → after ≡ store
  unfolding commit_batch
  commit_batch_rolled_back store after e h = committed_or-err store _ e after h

  pub run_of-cases :
      (store : Store)
      → ((result : InsertResult) × ((run_of store).0 ≡ ok result))
        ⊎ ((e : ApiError) × ((run_of store).0 ≡ err e) × ((run_of store).1 ≡ store))
  run_of-cases store = go (run_of store).0 refl
    where
      go :
          (outcome : Result InsertResult)
          → (run_of store).0 ≡ outcome
          → ((result : InsertResult) × ((run_of store).0 ≡ ok result))
            ⊎ ((e : ApiError) × ((run_of store).0 ≡ err e) × ((run_of store).1 ≡ store))
      go (ok result) same = inl (result, same)
      go (err e) same = inr (
        e,
        same,
        commit_batch_rolled_back store (run_of store).1 e (ap (λ o. (o, (run_of store).1)) same),
      )
