-- ===== src/Ingest/Persistence.antt =====
-- The inbox rows over the histories of Ingest/History.antt.
use android_apm_server.Prelude.{
  ℕ, ◌≡◌, refl, sym, ap, inl, inr, String, Option, some, List, [], ◌∷◌, subst,
}
use android_apm_server.Errors.{Result, ok}
use android_apm_server.Json.{Json}
use android_apm_server.Domain.{ApmEvent, IngestMetadata}
use android_apm_server.Identity.{InstallationHmacKeyRing}
use android_apm_server.Db.Models.{InboxEvent, Database}
use android_apm_server.Db.Table.{Ascending}
use android_apm_server.Db.Inbox.Insert.{InsertResult, insert_batch}
use android_apm_server.Db.Inbox.Insert.Rows.{find_event-append_some}
use android_apm_server.Db.Inbox.Insert.Keys.{insert_rows-Ascending}
use android_apm_server.Db.Inbox.Taken.{insert_batch-IsTaken}
use android_apm_server.Db.Inbox.Stored.{insert_batch-IsCounted}
use android_apm_server.Db.System.{symbols, enqueues, act, symbolize}
use android_apm_server.Ingest.Transaction.{Store, IngestSettings}
use android_apm_server.Db.Inbox.Insert.{find_event}
use android_apm_server.Ingest.History.{
  IngestRequest, Happening, request, process, maintenance, Lasts, Lasts-trans, Lasts-refl,
  act-Lasts, maintain_once-Lasts, happen, history,
}
use android_apm_server.Ingest.Outcome.{
  enqueue_of, enqueued_of, run_of, IsCommitted, commit_batch-IsCommitted,
}
use android_apm_server.Ingest.Outcome.{run_of-cases}

module _ (hmac : List ℕ → List ℕ → String) (fingerprint : ApmEvent → Option String)
    (dumps : Json → String) (sha256 : String → String) (bytes_of : Json → ℕ) where
  insert_batch-Lasts :
      (m : IngestMetadata) (events : List ApmEvent) (keys : Option InstallationHmacKeyRing)
      (now : ℕ) (seen rows rows' : List InboxEvent) (result : InsertResult)
      → Ascending (λ row. row.id) rows
      → insert_batch hmac fingerprint dumps sha256 bytes_of m events keys now seen rows
        ≡ ok (result, rows')
      → Lasts rows rows'
  insert_batch-Lasts m events keys now seen rows rows' result h e =
      let t =
        insert_batch-IsTaken hmac m keys fingerprint dumps sha256 bytes_of now events seen rows
          rows' result e in
      let c =
        insert_batch-IsCounted hmac fingerprint dumps sha256 bytes_of m keys now events seen rows
          rows' result e in
      record {
        persists = λ t k row there. (
          row,
          subst (λ rows'. find_event t k rows' ≡ some row) (sym c.kept)
              (find_event-append_some t k rows c.added row there),
          refl,
        );
        ascending =
            subst (Ascending (λ (row : InboxEvent). row.id)) t.inserted.table
              (insert_rows-Ascending m bytes_of now t.prepared rows h);
      }

  module _ (settings : IngestSettings) (r : IngestRequest) where
    abbrev inbox : Store → List InboxEvent
    inbox store = store.database.inbox_events

    abbrev submit : Store → Result InsertResult × Store
    submit = run_of hmac fingerprint dumps sha256 bytes_of settings r

    enqueue-Lasts :
        (store : Store) (rows : List InboxEvent)
        → Ascending (λ row. row.id) rows
        → Lasts rows
            (enqueued_of hmac fingerprint dumps sha256 bytes_of settings r store rows).inbox_events
    unfolding act symbolize
    enqueue-Lasts store rows h =
        act-Lasts
          (symbols (enqueues (enqueue_of hmac fingerprint dumps sha256 bytes_of settings r)))
          (record { inbox_events = rows; symbolization_jobs = store.database.symbolization_jobs }) h

    pub IsCommitted-Lasts :
        (store after : Store) (result : InsertResult)
        → Ascending (λ row. row.id) (inbox store)
        → (c : IsCommitted hmac fingerprint dumps sha256 bytes_of settings r store after result)
        → Lasts (inbox store) c.rows × Lasts c.rows (inbox after)
    IsCommitted-Lasts store after result h c =
        let first =
          insert_batch-Lasts r.metadata r.events r.keys r.moment.now r.seen (inbox store) c.rows
            result h c.inserted in
        (
          first,
          subst (λ (db : Database). Lasts c.rows db.inbox_events) (sym c.database)
              (enqueue-Lasts store c.rows first.ascending),
        )

    submit-Lasts :
        (store : Store)
        → Ascending (λ row. row.id) (inbox store)
        → Lasts (inbox store) (inbox (submit store).1)
    submit-Lasts store h =
        elim (run_of-cases hmac fingerprint dumps sha256 bytes_of settings r store) [
          | inl (result, e) ↦
              let c =
                commit_batch-IsCommitted hmac fingerprint dumps sha256 bytes_of settings r store
                  (submit store).1 result (ap (λ o. (o, (submit store).1)) e) in
              let (first, second) = IsCommitted-Lasts store (submit store).1 result h c in
              Lasts-trans (inbox store) c.rows (inbox (submit store).1) first second
          | inr (e, failed, same) ↦
              subst (λ (s : Store). Lasts (inbox store) (inbox s)) (sym same)
                (Lasts-refl (inbox store) h)
        ]

  pub happen-Lasts :
      (h : Happening) (store : Store)
      → Ascending (λ row. row.id) store.database.inbox_events
      → Lasts store.database.inbox_events
          (happen hmac fingerprint dumps sha256 bytes_of h store).database.inbox_events
  unfolding happen
  happen-Lasts (request settings r) store a = submit-Lasts settings r store a
  happen-Lasts (process action) store a = act-Lasts action store.database a
  happen-Lasts (maintenance settings observed locked) store a =
      maintain_once-Lasts settings observed locked store.database a

  pub history-Lasts :
      (hs : List Happening) (store : Store)
      → Ascending (λ row. row.id) store.database.inbox_events
      → Lasts store.database.inbox_events
          (history hmac fingerprint dumps sha256 bytes_of hs store).database.inbox_events
  unfolding history
  history-Lasts [] store a = Lasts-refl store.database.inbox_events a
  history-Lasts (h ∷ hs) store a =
      let after = happen hmac fingerprint dumps sha256 bytes_of h store in
      let first = happen-Lasts h store a in
      Lasts-trans store.database.inbox_events after.database.inbox_events _ first
        (history-Lasts hs after first.ascending)
