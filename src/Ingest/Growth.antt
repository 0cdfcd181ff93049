-- ===== src/Ingest/Growth.antt =====
-- The inbox over the histories of Ingest/History.antt, row by row: old rows in their places, new ones
-- behind them.
use android_apm_server.Prelude.{
  ℕ, sym, ap, inl, inr, String, Bool, Option, List, [], ◌∷◌, subst, All,
}
use android_apm_server.Json.{Json}
use android_apm_server.Domain.{ApmEvent}
use android_apm_server.Db.Models.{InboxEvent, Database}
use android_apm_server.Db.Table.{Pointwise, Ascending}
use android_apm_server.Db.Table.Rows.{Pointwise-refl}
use android_apm_server.Db.Table.Growth.{Grows, Pointwise-Grows, Grows-append, Grows-trans}
use android_apm_server.Db.Inbox.Insert.{InsertResult}
use android_apm_server.Db.Inbox.Stored.{insert_batch-IsCounted}
use android_apm_server.Db.Maintenance.{RetentionSettings, maintain_once}
use android_apm_server.Db.Symbolization.Creation.{Enqueue}
use android_apm_server.Db.System.{Action, symbols, enqueues, act, symbolize}
use android_apm_server.Ingest.Transaction.{Store, IngestSettings}
use android_apm_server.Ingest.History.{
  IngestRequest, Happening, request, process, maintenance, happen, history,
}
use android_apm_server.Ingest.Outcome.{
  enqueue_of, run_of, IsCommitted, commit_batch-IsCommitted, run_of-cases,
}
use android_apm_server.Ingest.Persistence.{IsCommitted-Lasts, happen-Lasts}

-- A relation that each step keeps, from old rows to new ones.
pub record Step (R : InboxEvent → InboxEvent → Type 0) (IsAllowed : Happening → Type 0)
    : Type 0 where
  pub same : (row : InboxEvent) → R row row
  pub chain : (a b c : InboxEvent) → R a b → R b c → R a c
  pub acts :
      (a : Action) (db : Database)
      → Ascending (λ row. row.id) db.inbox_events
      → IsAllowed (process a)
      → Pointwise R db.inbox_events (act a db).inbox_events
  pub enqueues_jobs :
      (q : Enqueue) (db : Database)
      → Ascending (λ row. row.id) db.inbox_events
      → Pointwise R db.inbox_events (act (symbols (enqueues q)) db).inbox_events
  pub maintains :
      (settings : RetentionSettings) (observed : ℕ) (locked : ℕ → Bool) (db : Database)
      → Ascending (λ row. row.id) db.inbox_events
      → Pointwise R db.inbox_events (maintain_once settings observed locked db).0.inbox_events

module _ (hmac : List ℕ → List ℕ → String) (fingerprint : ApmEvent → Option String)
    (dumps : Json → String) (sha256 : String → String) (bytes_of : Json → ℕ)
    {R : InboxEvent → InboxEvent → Type 0} {IsAllowed : Happening → Type 0}
    (step : Step R IsAllowed) where
  abbrev inbox : Store → List InboxEvent
  inbox store = store.database.inbox_events

  IsCommitted-Grows :
      (settings : IngestSettings) (r : IngestRequest) (store after : Store) (result : InsertResult)
      → Ascending (λ row. row.id) (inbox store)
      → IsCommitted hmac fingerprint dumps sha256 bytes_of settings r store after result
      → Grows R (inbox store) (inbox after)
  unfolding act symbolize
  IsCommitted-Grows settings r store after result a c =
      let counted =
        insert_batch-IsCounted hmac fingerprint dumps sha256 bytes_of r.metadata r.keys r.moment.now
          r.events r.seen (inbox store) c.rows result c.inserted in
      let (first, second) =
        IsCommitted-Lasts hmac fingerprint dumps sha256 bytes_of settings r store after result a
          c in
      let added : Grows R (inbox store) c.rows =
        subst (Grows R (inbox store)) (sym counted.kept)
          (Grows-append R (inbox store) counted.added step.same) in
      let enqueued =
        step.enqueues_jobs (enqueue_of hmac fingerprint dumps sha256 bytes_of settings r)
          (record { inbox_events = c.rows; symbolization_jobs = store.database.symbolization_jobs })
          first.ascending in
      Grows-trans R (inbox store) c.rows (inbox after) step.chain added (
        subst (λ (db : Database). Grows R c.rows db.inbox_events) (sym c.database)
          (Pointwise-Grows R c.rows _ enqueued))

  happen-Grows :
      (h : Happening) (store : Store)
      → Ascending (λ row. row.id) (inbox store)
      → IsAllowed h
      → Grows R (inbox store) (inbox (happen hmac fingerprint dumps sha256 bytes_of h store))
  unfolding happen
  happen-Grows (request settings r) store a allowed =
      let after = (run_of hmac fingerprint dumps sha256 bytes_of settings r store).1 in
      elim (run_of-cases hmac fingerprint dumps sha256 bytes_of settings r store) [
        | inl (result, e) ↦ IsCommitted-Grows settings r store after result a (
            commit_batch-IsCommitted hmac fingerprint dumps sha256 bytes_of settings r store after
              result (ap (λ o. (o, after)) e))
        | inr (e, failed, unchanged) ↦
            subst (λ (s : Store). Grows R (inbox store) (inbox s)) (sym unchanged)
              (Pointwise-Grows R (inbox store) (inbox store)
                (Pointwise-refl R (inbox store) step.same))
      ]
  happen-Grows (process action) store a allowed =
      Pointwise-Grows R (inbox store) _ (step.acts action store.database a allowed)
  happen-Grows (maintenance settings observed locked) store a allowed =
      Pointwise-Grows R (inbox store) _ (step.maintains settings observed locked store.database a)

  pub history-Grows :
      (hs : List Happening) (store : Store)
      → Ascending (λ row. row.id) (inbox store)
      → All IsAllowed hs
      → Grows R (inbox store) (inbox (history hmac fingerprint dumps sha256 bytes_of hs store))
  unfolding history
  history-Grows [] store a allowed =
      Pointwise-Grows R (inbox store) (inbox store) (Pointwise-refl R (inbox store) step.same)
  history-Grows (h ∷ hs) store a allowed =
      let after = happen hmac fingerprint dumps sha256 bytes_of h store in
      let kept = happen-Lasts hmac fingerprint dumps sha256 bytes_of h store a in
      Grows-trans R (inbox store) (inbox after) _ step.chain (happen-Grows h store a allowed.0)
        (history-Grows hs after kept.ascending allowed.1)
