-- ===== src/Ingest/Release.antt =====
-- The inbox rows that await symbols and their jobs, over histories of Ingest/History.antt.
use android_apm_server.Prelude.{
  ℕ, refl, sym, ap, ◌∙◌, inl, inr, String, Bool, Option, List, [], ◌∷◌, subst, All, All-append,
  Bool-cases, arith,
}
use android_apm_server.Json.{Json}
use android_apm_server.Domain.{ApmEvent, IngestMetadata}
use android_apm_server.Db.Models.{InboxEvent, SymbolizationJob, Database, is_awaiting_symbols}
use android_apm_server.Db.Table.{Pointwise, Ascending}
use android_apm_server.Db.Table.Rows.{Pointwise-map, Pointwise-update_where, Pointwise-refl}
use android_apm_server.Db.Inbox.Insert.{InsertResult}
use android_apm_server.Db.Inbox.Insert.Rows.{IsFresh}
use android_apm_server.Db.Inbox.Stored.{insert_batch-IsCounted}
use android_apm_server.Db.Maintenance.{RetentionSettings, maintain_once, prune_job}
use android_apm_server.Db.Maintenance.Pruning.{IsKeptOrPruned, maintain_once-IsKeptOrPruned}
use android_apm_server.Db.Symbolization.Release.{
  IsReleasable, IsWatched, StaysOpen, StartsNoWait, IsReleasable-jobs, IsReleasable-rows,
}
use android_apm_server.Db.System.{symbols, enqueues, act, symbolize, IsHonest}
use android_apm_server.Db.System.Release.{IsSound, act-IsSound}
use android_apm_server.Ingest.Transaction.{Store, IngestSettings}
use android_apm_server.Ingest.History.{
  IngestRequest, Happening, request, process, maintenance, happen, maintain_once-Lasts,
}
use android_apm_server.Ingest.Outcome.{
  enqueue_of, run_of, IsCommitted, commit_batch-IsCommitted, run_of-cases,
}
use android_apm_server.Ingest.Persistence.{IsCommitted-Lasts}

fresh-IsWatched :
    (m : IngestMetadata) (bytes_of : Json → ℕ) (now : ℕ) (jobs : List SymbolizationJob)
    (rows : List InboxEvent)
    → All (IsFresh m bytes_of now) rows
    → All (IsWatched jobs) rows
fresh-IsWatched m bytes_of now jobs [] h = tt
fresh-IsWatched m bytes_of now jobs (row ∷ rows) h = (
  λ waits. let pending = h.0.pending in absurd (ground (arith, pending, waits)),
  fresh-IsWatched m bytes_of now jobs rows h.1,
)

Pruned-NoWait :
    (settings : RetentionSettings) (observed : ℕ) (jobs : List SymbolizationJob) (x y : InboxEvent)
    → IsKeptOrPruned settings observed jobs x y
    → StartsNoWait x y
Pruned-NoWait settings observed jobs x y (inl e) = rw e (refl, λ h. h)
Pruned-NoWait settings observed jobs x y (inr p) =
    (p.0, λ h. ap (λ s. is_awaiting_symbols s) (sym p.2) ∙ h)

prune_job-StaysOpen : (job : SymbolizationJob) → StaysOpen job (prune_job job)
unfolding prune_job
prune_job-StaysOpen job = (refl, λ h. h)

maintain_once-StaysOpen :
    (settings : RetentionSettings) (observed : ℕ) (locked : ℕ → Bool) (db : Database)
    → Pointwise StaysOpen db.symbolization_jobs
        (maintain_once settings observed locked db).0.symbolization_jobs
unfolding maintain_once
maintain_once-StaysOpen settings observed locked db = elim (Bool-cases settings.retention_enabled) [
  | inl e ↦ rw e (
      Pointwise-update_where StaysOpen _ prune_job db.symbolization_jobs
        (λ job h. prune_job-StaysOpen job) (λ job. (refl, λ h. h)))
  | inr e ↦ rw e (Pointwise-refl StaysOpen db.symbolization_jobs (λ job. (refl, λ h. h)))
]

maintain_once-IsReleasable :
    (settings : RetentionSettings) (observed : ℕ) (locked : ℕ → Bool) (db : Database)
    → Ascending (λ row. row.id) db.inbox_events
    → IsReleasable db
    → IsReleasable (maintain_once settings observed locked db).0
maintain_once-IsReleasable settings observed locked db h r =
    let rows = (maintain_once settings observed locked db).0.inbox_events in
    let same =
      IsReleasable-rows db.symbolization_jobs db.inbox_events rows
        (Pointwise-map (IsKeptOrPruned settings observed db.symbolization_jobs) StartsNoWait
          db.inbox_events rows (Pruned-NoWait settings observed db.symbolization_jobs)
          (maintain_once-IsKeptOrPruned settings observed locked db h))
        r in
    IsReleasable-jobs rows db.symbolization_jobs
      (maintain_once settings observed locked db).0.symbolization_jobs
      (maintain_once-StaysOpen settings observed locked db) same

-- The handler's histories, with what a symbolizer knows of the jobs that it finishes.
abbrev pub IsHonestHappening : Happening → Store → Type 0
IsHonestHappening (process a) store = IsHonest a store.database
IsHonestHappening _ store = Unit

module _ (hmac : List ℕ → List ℕ → String) (fingerprint : ApmEvent → Option String)
    (dumps : Json → String) (sha256 : String → String) (bytes_of : Json → ℕ) where
  pub data Reach (start : Store) : Store → Type 0 where
    here : Reach start start
    next :
        {store : Store} (h : Happening)
        → Reach start store
        → IsHonestHappening h store
        → Reach start (happen hmac fingerprint dumps sha256 bytes_of h store)

  IsCommitted-IsSound :
      (settings : IngestSettings) (r : IngestRequest) (store after : Store) (result : InsertResult)
      → IsSound store.database
      → IsCommitted hmac fingerprint dumps sha256 bytes_of settings r store after result
      → IsSound after.database
  unfolding act symbolize
  IsCommitted-IsSound settings r store after result s c =
      let old = store.database.inbox_events in
      let jobs = store.database.symbolization_jobs in
      let counted =
        insert_batch-IsCounted hmac fingerprint dumps sha256 bytes_of r.metadata r.keys r.moment.now
          r.events r.seen old c.rows result c.inserted in
      let (first, second) =
        IsCommitted-Lasts hmac fingerprint dumps sha256 bytes_of settings r store after result
          s.ids_ascend c in
      let watched : All (IsWatched jobs) c.rows = subst (All (IsWatched jobs)) (sym counted.kept) (
        All-append (IsWatched jobs) old counted.added s.releasable
          (fresh-IsWatched r.metadata bytes_of r.moment.now jobs counted.added counted.fresh)) in
      subst IsSound (sym c.database) (
        act-IsSound
          (symbols (enqueues (enqueue_of hmac fingerprint dumps sha256 bytes_of settings r)))
          (record { inbox_events = c.rows; symbolization_jobs = jobs }) tt
          (record { ids_ascend = first.ascending; releasable = watched }))

  happen-IsSound :
      (h : Happening) (store : Store)
      → IsHonestHappening h store
      → IsSound store.database
      → IsSound (happen hmac fingerprint dumps sha256 bytes_of h store).database
  unfolding happen
  happen-IsSound (request settings r) store honest s =
      let after = (run_of hmac fingerprint dumps sha256 bytes_of settings r store).1 in
      elim (run_of-cases hmac fingerprint dumps sha256 bytes_of settings r store) [
        | inl (result, e) ↦ IsCommitted-IsSound settings r store after result s (
            commit_batch-IsCommitted hmac fingerprint dumps sha256 bytes_of settings r store after
              result (ap (λ o. (o, after)) e))
        | inr (e, failed, unchanged) ↦ subst (λ (s : Store). IsSound s.database) (sym unchanged) s
      ]
  happen-IsSound (process a) store honest s = act-IsSound a store.database honest s
  happen-IsSound (maintenance settings observed locked) store honest s = record {
    ids_ascend =
        (maintain_once-Lasts settings observed locked store.database s.ids_ascend).ascending;
    releasable =
        maintain_once-IsReleasable settings observed locked store.database s.ids_ascend
          s.releasable;
  }

  -- From sound tables, in every state that any interleaving of requests, actions of the workers and
  -- maintenance cycles reaches, the keys of the inbox ascend, and each inbox row that awaits symbols has
  -- a job that is pending, in progress or waiting for its artifact. The jobs that the symbolizer
  -- completes or fails are ones that the table knows.
  pub Reach-IsSound :
      {start store : Store} → Reach start store → IsSound start.database → IsSound store.database
  Reach-IsSound here s = s
  Reach-IsSound (next {store = mid} h r honest) s = happen-IsSound h mid honest (Reach-IsSound r s)
