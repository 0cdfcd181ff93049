-- ===== src/Db/System.antt =====
-- The transactions of the export workers (db/worker.py) and of symbolization (db/symbolization.py) on
-- the inbox and its jobs, in any order. Each action is one committed transaction: enqueuing by the
-- ingest, claims, attempts, missing artifacts, completions, failures and wake-ups. The insertion of
-- inbox rows and maintenance are not among them; Ingest/History has those.
pub mod Custody
pub mod Delivery
pub mod Release
use android_apm_server.Prelude.{
  ℕ, zero, suc, ◌≤◌, ◌<◌, max, String, ◌≡◌, ◌≢◌, ◌⊎◌, Bool, true, false, Option, none, some, List,
  [], ◌∷◌, All,
}
use android_apm_server.Db.Models.{InboxEvent, SymbolizationJob, Database}
use android_apm_server.Db.Worker.{Failure, claim_batch, mark_delivered, mark_failed}
use android_apm_server.Db.Symbolization.{
  claim_symbolization_batch, start_symbolization_attempt, mark_symbols_missing,
  requeue_matching_missing_jobs,
}
use android_apm_server.Db.Symbolization.Creation.{Enqueue, enqueue_symbolization_jobs}
use android_apm_server.Db.Symbolization.Completion.{
  Completion, JobFailure, mark_symbolized, mark_symbolization_failed, committed,
}
use android_apm_server.Db.Symbolization.Identity.{ArtifactIdentity}

pub data WorkerAction : Type 0 where
  claims : String → ℕ → ℕ → ℕ → (ℕ → Bool) → WorkerAction
  deliveries : String → List ℕ → ℕ → WorkerAction
  failures : String → List (InboxEvent × ℕ) → Failure → WorkerAction

pub data SymbolAction : Type 0 where
  enqueues : Enqueue → SymbolAction
  job_claims : String → ℕ → ℕ → ℕ → (ℕ → Bool) → SymbolAction
  attempts : String → SymbolizationJob → ℕ → ℕ → SymbolAction
  misses : String → ℕ → String → ℕ → SymbolAction
  completions : String → SymbolizationJob → Completion → ℕ → SymbolAction
  job_failures : String → SymbolizationJob → JobFailure → ℕ → SymbolAction
  wakes : ArtifactIdentity → ℕ → SymbolAction

pub data Action : Type 0 where
  worker : WorkerAction → Action
  symbols : SymbolAction → Action

unfoldable pub work : WorkerAction → List InboxEvent → List InboxEvent
work (claims owner limit lease_seconds observed locked) rows =
    (claim_batch owner limit lease_seconds observed locked rows).1
work (deliveries owner ids observed) rows = (mark_delivered owner ids observed rows).0
work (failures owner events failure) rows = (mark_failed owner events failure rows).0

unfoldable pub symbolize : SymbolAction → Database → Database
symbolize (enqueues q) db = (enqueue_symbolization_jobs q db).0
symbolize (job_claims owner limit lease_seconds observed locked) db =
    (claim_symbolization_batch owner limit lease_seconds observed locked db).1
symbolize (attempts owner job max_attempts observed) db =
    (start_symbolization_attempt owner job max_attempts observed db).1
symbolize (misses owner job_id message observed) db =
    (mark_symbols_missing owner job_id message observed db).1
symbolize (completions owner job c observed) db =
    committed (mark_symbolized owner job c observed db) db
symbolize (job_failures owner job f observed) db =
    (mark_symbolization_failed owner job f observed db).1
symbolize (wakes identity now) db = (requeue_matching_missing_jobs identity now db).0

unfoldable pub act : Action → Database → Database
unfolding work symbolize
act (worker a) db = record db { inbox_events = work a db.inbox_events }
act (symbols a) db = symbolize a db

unfoldable pub run : List Action → Database → Database
unfolding act
run [] db = db
run (a ∷ as') db = run as' (act a db)

abbrev pub actor : WorkerAction → String
actor (claims owner limit lease_seconds observed locked) = owner
actor (deliveries owner ids observed) = owner
actor (failures owner events failure) = owner

abbrev pub latest : List (InboxEvent × ℕ) → ℕ
latest [] = 0
latest ((event, observed) ∷ events) = max observed (latest events)

-- The last clock reading of an action.
abbrev pub horizon : WorkerAction → ℕ
horizon (claims owner limit lease_seconds observed locked) = observed
horizon (deliveries owner ids observed) = observed
horizon (failures owner events failure) = latest events

-- The times at which an action reads the clock for its writes.
abbrev pub IsAmong : List (InboxEvent × ℕ) → ℕ → Type 0
IsAmong [] t = ⊥
IsAmong ((event, observed) ∷ events) t = (t ≡ observed) ⊎ IsAmong events t

abbrev pub IsReading : WorkerAction → ℕ → Type 0
IsReading (claims owner limit lease_seconds observed locked) t = t ≡ observed
IsReading (deliveries owner ids observed) t = t ≡ observed
IsReading (failures owner events failure) t = IsAmong events t

-- The job in the caller's hands is one that the table knows: its key leads to the same inbox row.
abbrev pub IsKnown : SymbolizationJob → Database → Type 0
IsKnown job db =
    All (λ row. row.id ≡ job.id → row.inbox_event_id ≡ job.inbox_event_id) db.symbolization_jobs

abbrev pub IsHonest : Action → Database → Type 0
IsHonest (symbols (completions owner job c observed)) db = IsKnown job db
IsHonest (symbols (job_failures owner job f observed)) db = IsKnown job db
IsHonest _ db = Unit
