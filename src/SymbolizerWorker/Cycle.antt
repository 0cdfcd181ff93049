-- ===== src/SymbolizerWorker/Cycle.antt =====
-- A cycle of symbolizer_worker.py, turn by turn.
use android_apm_server.Prelude.{
  ℕ, suc, ◌≤◌, ◌≡◌, refl, sym, ap, ◌∙◌, inl, inr, Bool, Option, none, some, List, [], ◌∷◌, ◌++◌,
  length, length-take-le, take, arith, leb, Bool-cases,
}
use android_apm_server.Db.Models.{SymbolizationJob, Database}
use android_apm_server.Db.Symbolization.{claim_symbolization_batch, start_symbolization_attempt}
use android_apm_server.Db.Symbolization.Completion.{Completion, mark_symbolized, committed}
use android_apm_server.Db.System.{
  Action, symbols, job_claims, attempts, misses, completions, job_failures, run, act, symbolize,
}
use android_apm_server.ExportWorker.Cycle.{run-append}
use android_apm_server.SymbolizerWorker.{
  SymbolizerSettings, SymbolizationFailure, ToolRun, succeeded, raised, Turn, failure_of,
  internal_failure, attempts_exhausted, record_failure, completed, complete_run, finish_run,
  attempted, with_artifact, process_stopped, process_claim, after_claim, symbolize_turns,
  symbolize_once,
}

-- The second database is reached from the first by some history.
abbrev pub IsHistory : Database → Database → Type 0
IsHistory db db' = (as' : List Action) × (db' ≡ run as' db)

IsHistory-refl : (db : Database) → IsHistory db db
unfolding run
IsHistory-refl db = ([], refl)

IsHistory-run : (as' : List Action) (db : Database) → IsHistory db (run as' db)
IsHistory-run as' db = (as', refl)

IsHistory-trans : (a b c : Database) → IsHistory a b → IsHistory b c → IsHistory a c
IsHistory-trans a b c (xs, p) (ys, q) =
    (xs ++ ys, q ∙ ap (λ db. run ys db) p ∙ sym (run-append xs ys a))

IsHistory-act : (a : Action) (db : Database) → IsHistory db (act a db)
unfolding run
IsHistory-act a db = (a ∷ [], refl)

module _ (settings : SymbolizerSettings) (turn : Turn) where
  record_failure-IsHistory :
      (job : SymbolizationJob) (error : SymbolizationFailure) (db : Database)
      → IsHistory db (record_failure settings turn job error db).1
  unfolding record_failure act symbolize
  record_failure-IsHistory job error db =
      IsHistory-act
        (symbols (job_failures turn.owner job (failure_of settings error) turn.finished_at)) db

  completed-IsHistory :
      (job : SymbolizationJob) (c : Completion) (db : Database) (o : Option (Bool × Database))
      → IsHistory db (committed o db)
      → IsHistory db (completed settings turn job c db o).1
  completed-IsHistory job c db none h = record_failure-IsHistory job internal_failure db
  completed-IsHistory job c db (some (changed, db')) h = h

  complete_run-IsHistory :
      (job : SymbolizationJob) (c : Completion) (db : Database)
      → IsHistory db (complete_run settings turn job c db).1
  unfolding complete_run act symbolize
  complete_run-IsHistory job c db =
      completed-IsHistory job c db (mark_symbolized turn.owner job c turn.finished_at db)
        (IsHistory-act (symbols (completions turn.owner job c turn.finished_at)) db)

  finish_run-IsHistory :
      (job : SymbolizationJob) (tool : ToolRun) (db : Database)
      → IsHistory db (finish_run settings turn job tool db).1
  finish_run-IsHistory job (succeeded c) db = complete_run-IsHistory job c db
  finish_run-IsHistory job (raised error) db = record_failure-IsHistory job error db

  attempted-IsHistory :
      (job : Option SymbolizationJob) (db : Database)
      → IsHistory db (attempted settings turn job db).1
  attempted-IsHistory none db = IsHistory-refl db
  attempted-IsHistory (some job) db =
      IsHistory-trans db (run turn.while_running db) _ (IsHistory-run turn.while_running db)
        (finish_run-IsHistory job turn.tool (run turn.while_running db))

  with_artifact-IsHistory :
      (job : SymbolizationJob) (resolved : Option ℕ) (db : Database)
      → IsHistory db (with_artifact settings turn job resolved db).1
  unfolding act symbolize
  with_artifact-IsHistory job none db =
      IsHistory-act
        (symbols
          (misses turn.owner job.id "No exact symbol artifact is registered" turn.started_at))
        db
  with_artifact-IsHistory job (some artifact) db =
      let start =
        start_symbolization_attempt turn.owner job settings.symbolizer_max_attempts turn.started_at
          db in
      elim (Bool-cases (leb settings.symbolizer_max_attempts job.attempt_count)) [
        | inl e ↦ rw e (record_failure-IsHistory job attempts_exhausted db)
        | inr e ↦ rw e (
            IsHistory-trans db start.1 _
              (IsHistory-act
                (symbols (attempts turn.owner job settings.symbolizer_max_attempts turn.started_at))
                db)
              (attempted-IsHistory start.0 start.1))
      ]

  process_stopped-IsHistory :
      (job : SymbolizationJob) (stopped : Option SymbolizationFailure) (db : Database)
      → IsHistory db (process_stopped settings turn job stopped db).1
  process_stopped-IsHistory job (some error) db = record_failure-IsHistory job error db
  process_stopped-IsHistory job none db = with_artifact-IsHistory job turn.resolved db

  process_claim-IsHistory :
      (job : SymbolizationJob) (db : Database) → IsHistory db (process_claim settings turn job db).1
  unfolding process_claim
  process_claim-IsHistory job db =
      IsHistory-trans db (run turn.while_resolving db) _ (IsHistory-run turn.while_resolving db)
        (process_stopped-IsHistory job turn.stopped (run turn.while_resolving db))

  claim-IsHistory :
      (db : Database)
      → IsHistory db
          (claim_symbolization_batch turn.owner 1 settings.symbolizer_lease_seconds turn.claimed_at
            turn.locked
            (run turn.before_claim db)).1
  unfolding act symbolize
  claim-IsHistory db =
      IsHistory-trans db (run turn.before_claim db) _ (IsHistory-run turn.before_claim db) (
        IsHistory-act
          (symbols
            (job_claims turn.owner 1 settings.symbolizer_lease_seconds turn.claimed_at turn.locked))
          (run turn.before_claim db))

after_claim-IsHistory :
    (settings : SymbolizerSettings) (turn : Turn) (n : ℕ) (more : Database → ℕ × Database)
    (claimed : Database) (jobs : List SymbolizationJob)
    → ((db : Database) → ((more db).0 ≤ n) × IsHistory db (more db).1)
    → ((after_claim settings turn more claimed jobs).0 ≤ suc n)
      × IsHistory claimed (after_claim settings turn more claimed jobs).1
after_claim-IsHistory settings turn n more claimed [] step = (omega arith, IsHistory-refl claimed)
after_claim-IsHistory settings turn n more claimed (job ∷ rest) step =
    let done = process_claim settings turn job claimed in
    let (few, later) = step done.1 in
    (
      ground (arith, few),
      IsHistory-trans claimed done.1 _ (process_claim-IsHistory settings turn job claimed) later,
    )

symbolize_turns-IsHistory :
    (settings : SymbolizerSettings) (turns : List Turn) (db : Database)
    → ((symbolize_turns settings turns db).0 ≤ length turns)
      × IsHistory db (symbolize_turns settings turns db).1
unfolding symbolize_turns
symbolize_turns-IsHistory settings [] db = (omega arith, IsHistory-refl db)
symbolize_turns-IsHistory settings (turn ∷ turns) db =
    let claim =
      claim_symbolization_batch turn.owner 1 settings.symbolizer_lease_seconds turn.claimed_at
        turn.locked (run turn.before_claim db) in
    let (few, later) =
      after_claim-IsHistory settings turn (length turns) (symbolize_turns settings turns) claim.1
        claim.0 (symbolize_turns-IsHistory settings turns) in
    (few, IsHistory-trans db claim.1 _ (claim-IsHistory settings turn db) later)

-- A cycle of the symbolizer changes at most as many jobs as its batch size, and what it does to the
-- database, with the other processes between its transactions, is a history of committed transactions
-- of the system.
pub symbolize_once-IsHistory :
    (settings : SymbolizerSettings) (turns : List Turn) (db : Database)
    → ((symbolize_once settings turns db).0 ≤ settings.symbolizer_batch_size)
      × IsHistory db (symbolize_once settings turns db).1
unfolding symbolize_once
symbolize_once-IsHistory settings turns db = elim (Bool-cases settings.symbolization_enabled) [
  | inl e ↦
      let chosen = take settings.symbolizer_batch_size turns in
      let (few, history) = symbolize_turns-IsHistory settings chosen db in
      let size = length-take-le settings.symbolizer_batch_size turns in
      rw e (omega (arith, few, size), history)
  | inr e ↦ rw e (omega arith, IsHistory-refl db)
]
