-- ===== src/Db/Symbolization/Evolution.antt =====
-- The operations of db/symbolization.py on the inbox, as steps of the custody machine.
use android_apm_server.Prelude.{
  ℕ, String, ◌≡◌, refl, inl, inr, true, ◌&&◌, List, arith, ◌==◌, &&-true, Bool-cases, is_none, not,
  any,
}
use android_apm_server.Db.Models.{
  JobType, Delivery, InboxEvent, SymbolizationJob, Database, is_pending, is_awaiting_symbols,
}
use android_apm_server.Db.Table.{Pointwise}
use android_apm_server.Db.Table.Rows.{Pointwise-update_where, Pointwise-refl, Pointwise-trans}
use android_apm_server.Db.Custody.{
  At, waiting, parked, custody, park, unpark, here, one_move, Evolution, Evolution-refl,
  Evolution-trans,
}
use android_apm_server.Db.Symbolization.{owns_job}
use android_apm_server.Db.Symbolization.Creation
use android_apm_server.Db.Symbolization.Creation.{Enqueue, enqueue_symbolization_jobs}
use android_apm_server.Db.Symbolization.Completion.{
  Completion, JobFailure, release, release_inbox, publish, publish_issue, mark_symbolized,
  mark_symbolization_failed, job_should_retry, supported_completion, committed,
}

module _ (actor : String) (t : ℕ) where
  abbrev Evolves : InboxEvent → InboxEvent → Type 0
  Evolves = Evolution actor (At t)

  pending-waiting : (d : Delivery) → is_pending d.status ≡ true → custody d ≡ waiting
  unfolding custody
  pending-waiting d h = ground arith

  awaiting-parked : (d : Delivery) → is_awaiting_symbols d.status ≡ true → custody d ≡ parked
  unfolding custody
  awaiting-parked d h = ground arith

  park-Evolution :
      (row : InboxEvent) → is_pending row.delivery.status ≡ true → Evolves row (Creation.park row)
  unfolding Creation.park custody
  park-Evolution row h = record {
    same_id = refl;
    same_identity = refl;
    trail = one_move t refl (park (pending-waiting row.delivery h) refl);
  }

  release-Evolution :
      (row : InboxEvent)
      → is_awaiting_symbols row.delivery.status ≡ true
      → Evolves row (release row)
  unfolding release custody
  release-Evolution row h = record {
    same_id = refl;
    same_identity = refl;
    trail = one_move t refl (unpark (awaiting-parked row.delivery h) refl);
  }

  pub release_inbox-Evolution :
      (i : ℕ) (rows : List InboxEvent) → Pointwise Evolves rows (release_inbox i rows)
  unfolding release_inbox
  release_inbox-Evolution i rows =
      Pointwise-update_where Evolves (λ row. row.id == i && is_awaiting_symbols row.delivery.status)
        release rows (λ row h. release-Evolution row (&&-true (row.id == i) _ h).1)
        (Evolution-refl actor (At t))

  publish-Evolution :
      (fingerprint : String) (row : InboxEvent) → Evolves row (publish fingerprint row)
  unfolding publish
  publish-Evolution fingerprint row = record { same_id = refl; same_identity = refl; trail = here }

  pub publish_issue-Evolution :
      (kind : JobType) (i : ℕ) (fingerprint : String) (rows : List InboxEvent)
      → Pointwise Evolves rows (publish_issue kind i fingerprint rows)
  unfolding publish_issue
  publish_issue-Evolution JobType.native i fingerprint rows =
      Pointwise-refl Evolves rows (Evolution-refl actor (At t))
  publish_issue-Evolution JobType.java i fingerprint rows =
      Pointwise-update_where Evolves
        (λ row. row.id == i && not (is_none row.evidence.incident_fingerprint))
        (publish fingerprint) rows (λ row h. publish-Evolution fingerprint row)
        (Evolution-refl actor (At t))

  pub enqueue-Evolution :
      (q : Enqueue) (db : Database)
      → Pointwise Evolves db.inbox_events (enqueue_symbolization_jobs q db).0.inbox_events
  unfolding enqueue_symbolization_jobs
  enqueue-Evolution q db =
      Pointwise-update_where Evolves _ Creation.park db.inbox_events
        (λ row h. park-Evolution row (&&-true _ _ h).1) (Evolution-refl actor (At t))

  pub completion-Evolution :
      (job : SymbolizationJob) (fingerprint : String) (rows : List InboxEvent)
      → Pointwise Evolves rows (
          release_inbox job.inbox_event_id
            (publish_issue job.job_type job.inbox_event_id fingerprint rows))
  completion-Evolution job fingerprint rows =
      Pointwise-trans Evolves rows (publish_issue job.job_type job.inbox_event_id fingerprint rows)
        _ (Evolution-trans actor (At t))
        (publish_issue-Evolution job.job_type job.inbox_event_id fingerprint rows)
        (release_inbox-Evolution job.inbox_event_id _)

  pub mark_failed-Evolution :
      (owner : String) (job : SymbolizationJob) (f : JobFailure) (observed : ℕ) (db : Database)
      → Pointwise Evolves db.inbox_events
          (mark_symbolization_failed owner job f observed db).1.inbox_events
  unfolding mark_symbolization_failed
  mark_failed-Evolution owner job f observed db =
      elim (Bool-cases (any (owns_job owner job.id observed) db.symbolization_jobs)) [
        | inl e ↦ elim (Bool-cases (job_should_retry f job.attempt_count)) [
          | inl again ↦
              rw (e, again) (Pointwise-refl Evolves db.inbox_events (Evolution-refl actor (At t)))
          | inr final ↦ rw (e, final) (release_inbox-Evolution job.inbox_event_id db.inbox_events)
        ]
        | inr e ↦ rw e (Pointwise-refl Evolves db.inbox_events (Evolution-refl actor (At t)))
      ]

  pub mark_symbolized-Evolution :
      (owner : String) (job : SymbolizationJob) (c : Completion) (observed : ℕ) (db : Database)
      → Pointwise Evolves db.inbox_events
          (committed (mark_symbolized owner job c observed db) db).inbox_events
  unfolding mark_symbolized
  mark_symbolized-Evolution owner job c observed db =
      elim (Bool-cases (supported_completion c.status job.job_type)) [
        | inl s ↦ elim (Bool-cases (any (owns_job owner job.id observed) db.symbolization_jobs)) [
          | inl e ↦ rw (s, e) (completion-Evolution job c.fingerprint_sha256 db.inbox_events)
          | inr e ↦ rw (s, e) (Pointwise-refl Evolves db.inbox_events (Evolution-refl actor (At t)))
        ]
        | inr s ↦ rw s (Pointwise-refl Evolves db.inbox_events (Evolution-refl actor (At t)))
      ]
