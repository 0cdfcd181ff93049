-- ===== src/Db/Symbolization/Enqueuing.antt =====
-- `enqueue_symbolization_jobs` of db/symbolization.py: the rows that it parks and their jobs.
use android_apm_server.Prelude.{
  ℕ, ◌<◌, ◌≡◌, refl, inl, inr, Bool, true, ◌&&◌, Option, none, some, List, [], ◌∷◌, ◌++◌, map,
  arith, ◌==◌, All, any, contains, select, Bool-cases, &&-true, if◌then◌else◌, ==_iff,
}
use android_apm_server.Db.Models.{InboxEvent, SymbolizationJob, Database, is_pending}
use android_apm_server.Db.Table.{update_where, Ascending}
use android_apm_server.Db.Symbolization.Creation.{
  job_value, with_value, job_values, next_id, insert_jobs, Enqueue, is_pending_job, for_inbox, park,
  enqueue_symbolization_jobs,
}
use android_apm_server.Db.Symbolization.Release.{open_for, IsWatched, IsReleasable}

-- Enqueuing only adds jobs.
insert_keeps :
    (test : SymbolizationJob → Bool) (jobs more : List SymbolizationJob)
    → any test jobs ≡ true
    → any test (jobs ++ more) ≡ true
insert_keeps test [] more h = cc
insert_keeps test (j ∷ js) more h = ground (arith, insert_keeps test js more)

any-append :
    (test : SymbolizationJob → Bool) (jobs : List SymbolizationJob) (v : SymbolizationJob)
    → test v ≡ true
    → any test (jobs ++ v ∷ []) ≡ true
any-append test [] v h = ground arith
any-append test (j ∷ js) v h = ground (arith, any-append test js v h)

any-insert_jobs :
    (test : SymbolizationJob → Bool) (vs jobs : List SymbolizationJob)
    → any test jobs ≡ true
    → any test (insert_jobs vs jobs).0 ≡ true
unfolding insert_jobs
any-insert_jobs test [] jobs h = h
any-insert_jobs test (v ∷ vs) jobs h = elim (Bool-cases (any (for_inbox v.inbox_event_id) jobs)) [
  | inl e ↦ rw e (any-insert_jobs test vs jobs h)
  | inr e ↦ rw e (
      any-insert_jobs test vs (jobs ++ record v { id = next_id jobs } ∷ [])
        (insert_keeps test jobs (record v { id = next_id jobs } ∷ []) h))
]

contains-inserted :
    (i : ℕ) (vs jobs : List SymbolizationJob)
    → contains (insert_jobs vs jobs).1 i ≡ true
    → any (for_inbox i) vs ≡ true
unfolding insert_jobs
contains-inserted i [] jobs h = h
contains-inserted i (v ∷ vs) jobs h = elim (Bool-cases (any (for_inbox v.inbox_event_id) jobs)) [
  | inl e ↦ ground (arith, contains-inserted i vs jobs)
  | inr e ↦ ground (arith, contains-inserted i vs (jobs ++ record v { id = next_id jobs } ∷ []))
]

above_values :
    (k i : ℕ) (vs : List SymbolizationJob)
    → All (λ v. k < v.inbox_event_id) vs
    → any (for_inbox i) vs ≡ true
    → k < i
above_values k i [] h m = absurd (cc)
above_values k i (v ∷ vs) h m = ground (arith, above_values k i vs h.1)

abbrev waits_for : ℕ → SymbolizationJob → Bool
waits_for i v = v.inbox_event_id == i && is_pending_job v

waits_for-inbox :
    (i : ℕ) (vs : List SymbolizationJob) → any (waits_for i) vs ≡ true → any (for_inbox i) vs ≡ true
waits_for-inbox i [] h = h
waits_for-inbox i (v ∷ vs) h = ground (arith, waits_for-inbox i vs)

later_value :
    (i : ℕ) (v : SymbolizationJob) (vs : List SymbolizationJob)
    → v.inbox_event_id < i
    → any (waits_for i) (v ∷ vs) ≡ true
    → any (waits_for i) vs ≡ true
later_value i v vs l w = ground arith

pending_value :
    (i : ℕ) (v : SymbolizationJob) (vs : List SymbolizationJob)
    → All (λ v'. v.inbox_event_id < v'.inbox_event_id) vs
    → (v.inbox_event_id == i) ≡ true
    → any (waits_for i) (v ∷ vs) ≡ true
    → open_for i v ≡ true
pending_value i v vs a same w =
    ground (arith, waits_for-inbox i vs, above_values v.inbox_event_id i vs a)

-- A value that is inserted, and that is pending, is an open job of its row.
open_inserted :
    (i : ℕ) (vs jobs : List SymbolizationJob)
    → Ascending (λ v. v.inbox_event_id) vs
    → contains (insert_jobs vs jobs).1 i ≡ true
    → any (waits_for i) vs ≡ true
    → any (open_for i) (insert_jobs vs jobs).0 ≡ true
unfolding insert_jobs
open_inserted i [] jobs a h w = absurd (cc)
open_inserted i (v ∷ vs) jobs a h w = elim (Bool-cases (any (for_inbox v.inbox_event_id) jobs)) [
  | inl e ↦
      let h' : contains (insert_jobs vs jobs).1 i ≡ true = ground arith in
      let l = above_values v.inbox_event_id i vs a.0 (contains-inserted i vs jobs h') in
      rw e (open_inserted i vs jobs a.1 h' (later_value i v vs l w))
  | inr e ↦ elim (Bool-cases (v.inbox_event_id == i)) [
    | inl same ↦ rw e (
        any-insert_jobs (open_for i) vs (jobs ++ record v { id = next_id jobs } ∷ []) (
          any-append (open_for i) jobs (record v { id = next_id jobs })
            (pending_value i v vs a.0 same w)))
    | inr other ↦ rw e (
        open_inserted i vs (jobs ++ record v { id = next_id jobs } ∷ []) a.1 (ground arith)
          (ground arith))
  ]
]

-- The values name their rows, in the rows' order.
job_value-inbox :
    (q : Enqueue) (row : InboxEvent) (v : SymbolizationJob)
    → job_value q row ≡ some v
    → v.inbox_event_id ≡ row.id
unfolding job_value
job_value-inbox q row v h = ground arith

above_with_value :
    (k i : ℕ) (o : Option SymbolizationJob) (vs : List SymbolizationJob)
    → ((v : SymbolizationJob) → o ≡ some v → v.inbox_event_id ≡ i)
    → k < i
    → All (λ v. k < v.inbox_event_id) vs
    → All (λ v. k < v.inbox_event_id) (with_value o vs)
above_with_value k i none vs same l h = h
above_with_value k i (some v) vs same l h = (rw (same v refl) l, h)

values-above :
    (q : Enqueue) (k : ℕ) (rows : List InboxEvent)
    → All (λ row. k < row.id) rows
    → All (λ v. k < v.inbox_event_id) (job_values q rows)
unfolding job_values
values-above q k [] h = tt
values-above q k (row ∷ rows) h =
    above_with_value k row.id (job_value q row) (job_values q rows) (job_value-inbox q row) h.0
      (values-above q k rows h.1)

Ascending-with_value :
    (i : ℕ) (o : Option SymbolizationJob) (vs : List SymbolizationJob)
    → ((v : SymbolizationJob) → o ≡ some v → v.inbox_event_id ≡ i)
    → All (λ v. i < v.inbox_event_id) vs
    → Ascending (λ v. v.inbox_event_id) vs
    → Ascending (λ v. v.inbox_event_id) (with_value o vs)
Ascending-with_value i none vs same h a = a
Ascending-with_value i (some v) vs same h a = (rw (same v refl) h, a)

values-Ascending :
    (q : Enqueue) (rows : List InboxEvent)
    → Ascending (λ row. row.id) rows
    → Ascending (λ v. v.inbox_event_id) (job_values q rows)
unfolding job_values
values-Ascending q [] h = tt
values-Ascending q (row ∷ rows) h =
    Ascending-with_value row.id (job_value q row) (job_values q rows) (job_value-inbox q row)
      (values-above q row.id rows h.0) (values-Ascending q rows h.1)

contains-select_head :
    (test : ℕ → Bool) (i x : ℕ) (xs : List ℕ)
    → (x == i) ≡ true
    → contains (select test (x ∷ xs)) i ≡ true
    → (contains (select test xs) i ≡ true → (contains xs i ≡ true) × (test i ≡ true))
    → test i ≡ true
contains-select_head test i x xs e h rest = elim (Bool-cases (test x)) [
  | inl p ↦ rw (← (==_iff x i).0 e) p
  | inr p ↦ (rest (ground arith)).1
]

contains-select :
    (test : ℕ → Bool) (i : ℕ) (xs : List ℕ)
    → contains (select test xs) i ≡ true
    → (contains xs i ≡ true) × (test i ≡ true)
contains-select test i [] h = absurd (cc)
contains-select test i (x ∷ xs) h = elim (Bool-cases (x == i)) [
  | inl e ↦ (rw e, contains-select_head test i x xs e h (contains-select test i xs))
  | inr e ↦ let rest = contains-select test i xs (ground arith) in (ground arith, rest.1)
]

contains-waiting :
    (i : ℕ) (vs : List SymbolizationJob)
    → contains (map (λ j. j.inbox_event_id) (select is_pending_job vs)) i ≡ true
    → any (waits_for i) vs ≡ true
contains-waiting i [] h = h
contains-waiting i (v ∷ vs) h = ground (arith, contains-waiting i vs)

-- The rows of one list, each watched before, are watched after the enqueue.
module _ (q : Enqueue) (db : Database) (ids : Ascending (λ row. row.id) db.inbox_events) where
  abbrev values : List SymbolizationJob
  values = job_values q db.inbox_events

  abbrev outcome : List SymbolizationJob × List ℕ
  outcome = insert_jobs values db.symbolization_jobs

  abbrev parked_ids : List ℕ
  parked_ids =
      select (contains (map (λ j. j.inbox_event_id) (select is_pending_job values))) outcome.1

  parked-open : (i : ℕ) → contains parked_ids i ≡ true → any (open_for i) outcome.0 ≡ true
  parked-open i h =
      let (inserted, waiting) =
        contains-select (contains (map (λ j. j.inbox_event_id) (select is_pending_job values))) i
          outcome.1 h in
      open_inserted i values db.symbolization_jobs (values-Ascending q db.inbox_events ids) inserted
        (contains-waiting i values waiting)

  IsWatched-row :
      (row : InboxEvent)
      → IsWatched db.symbolization_jobs row
      → IsWatched outcome.0
          (if contains parked_ids row.id && is_pending row.delivery.status then park row else row)
  unfolding park
  IsWatched-row row w =
      elim (Bool-cases (contains parked_ids row.id && is_pending row.delivery.status)) [
        | inl e ↦ rw e (λ a. parked-open row.id (&&-true _ _ e).0)
        | inr e ↦ rw e (λ a. any-insert_jobs (open_for row.id) values db.symbolization_jobs (w a))
      ]

  IsWatched-rows :
      (rows : List InboxEvent)
      → All (IsWatched db.symbolization_jobs) rows
      → All (IsWatched outcome.0) (
          update_where
            (λ row. contains parked_ids row.id && is_pending row.delivery.status)
            park
            rows)
  unfolding update_where
  IsWatched-rows [] h = tt
  IsWatched-rows (row ∷ rows) h = (IsWatched-row row h.0, IsWatched-rows rows h.1)

  pub enqueue-IsReleasable : IsReleasable db → IsReleasable (enqueue_symbolization_jobs q db).0
  unfolding enqueue_symbolization_jobs
  enqueue-IsReleasable h = IsWatched-rows db.inbox_events h
