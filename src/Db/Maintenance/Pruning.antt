-- ===== src/Db/Maintenance/Pruning.antt =====
-- The rows that `maintain_once` of db/maintenance.py prunes, and the capacity check after it.
use android_apm_server.Prelude.{
  ℕ, ◌+◌, ◌≤◌, ◌≡◌, refl, ◌⊎◌, inl, inr, Bool, true, false, none, some, List, [], ◌∷◌, length,
  select, arith, Bool-cases, length-take, ◌↔◌,
}
use android_apm_server.Errors.{ok}
use android_apm_server.Db.Models.{InboxStatus, InboxEvent, SymbolizationJob, Database}
use android_apm_server.Db.Table.{Pointwise, Ascending}
use android_apm_server.Db.Table.Rows.{Pointwise-update_first, Pointwise-refl}
use android_apm_server.Db.Table.Claims.{update_chosen-first}
use android_apm_server.Db.Maintenance.{
  RetentionSettings, is_live_status, raw_bytes, check_inbox_capacity, prunable, prune,
  maintain_once, has_unfinished_job, terminal_time, days,
}

-- The row is as it was, or its raw evidence is gone: then its export was over for the days that its
-- status asks for, and no job for it was unfinished.
abbrev pub IsKeptOrPruned :
    RetentionSettings → ℕ → List SymbolizationJob → InboxEvent → InboxEvent → Type 0
IsKeptOrPruned settings observed jobs before now =
    (now ≡ before)
    ⊎ ((now.id ≡ before.id)
        × (now.identity ≡ before.identity)
        × (now.delivery.status ≡ before.delivery.status)
        × (now.evidence.payload_size_bytes ≡ 0)
        × (now.evidence.raw_pruned_at ≡ some observed)
        × (before.evidence.raw_pruned_at ≡ none)
        × (has_unfinished_job jobs before ≡ false)
        × (((before.delivery.status ≡ InboxStatus.delivered)
              × (terminal_time before.delivery + days settings.delivered_retention_days ≤ observed))
            ⊎ ((before.delivery.status ≡ InboxStatus.dead_letter)
                × (terminal_time before.delivery + days settings.dead_letter_retention_days
                    ≤ observed))))

prune-IsKeptOrPruned :
    (settings : RetentionSettings) (observed : ℕ) (locked : ℕ → Bool) (jobs : List SymbolizationJob)
    (row : InboxEvent)
    → prunable settings observed locked jobs row ≡ true
    → IsKeptOrPruned settings observed jobs row (prune observed row)
unfolding prunable prune
prune-IsKeptOrPruned settings observed locked jobs row h = inr (
  refl,
  refl,
  refl,
  refl,
  refl,
  ground (arith, h),
  ground (arith, h),
  go row.delivery.status refl,
)
  where
    go :
        (s : InboxStatus)
        → row.delivery.status ≡ s
        → ((row.delivery.status ≡ InboxStatus.delivered)
            × (terminal_time row.delivery + days settings.delivered_retention_days ≤ observed))
          ⊎ ((row.delivery.status ≡ InboxStatus.dead_letter)
              × (terminal_time row.delivery + days settings.dead_letter_retention_days ≤ observed))
    go InboxStatus.delivered e = inl (e, ground (arith, e, h))
    go InboxStatus.dead_letter e = inr (e, ground (arith, e, h))
    go InboxStatus.pending e = absurd (ground (arith, e, h))
    go InboxStatus.processing e = absurd (ground (arith, e, h))
    go InboxStatus.awaiting_symbols e = absurd (ground (arith, e, h))

-- One maintenance cycle leaves each row of an inbox whose keys ascend as it was, or removes its raw
-- evidence and keeps its key, identity and status; it removes that of a row only once, and only of a
-- delivered row or a dead letter that has passed its retention days and has no unfinished job.
pub maintain_once-IsKeptOrPruned :
    (settings : RetentionSettings) (observed : ℕ) (locked : ℕ → Bool) (db : Database)
    → Ascending (λ row. row.id) db.inbox_events
    → Pointwise
        (IsKeptOrPruned settings observed db.symbolization_jobs)
        db.inbox_events
        (maintain_once settings observed locked db).0.inbox_events
unfolding maintain_once
maintain_once-IsKeptOrPruned settings observed locked db h =
    let R = IsKeptOrPruned settings observed db.symbolization_jobs in
    let test = prunable settings observed locked db.symbolization_jobs in
    elim (Bool-cases settings.retention_enabled) [
      | inl e ↦
          rw
            (
              e,
              update_chosen-first (λ row. row.id) settings.retention_batch_size test
                  (prune observed) db.inbox_events h,
            )
            (Pointwise-update_first R settings.retention_batch_size test (prune observed)
              db.inbox_events (prune-IsKeptOrPruned settings observed locked db.symbolization_jobs)
              (λ row. inl refl))
      | inr e ↦ rw e (Pointwise-refl R db.inbox_events (λ row. inl refl))
    ]

abbrev pub live_count : List InboxEvent → ℕ
live_count rows = length (select (λ row. is_live_status row.delivery.status) rows)

-- Admission is given exactly where the answer comes in time and the backlog and the raw evidence are within
-- their limits; the
-- count that stops above the limit decides like the whole count.
pub check_inbox_capacity-ok :
    (settings : RetentionSettings) (timely : Bool) (rows : List InboxEvent)
    → (check_inbox_capacity settings timely rows ≡ ok tt) ↔ (
        (timely ≡ true)
        × (live_count rows ≤ settings.inbox_max_live_events)
        × (raw_bytes rows ≤ settings.inbox_max_raw_bytes))
unfolding check_inbox_capacity
check_inbox_capacity-ok settings timely rows =
    let counted =
      length-take (settings.inbox_max_live_events + 1)
        (select (λ row. is_live_status row.delivery.status) rows) in
    ((λ h. ground (arith, counted, h)), λ h. ground (arith, counted, h))

pruned-capacity :
    (settings : RetentionSettings) (observed : ℕ) (jobs : List SymbolizationJob)
    (rows rows' : List InboxEvent)
    → Pointwise (IsKeptOrPruned settings observed jobs) rows rows'
    → (live_count rows' ≡ live_count rows) × (raw_bytes rows' ≤ raw_bytes rows)
unfolding raw_bytes
pruned-capacity settings observed jobs [] [] h = (refl, omega arith)
pruned-capacity settings observed jobs [] (y ∷ ys) h = elim h [ ]
pruned-capacity settings observed jobs (x ∷ xs) [] h = elim h [ ]
pruned-capacity settings observed jobs (x ∷ xs) (y ∷ ys) (inl e, hs) =
    let (same, less) = pruned-capacity settings observed jobs xs ys hs in
    rw e (ground (arith, same), omega (arith, less))
pruned-capacity settings observed jobs (x ∷ xs) (y ∷ ys) (inr p, hs) =
    let (same, less) = pruned-capacity settings observed jobs xs ys hs in
    let still : y.delivery.status ≡ x.delivery.status = p.2 in
    let gone : y.evidence.raw_pruned_at ≡ some observed = p.4 in
    (rw still (ground (arith, same)), rw gone (omega (arith, less)))

-- Where a batch is admitted, it is still admitted after a maintenance cycle on an inbox whose keys
-- ascend.
pub maintain_once-admission :
    (settings : RetentionSettings) (observed : ℕ) (locked : ℕ → Bool) (timely : Bool)
    (db : Database)
    → Ascending (λ row. row.id) db.inbox_events
    → check_inbox_capacity settings timely db.inbox_events ≡ ok tt
    → check_inbox_capacity settings timely
        (maintain_once settings observed locked db).0.inbox_events
      ≡ ok tt
maintain_once-admission settings observed locked timely db h admitted =
    let rows' = (maintain_once settings observed locked db).0.inbox_events in
    let (in_time, backlog, raw) =
      (check_inbox_capacity-ok settings timely db.inbox_events).0 admitted in
    let (same, less) =
      pruned-capacity settings observed db.symbolization_jobs db.inbox_events rows'
        (maintain_once-IsKeptOrPruned settings observed locked db h) in
    (check_inbox_capacity-ok settings timely rows').1
      (in_time, omega (arith, same, backlog), omega (arith, less, raw))
