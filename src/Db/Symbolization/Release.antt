-- ===== src/Db/Symbolization/Release.antt =====
-- The inbox rows that await symbols and their jobs, under the operations of db/symbolization.py.
use android_apm_server.Prelude.{
  ℕ, ◌≡◌, ◌≢◌, ◌⊎◌, inl, inr, Bool, true, false, ◌&&◌, List, [], ◌∷◌, arith, ◌==◌, All, any,
}
use android_apm_server.Db.Models.{
  SymbolStatus, InboxEvent, SymbolizationJob, Database, is_awaiting_symbols,
}
use android_apm_server.Db.Table.{Pointwise}
use android_apm_server.Db.Table.Rows.{All-Pointwise}

abbrev pub is_open : SymbolStatus → Bool
is_open SymbolStatus.pending = true
is_open SymbolStatus.processing = true
is_open SymbolStatus.symbols_missing = true
is_open _ = false

abbrev pub open_for : ℕ → SymbolizationJob → Bool
open_for i job = job.inbox_event_id == i && is_open job.status

abbrev pub IsWatched : List SymbolizationJob → InboxEvent → Type 0
IsWatched jobs row =
    is_awaiting_symbols row.delivery.status ≡ true → any (open_for row.id) jobs ≡ true

abbrev pub IsReleasable : Database → Type 0
IsReleasable db = All (IsWatched db.symbolization_jobs) db.inbox_events

-- A job may be finished only for one inbox row, `i`; every other open job stays open.
abbrev pub KeepsOpen : ℕ → SymbolizationJob → SymbolizationJob → Type 0
KeepsOpen i before now =
    (now.inbox_event_id ≡ before.inbox_event_id)
    × ((before.inbox_event_id ≡ i) ⊎ (is_open before.status ≡ true → is_open now.status ≡ true))

any-KeepsOpen :
    (i k : ℕ) (xs ys : List SymbolizationJob)
    → k ≢ i
    → Pointwise (KeepsOpen i) xs ys
    → any (open_for k) xs ≡ true
    → any (open_for k) ys ≡ true
any-KeepsOpen i k [] [] n p h = h
any-KeepsOpen i k [] (y ∷ ys) n p h = elim p [ ]
any-KeepsOpen i k (x ∷ xs) [] n p h = elim p [ ]
any-KeepsOpen i k (x ∷ xs) (y ∷ ys) n p h = ground (arith, any-KeepsOpen i k xs ys n p.1)

-- Watching only needs that open jobs stay open and that no row starts to wait.
abbrev pub StaysOpen : SymbolizationJob → SymbolizationJob → Type 0
StaysOpen before now =
    (now.inbox_event_id ≡ before.inbox_event_id)
    × (is_open before.status ≡ true → is_open now.status ≡ true)

any-StaysOpen :
    (k : ℕ) (xs ys : List SymbolizationJob)
    → Pointwise StaysOpen xs ys
    → any (open_for k) xs ≡ true
    → any (open_for k) ys ≡ true
any-StaysOpen k [] [] p h = h
any-StaysOpen k [] (y ∷ ys) p h = elim p [ ]
any-StaysOpen k (x ∷ xs) [] p h = elim p [ ]
any-StaysOpen k (x ∷ xs) (y ∷ ys) p h = ground (arith, any-StaysOpen k xs ys p.1)

abbrev pub StartsNoWait : InboxEvent → InboxEvent → Type 0
StartsNoWait before now =
    (now.id ≡ before.id)
    × (is_awaiting_symbols now.delivery.status ≡ true
        → is_awaiting_symbols before.delivery.status ≡ true)

-- Jobs change and rows do not.
pub IsReleasable-jobs :
    (rows : List InboxEvent) (xs ys : List SymbolizationJob)
    → Pointwise StaysOpen xs ys
    → All (IsWatched xs) rows
    → All (IsWatched ys) rows
IsReleasable-jobs [] xs ys p h = tt
IsReleasable-jobs (row ∷ rows) xs ys p h =
    (λ a. any-StaysOpen row.id xs ys p (h.0 a), IsReleasable-jobs rows xs ys p h.1)

-- Rows change and jobs do not.
pub IsReleasable-rows :
    (jobs : List SymbolizationJob) (xs ys : List InboxEvent)
    → Pointwise StartsNoWait xs ys
    → All (IsWatched jobs) xs
    → All (IsWatched jobs) ys
IsReleasable-rows jobs xs ys p h =
    All-Pointwise (IsWatched jobs) (IsWatched jobs) StartsNoWait xs ys
      (λ x y r w a. rw r.0 (w (r.1 a))) p h

-- Jobs of one row finish, and that row waits no longer.
abbrev pub Released : ℕ → InboxEvent → InboxEvent → Type 0
Released i before now =
    StartsNoWait before now × ((before.id ≢ i) ⊎ (is_awaiting_symbols now.delivery.status ≡ false))

pub IsReleasable-release :
    (i : ℕ) (jobs jobs' : List SymbolizationJob) (xs ys : List InboxEvent)
    → Pointwise (KeepsOpen i) jobs jobs'
    → Pointwise (Released i) xs ys
    → All (IsWatched jobs) xs
    → All (IsWatched jobs') ys
IsReleasable-release i jobs jobs' xs ys k p h =
    All-Pointwise (IsWatched jobs) (IsWatched jobs') (Released i) xs ys step p h
  where
    step : (x y : InboxEvent) → Released i x y → IsWatched jobs x → IsWatched jobs' y
    step x y (same, inl other) w a =
        rw same.0 (any-KeepsOpen i x.id jobs jobs' other k (w (same.1 a)))
    step x y (same, inr freed) w a = cc
