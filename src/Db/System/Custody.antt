-- ===== src/Db/System/Custody.antt =====
-- The transactions of Db/System.antt, as steps of the custody machine.
use android_apm_server.Prelude.{
  ℕ, ◌≤◌, ◌<◌, String, ◌≡◌, ◌≢◌, refl, inl, inr, some, List, [], ◌∷◌, arith, All, All-map,
  Bool-cases, str_eq, eq_iff,
}
use android_apm_server.Db.Models.{InboxStatus, Delivery, InboxEvent, Database}
use android_apm_server.Db.Table.{Pointwise, Ascending}
use android_apm_server.Db.Table.Rows.{
  Pointwise-refl, Pointwise-map, Ascending-Pointwise, Pointwise-trans,
}
use android_apm_server.Db.Custody.{
  Custody, At, held, finished, discarded, custody, Trail-held, Trail-finished, Trail-discarded,
  Evolution, Evolution-refl,
}
use android_apm_server.Db.Worker.Refinement.{
  claim_batch-Evolution, mark_delivered-Evolution, mark_failed-Evolution,
}
use android_apm_server.Db.Symbolization.{
  claim_symbolization_batch, start_symbolization_attempt, mark_symbols_missing,
  requeue_matching_missing_jobs,
}
use android_apm_server.Db.Symbolization.Evolution as Symbols
use android_apm_server.Db.System.{
  WorkerAction, SymbolAction, Action, claims, deliveries, failures, enqueues, completions,
  job_failures, worker, symbols, work, symbolize, act, run, actor, horizon, latest, IsAmong,
  IsReading,
}

All-IsAmong : (events : List (InboxEvent × ℕ)) → All (λ e. IsAmong events e.1) events
All-IsAmong [] = tt
All-IsAmong ((event, observed) ∷ events) =
    (inl refl, All-map (λ e. IsAmong events e.1) (λ e h. inr h) events (All-IsAmong events))

IsAmong-latest : (events : List (InboxEvent × ℕ)) (t : ℕ) → IsAmong events t → t ≤ latest events
IsAmong-latest [] t h = absurd h
IsAmong-latest ((event, observed) ∷ events) t h = elim h [
  | inl e ↦ omega (arith, e)
  | inr rest ↦ omega (arith, IsAmong-latest events t rest)
]

IsReading-horizon : (a : WorkerAction) (t : ℕ) → IsReading a t → t ≤ horizon a
IsReading-horizon (claims owner limit lease_seconds observed locked) t h = omega (arith, h)
IsReading-horizon (deliveries owner ids observed) t h = omega (arith, h)
IsReading-horizon (failures owner events failure) t h = IsAmong-latest events t h

pub work-Evolution :
    (a : WorkerAction) (rows : List InboxEvent)
    → Ascending (λ row. row.id) rows
    → Pointwise (Evolution (actor a) (IsReading a)) rows (work a rows)
unfolding work
work-Evolution (claims owner limit lease_seconds observed locked) rows h =
    claim_batch-Evolution owner limit lease_seconds observed locked rows h
work-Evolution (deliveries owner ids observed) rows h =
    mark_delivered-Evolution owner ids observed rows
work-Evolution (failures owner events failure) rows h =
    mark_failed-Evolution owner events failure (IsAmong events) rows (All-IsAmong events)

pub symbolize-Evolution :
    (someone : String) (t : ℕ) (a : SymbolAction) (db : Database)
    → Pointwise (Evolution someone (At t)) db.inbox_events (symbolize a db).inbox_events
unfolding symbolize claim_symbolization_batch start_symbolization_attempt mark_symbols_missing
    requeue_matching_missing_jobs
symbolize-Evolution someone t (enqueues q) db = Symbols.enqueue-Evolution someone t q db
symbolize-Evolution someone t (completions owner job c observed) db =
    Symbols.mark_symbolized-Evolution someone t owner job c observed db
symbolize-Evolution someone t (job_failures owner job f observed) db =
    Symbols.mark_failed-Evolution someone t owner job f observed db
symbolize-Evolution someone t _ db =
    Pointwise-refl (Evolution someone (At t)) db.inbox_events (Evolution-refl someone (At t))

-- The acting worker and the time of its last write; the other processes act for nobody.
abbrev pub Stranger : String → ℕ → Action → Type 0
Stranger owner u (worker a) = (actor a ≢ owner) × (horizon a < u)
Stranger owner u (symbols a) = Unit

-- Rows keep their key and their identity, and some predicate on custody.
pub record Keeps (P : Custody → Type 0) (before now : InboxEvent) : Type 0 where
  pub same_id : now.id ≡ before.id
  pub same_identity : now.identity ≡ before.identity
  pub kept : P (custody before.delivery) → P (custody now.delivery)

pub Keeps-refl : (P : Custody → Type 0) (row : InboxEvent) → Keeps P row row
Keeps-refl P row = record { same_id = refl; same_identity = refl; kept = λ h. h }

pub Keeps-trans :
    (P : Custody → Type 0) (a b c : InboxEvent) → Keeps P a b → Keeps P b c → Keeps P a c
Keeps-trans P a b c p q = record {
  same_id = cc (p.same_id, q.same_id);
  same_identity = cc (p.same_identity, q.same_identity);
  kept = λ h. q.kept (p.kept h);
}

another : (owner : String) → (someone : String) × (someone ≢ owner)
another owner = elim (Bool-cases (str_eq "" owner)) [
  | inl e ↦ ("a", λ p. ground (arith, eq_iff "" owner, eq_iff "a" "", p))
  | inr e ↦ ("", λ p. ground (arith, eq_iff "" owner, p))
]

abbrev pub IsHeld : String → ℕ → Custody → Type 0
IsHeld owner u c = c ≡ held (some owner) (some u)

module _ (owner : String) (u : ℕ) (positive : 0 < u) where
  early : (a : WorkerAction) (t : ℕ) → IsReading a t → horizon a < u → t < u
  early a t r h = let late = IsReading-horizon a t r in omega arith

  pub act-IsHeld :
      (a : Action) (db : Database)
      → Ascending (λ row. row.id) db.inbox_events
      → Stranger owner u a
      → Pointwise (Keeps (IsHeld owner u)) db.inbox_events (act a db).inbox_events
  unfolding act
  act-IsHeld (worker a) db h s =
      Pointwise-map (Evolution (actor a) (IsReading a)) (Keeps (IsHeld owner u)) db.inbox_events _
        (λ x y e. record {
          same_id = e.same_id;
          same_identity = e.same_identity;
          kept = λ held. Trail-held owner u e.trail held (λ t r. early a t r s.1) s.0;
        })
        (work-Evolution a db.inbox_events h)
  act-IsHeld (symbols a) db h s =
      let (someone, other) = another owner in
      Pointwise-map (Evolution someone (At 0)) (Keeps (IsHeld owner u)) db.inbox_events _
        (λ x y e. record {
          same_id = e.same_id;
          same_identity = e.same_identity;
          kept = λ held. Trail-held owner u e.trail held (λ t now. omega (arith, now)) other;
        })
        (symbolize-Evolution someone 0 a db)

  -- While others act before `u`, the rows that `owner` holds until `u` stay in its hands.
  pub run-IsHeld :
      (as' : List Action) (db : Database)
      → Ascending (λ row. row.id) db.inbox_events
      → All (Stranger owner u) as'
      → Pointwise (Keeps (IsHeld owner u)) db.inbox_events (run as' db).inbox_events
  unfolding run
  run-IsHeld [] db h s = Pointwise-refl (Keeps (IsHeld owner u)) db.inbox_events (Keeps-refl _)
  run-IsHeld (a ∷ as') db h s =
      let first = act-IsHeld a db h s.0 in
      Pointwise-trans (Keeps (IsHeld owner u)) db.inbox_events (act a db).inbox_events
        (run as' (act a db)).inbox_events (Keeps-trans _) first
        (run-IsHeld as' (act a db)
          (Ascending-Pointwise (λ row. row.id) (Keeps (IsHeld owner u)) db.inbox_events
            (act a db).inbox_events (λ x y k. k.same_id) first h)
          s.1)

-- The rows that export is over for.
abbrev pub IsSettled : InboxEvent → InboxEvent → Type 0
IsSettled before now =
    (now.id ≡ before.id)
    × (now.identity ≡ before.identity)
    × (before.delivery.status ≡ InboxStatus.delivered → now.delivery.status ≡ InboxStatus.delivered)
    × (before.delivery.status ≡ InboxStatus.dead_letter
        → now.delivery.status ≡ InboxStatus.dead_letter)

pub IsSettled-refl : (row : InboxEvent) → IsSettled row row
IsSettled-refl row = (refl, refl, λ h. h, λ h. h)

pub IsSettled-trans : (a b c : InboxEvent) → IsSettled a b → IsSettled b c → IsSettled a c
IsSettled-trans a b c p q = (cc (p.0, q.0), cc (p.1, q.1), λ h. q.2 (p.2 h), λ h. q.3 (p.3 h))

delivered-finished : (d : Delivery) → d.status ≡ InboxStatus.delivered → custody d ≡ finished
unfolding custody
delivered-finished d h = ground arith

finished-delivered : (d : Delivery) → custody d ≡ finished → d.status ≡ InboxStatus.delivered
unfolding custody
finished-delivered d h = ground arith

dead-discarded : (d : Delivery) → d.status ≡ InboxStatus.dead_letter → custody d ≡ discarded
unfolding custody
dead-discarded d h = ground arith

discarded-dead : (d : Delivery) → custody d ≡ discarded → d.status ≡ InboxStatus.dead_letter
unfolding custody
discarded-dead d h = ground arith

Evolution-IsSettled :
    (someone : String) (at : ℕ → Type 0) (x y : InboxEvent)
    → Evolution someone at x y
    → IsSettled x y
Evolution-IsSettled someone at x y e = (
  e.same_id,
  e.same_identity,
  λ h. finished-delivered y.delivery (Trail-finished e.trail (delivered-finished x.delivery h)),
  λ h. discarded-dead y.delivery (Trail-discarded e.trail (dead-discarded x.delivery h)),
)

pub act-IsSettled :
    (a : Action) (db : Database)
    → Ascending (λ row. row.id) db.inbox_events
    → Pointwise IsSettled db.inbox_events (act a db).inbox_events
unfolding act
act-IsSettled (worker a) db h =
    Pointwise-map (Evolution (actor a) (IsReading a)) IsSettled db.inbox_events _
      (Evolution-IsSettled (actor a) (IsReading a)) (work-Evolution a db.inbox_events h)
act-IsSettled (symbols a) db h =
    Pointwise-map (Evolution "" (At 0)) IsSettled db.inbox_events _ (Evolution-IsSettled "" (At 0))
      (symbolize-Evolution "" 0 a db)
