-- ===== src/Ingest/Delivery.antt =====
-- A batch that an export worker claims and later marks as delivered, with a history of
-- Ingest/History.antt in between.
use android_apm_server.Prelude.{
  ℕ, zero, suc, ◌<◌, ◌≡◌, ◌∙◌, refl, sym, ap, inl, inr, Bool, true, false, String, Option, some,
  List, [], ◌∷◌, map, arith, length, take, select, All, contains, Bool-cases,
}
use android_apm_server.Json.{Json}
use android_apm_server.Domain.{ApmEvent}
use android_apm_server.Db.Models.{InboxEvent}
use android_apm_server.Db.Table.{Ascending}
use android_apm_server.Db.Table.Rows.{All-Pointwise, Pointwise-map}
use android_apm_server.Db.Table.Growth.{
  Grows, IsNewFalse, Pointwise-flip, Pointwise-Grows, Grows-then, All-Grows, count_where-Grows,
}
use android_apm_server.Db.Custody.{held, custody}
use android_apm_server.Db.Worker.{candidate, due_rows, claim_batch, completes, mark_delivered}
use android_apm_server.Db.Worker.Refinement.{claim_batch-Evolution}
use android_apm_server.Db.Worker.Counting.{
  mark_delivered-update, claimed_ids, claimed_length, claimed-held, claimed-count, IsHeld-holds,
  IsDelivered, completed-IsDelivered,
}
use android_apm_server.Db.System.Custody.{IsHeld, Keeps}
use android_apm_server.Db.System.Delivery.{claim, expiry, batch_ids, claim-Ascending}
use android_apm_server.Ingest.Transaction.{Store}
use android_apm_server.Ingest.History.{Happening, history}
use android_apm_server.Ingest.Custody.{SparesHolder, history-IsHeld}
use android_apm_server.Ingest.Persistence.{history-Lasts}

abbrev IsBelow : ℕ → InboxEvent → Type 0
IsBelow k row = row.id < k

take-IsBelow :
    (k n : ℕ) (rows : List InboxEvent) → All (IsBelow k) rows → All (IsBelow k) (take n rows)
take-IsBelow k zero rows h = tt
take-IsBelow k (suc n) [] h = tt
take-IsBelow k (suc n) (row ∷ rows) h = (h.0, take-IsBelow k n rows h.1)

select-IsBelow :
    (k : ℕ) (test : InboxEvent → Bool) (rows : List InboxEvent)
    → All (IsBelow k) rows
    → All (IsBelow k) (select test rows)
select-IsBelow k test [] h = tt
select-IsBelow k test (row ∷ rows) h = elim (Bool-cases (test row)) [
  | inl e ↦ rw e (h.0, select-IsBelow k test rows h.1)
  | inr e ↦ rw e (select-IsBelow k test rows h.1)
]

contains-IsBelow :
    (k : ℕ) (rows : List InboxEvent)
    → All (IsBelow k) rows
    → contains (map (λ row. row.id) rows) k ≡ false
contains-IsBelow k [] h = refl
contains-IsBelow k (row ∷ rows) h =
    let below = h.0 in let rest = contains-IsBelow k rows h.1 in ground (arith, below, rest)

module _ (hmac : List ℕ → List ℕ → String) (fingerprint : ApmEvent → Option String)
    (dumps : Json → String) (sha256 : String → String) (bytes_of : Json → ℕ) (owner : String)
    (limit lease_seconds observed : ℕ) (locked : ℕ → Bool) (store : Store) where
  abbrev claimed_rows : List InboxEvent
  claimed_rows = (claim owner limit lease_seconds observed locked store.database).1

  abbrev pub claimed_store : Store
  claimed_store = record store { database = record store.database { inbox_events = claimed_rows } }

  abbrev due_ids : List ℕ
  due_ids = map (λ row. row.id) (due_rows limit observed locked store.database.inbox_events)

  -- A row above all rows of the claim is not in the batch.
  new-unnamed :
      (y : InboxEvent)
      → Ascending (λ row. row.id) store.database.inbox_events
      → All (λ x. x.id < y.id) claimed_rows
      → contains due_ids y.id ≡ false
  unfolding due_rows
  new-unnamed y h below =
      let rows = store.database.inbox_events in
      let old =
        All-Pointwise (IsBelow y.id) (IsBelow y.id) (λ x z. z.id ≡ x.id) claimed_rows rows
          (λ x z same l. rw same l)
          (Pointwise-flip _ (λ x z. z.id ≡ x.id) rows claimed_rows (λ x z e. sym e.same_id)
            (claim_batch-Evolution owner limit lease_seconds observed locked rows h))
          below in
      contains-IsBelow y.id (take limit (select (candidate observed locked) rows))
        (take-IsBelow y.id limit _ (select-IsBelow y.id (candidate observed locked) rows old))

  new-false :
      (later : ℕ) (y : InboxEvent)
      → Ascending (λ row. row.id) store.database.inbox_events
      → IsNewFalse (λ row. row.id) (completes owner due_ids later) claimed_rows y
  unfolding completes
  new-false later y h below = rw (new-unnamed y h below) refl

  -- The row is held where its key is in the batch.
  abbrev IsNamed : ℕ → InboxEvent → Type 0
  IsNamed u row = contains due_ids row.id ≡ true → custody row.delivery ≡ held (some owner) (some u)

  all-new-IsNamed :
      (u : ℕ)
      → Ascending (λ row. row.id) store.database.inbox_events
      → (ys : List InboxEvent) → All (λ y. All (λ x. x.id < y.id) claimed_rows → IsNamed u y) ys
  all-new-IsNamed u h [] = tt
  all-new-IsNamed u h (y ∷ ys) = (
    λ below named. let unnamed = new-unnamed y h below in absurd (ground (arith, unnamed, named)),
    all-new-IsNamed u h ys,
  )

  all-new-false :
      (later : ℕ)
      → Ascending (λ row. row.id) store.database.inbox_events
      → (ys : List InboxEvent)
      → All (IsNewFalse (λ row. row.id) (completes owner due_ids later) claimed_rows) ys
  all-new-false later h [] = tt
  all-new-false later h (y ∷ ys) = (new-false later y h, all-new-false later h ys)

  -- A named row that is still held is completed.
  alike :
      (u later : ℕ) (ids : List ℕ)
      → later < u
      → (x y : InboxEvent)
      → (contains ids x.id ≡ true → custody x.delivery ≡ held (some owner) (some u))
      → Keeps (IsHeld owner u) x y
      → contains ids x.id ≡ completes owner ids later y
  unfolding completes
  alike u later ids l x y h k = elim (Bool-cases (contains ids x.id)) [
    | inl e ↦ rw (k.same_id, e, IsHeld-holds owner u later y.delivery l (k.kept (h e))) refl
    | inr e ↦ rw (k.same_id, e) refl
  ]

  -- A worker claims a batch from an inbox whose keys ascend; then follows any history of requests,
  -- actions of the workers and maintenance cycles, in which every claim, completion and failure of an
  -- export worker is by another owner and reads the clock before the lease ends; then the worker, with a
  -- reading before the lease ends, marks its batch delivered. The rowcount is the size of the batch;
  -- every old row of the inbox is still in its place, and each row of the batch has the status delivered.
  pub claimed_batch-IsDelivered_later :
      (others : List Happening) (later : ℕ)
      → Ascending (λ row. row.id) store.database.inbox_events
      → All
          (SparesHolder owner (expiry owner limit lease_seconds observed locked store.database))
          others
      → later < expiry owner limit lease_seconds observed locked store.database
      → let ids = batch_ids owner limit lease_seconds observed locked store.database in
        let marked =
          mark_delivered owner ids later
            (history hmac fingerprint dumps sha256 bytes_of others
              claimed_store).database.inbox_events in
        (marked.1 ≡ length (claim owner limit lease_seconds observed locked store.database).0)
        × Grows (IsDelivered ids) store.database.inbox_events marked.0
  unfolding claim_batch
  claimed_batch-IsDelivered_later others later h spare intime =
      let rows = store.database.inbox_events in
      let u = expiry owner limit lease_seconds observed locked store.database in
      let chosen = due_rows limit observed locked rows in
      let after =
        (history hmac fingerprint dumps sha256 bytes_of others
          claimed_store).database.inbox_events in
      let ascending = claim-Ascending owner limit lease_seconds observed locked store.database h in
      let kept =
        history-IsHeld hmac fingerprint dumps sha256 bytes_of owner u others claimed_store
          (omega arith) ascending spare in
      let still =
        (history-Lasts hmac fingerprint dumps sha256 bytes_of others claimed_store
          ascending).ascending in
      let named = claimed-held owner u chosen rows in
      let marked = mark_delivered-update owner due_ids later after in
      let all_named =
        All-Grows (λ row. row.id) (IsNamed u) (IsNamed u) (Keeps (IsHeld owner u)) claimed_rows
          after (λ x y k. k.same_id)
          (λ x y k n m. k.kept (n (ap (λ i. contains due_ids i) (sym k.same_id) ∙ m))) still
          (all-new-IsNamed u h after) named kept in
      rw (claimed_ids owner u chosen, marked.0)
        (
          marked.1
              ∙ count_where-Grows (λ row. row.id) (IsNamed u) (Keeps (IsHeld owner u))
                  (λ row. contains due_ids row.id) (completes owner due_ids later) claimed_rows
                  after (λ x y k. k.same_id) (alike u later due_ids intime) still
                  (all-new-false later h after) named kept
              ∙ (unfold due_rows in claimed-count owner u limit (candidate observed locked) rows h)
              ∙ sym (claimed_length owner u chosen),
          Grows-then (λ x y. y.id ≡ x.id) (IsDelivered due_ids) (IsDelivered due_ids) rows after _
              (λ x y z same d. (d.0 ∙ same, λ m. d.1 (ap (λ i. contains due_ids i) same ∙ m)))
              (Grows-then (λ x y. y.id ≡ x.id) (Keeps (IsHeld owner u)) (λ x y. y.id ≡ x.id) rows
                claimed_rows after (λ x y z e k. k.same_id ∙ e)
                (Pointwise-Grows (λ x y. y.id ≡ x.id) rows claimed_rows
                  (Pointwise-map _ (λ x y. y.id ≡ x.id) rows claimed_rows (λ x y e. e.same_id)
                    (claim_batch-Evolution owner limit lease_seconds observed locked rows h)))
                kept)
              (Pointwise-Grows (IsDelivered due_ids) after _
                (completed-IsDelivered owner u later due_ids after intime all_named)),
        )
