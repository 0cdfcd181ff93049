-- ===== src/Db/System/Delivery.antt =====
-- A batch that an export worker claims and later marks as delivered, with transactions of Db/System.antt
-- in between.
use android_apm_server.Prelude.{
  ℕ, ◌+◌, ◌<◌, ◌≡◌, ◌∙◌, sym, Bool, String, List, map, arith, length, All, ap, true, some, contains,
}
use android_apm_server.Db.Models.{InboxEvent, Database, seconds}
use android_apm_server.Db.Table.{Pointwise, Ascending}
use android_apm_server.Db.Table.Rows.{Ascending-Pointwise, All-Pointwise}
use android_apm_server.Db.Table.Growth.{Pointwise-then}
use android_apm_server.Db.Custody.{held, custody}
use android_apm_server.Db.Worker.{candidate, due_rows, claim_batch, mark_delivered}
use android_apm_server.Db.Worker.Refinement.{claim_batch-Evolution}
use android_apm_server.Db.Worker.Counting.{
  mark_delivered-update, claimed_ids, claimed_length, claimed-held, claimed-count, completed-count,
  IsDelivered, completed-IsDelivered,
}
use android_apm_server.Db.System.{Action, run}
use android_apm_server.Db.System.Custody.{Stranger, IsHeld, Keeps, run-IsHeld}

module _ (owner : String) (limit lease_seconds observed : ℕ) (locked : ℕ → Bool)
    (db : Database) where
  abbrev pub claim : List InboxEvent × List InboxEvent
  claim = claim_batch owner limit lease_seconds observed locked db.inbox_events

  abbrev pub expiry : ℕ
  expiry = observed + seconds lease_seconds

  abbrev pub batch_ids : List ℕ
  batch_ids = map (λ row. row.id) claim.0

  pub claim-Ascending :
      Ascending (λ row. row.id) db.inbox_events → Ascending (λ row. row.id) claim.1
  claim-Ascending h =
      Ascending-Pointwise (λ row. row.id) _ db.inbox_events claim.1 (λ x y e. e.same_id)
        (claim_batch-Evolution owner limit lease_seconds observed locked db.inbox_events h) h

  -- The rows of the batch are delivered.
  pub claimed_batch-IsDelivered :
      (others : List Action) (later : ℕ)
      → Ascending (λ row. row.id) db.inbox_events
      → All (Stranger owner expiry) others
      → later < expiry
      → Pointwise
          (IsDelivered batch_ids)
          db.inbox_events
          (mark_delivered owner batch_ids later
            (run others (record db { inbox_events = claim.1 })).inbox_events).0
  unfolding claim_batch due_rows
  claimed_batch-IsDelivered others later h strangers intime =
      let chosen = due_rows limit observed locked db.inbox_events in
      let claimed : Database = record db { inbox_events = claim.1 } in
      let rows = (run others claimed).inbox_events in
      let ids = map (λ (row : InboxEvent). row.id) chosen in
      let IsNamed = λ (row : InboxEvent).
        contains ids row.id ≡ true → custody row.delivery ≡ held (some owner) (some expiry) in
      let kept =
        run-IsHeld owner expiry (omega arith) others claimed (claim-Ascending h) strangers in
      let named =
        All-Pointwise IsNamed IsNamed (Keeps (IsHeld owner expiry)) claim.1 rows
          (λ x y k n m. k.kept (n (ap (λ i. contains ids i) (sym k.same_id) ∙ m))) kept
          (claimed-held owner expiry chosen db.inbox_events) in
      rw (claimed_ids owner expiry chosen, (mark_delivered-update owner ids later rows).0)
        (Pointwise-then (λ x y. y.id ≡ x.id) (IsDelivered ids) (IsDelivered ids) db.inbox_events
          rows _ (λ x y z same d. (d.0 ∙ same, λ m. d.1 (ap (λ i. contains ids i) same ∙ m)))
          (Pointwise-then _ _ (λ x y. y.id ≡ x.id) db.inbox_events claim.1 rows
            (λ x y z e k. k.same_id ∙ e.same_id)
            (claim_batch-Evolution owner limit lease_seconds observed locked db.inbox_events h)
            kept)
          (completed-IsDelivered owner expiry later ids rows intime named))

  -- A worker claims a batch from an inbox whose keys ascend; then follow any transactions of
  -- Db/System.antt, those of export workers by other owners and with clock readings before the lease
  -- ends; then the worker, with a reading before the lease ends, marks its batch delivered. The rowcount
  -- is the size of the batch.
  pub claimed_batch_delivered :
      (others : List Action) (later : ℕ)
      → Ascending (λ row. row.id) db.inbox_events
      → All (Stranger owner expiry) others
      → later < expiry
      → (mark_delivered owner batch_ids later
          (run others (record db { inbox_events = claim.1 })).inbox_events).1
        ≡ length claim.0
  unfolding claim_batch due_rows
  claimed_batch_delivered others later h strangers intime =
      let chosen = due_rows limit observed locked db.inbox_events in
      let claimed : Database = record db { inbox_events = claim.1 } in
      rw (claimed_ids owner expiry chosen) (
        (mark_delivered-update owner (map (λ row. row.id) chosen) later
          (run others claimed).inbox_events).1
        ∙ completed-count owner expiry later (map (λ row. row.id) chosen)
            (Keeps (IsHeld owner expiry)) claim.1 (run others claimed).inbox_events intime
            (λ x y k. k.same_id) (λ x y k. k.kept)
            (claimed-held owner expiry chosen db.inbox_events)
            (run-IsHeld owner expiry (omega arith) others claimed (claim-Ascending h) strangers)
        ∙ claimed-count owner expiry limit (candidate observed locked) db.inbox_events h
        ∙ sym (claimed_length owner expiry chosen))
