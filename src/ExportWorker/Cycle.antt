-- ===== src/ExportWorker/Cycle.antt =====
-- A cycle of worker.py whose batch the collector accepts.
use android_apm_server.Prelude.{
  ℕ, ◌<◌, ◌≡◌, refl, sym, ap, ◌∙◌, true, Option, some, List, [], ◌∷◌, ◌++◌, map, length, arith, All,
  All-append, subst,
}
use android_apm_server.Db.Models.{InboxEvent, Database}
use android_apm_server.Db.Table.{Pointwise, Ascending}
use android_apm_server.Db.Table.Rows.{Pointwise-map}
use android_apm_server.Db.Worker.Counting.{IsDelivered}
use android_apm_server.Db.Worker.Refinement.{claim_batch-Evolution}
use android_apm_server.Db.Worker.{mark_delivered, mark_failed}
use android_apm_server.Db.System.{Action, run}
use android_apm_server.Db.System.Custody.{Stranger}
use android_apm_server.Db.System.Delivery.{
  claim, expiry, claimed_batch_delivered, claimed_batch-IsDelivered,
}
use android_apm_server.Otlp.Client.{ExportResult}
use android_apm_server.ExportWorker.{
  Settings, World, encode_isolated_batch, finish, reject_invalid, export_claimed, export_once,
}

pub run-append : (xs ys : List Action) (db : Database) → run (xs ++ ys) db ≡ run ys (run xs db)
unfolding run
run-append [] ys db = refl
run-append (a ∷ xs) ys db = run-append xs ys _

module _ {P : Type 0} (build : List InboxEvent → Option P) (no_payload : P)
    (send : P → Option ExportResult) (settings : Settings) (world : World) where
  export_claimed-IsDelivered :
      (Q : List InboxEvent → Type 0) (events : List InboxEvent) (db : Database) (payload : P)
      (result : ExportResult) (n : ℕ)
      → build events ≡ some payload
      → send payload ≡ some result
      → result.success ≡ true
      → (mark_delivered world.owner
          (map (λ e. e.id) events)
          world.delivered_at
          (run world.while_sending (run world.while_encoding db)).inbox_events).1
        ≡ n
      → length events ≡ n
      → (events ≡ [] → Q db.inbox_events)
      → Q
          (mark_delivered world.owner
            (map (λ e. e.id) events)
            world.delivered_at
            (run world.while_sending (run world.while_encoding db)).inbox_events).0
      → ((export_claimed build no_payload send settings world events db).0 ≡ some n)
        × Q (export_claimed build no_payload send settings world events db).1.inbox_events
  unfolding encode_isolated_batch finish reject_invalid mark_failed
  export_claimed-IsDelivered Q [] db payload result n b s good count size idle done =
      (cc size, idle refl)
  export_claimed-IsDelivered Q (event ∷ events) db payload result n b s good count size idle done =
      rw (b, s, good) (ap some (omega (arith, count)), done)

  abbrev pub claimed : Database → List InboxEvent × List InboxEvent
  claimed =
      claim world.owner settings.worker_batch_size settings.worker_lease_seconds world.claimed_at
        world.locked

  abbrev pub lease_end : Database → ℕ
  lease_end =
      expiry world.owner settings.worker_batch_size settings.worker_lease_seconds world.claimed_at
        world.locked

  claimed-IsDelivered :
      (db : Database)
      → Ascending (λ row. row.id) db.inbox_events
      → (claimed db).0 ≡ []
      → Pointwise (IsDelivered (map (λ e. e.id) (claimed db).0)) db.inbox_events (claimed db).1
  claimed-IsDelivered db h none_claimed =
      Pointwise-map _ _ db.inbox_events (claimed db).1
        (λ x y e. (e.same_id, rw none_claimed (λ m. absurd (cc))))
        (claim_batch-Evolution world.owner settings.worker_batch_size settings.worker_lease_seconds
          world.claimed_at world.locked db.inbox_events h)

  -- Where export is enabled, the keys of the inbox ascend, the batch can be encoded, the collector
  -- accepts it, the other export workers act for other owners and before the lease ends, and the worker
  -- writes before its lease ends, one cycle, with any transactions of Db/System.antt between its own,
  -- returns the number of rows that it claimed; in the database that it leaves, every row of the inbox
  -- is still in its place, and each row that was claimed has the status delivered.
  pub export_once-IsDelivered :
      (db : Database) (payload : P) (result : ExportResult)
      → settings.export_enabled ≡ true
      → Ascending (λ row. row.id) db.inbox_events
      → build (claimed db).0 ≡ some payload
      → send payload ≡ some result
      → result.success ≡ true
      → All (Stranger world.owner (lease_end db)) world.while_encoding
      → All (Stranger world.owner (lease_end db)) world.while_sending
      → world.delivered_at < lease_end db
      → ((export_once build no_payload send settings world db).0 ≡ some (length (claimed db).0))
        × Pointwise
            (IsDelivered (map (λ e. e.id) (claimed db).0))
            db.inbox_events
            (export_once build no_payload send settings world db).1.inbox_events
  unfolding export_once
  export_once-IsDelivered db payload result on h b s good before after intime =
      let batch = (claimed db).0 in
      let db' : Database = record db { inbox_events = (claimed db).1 } in
      let others = world.while_encoding ++ world.while_sending in
      let spared =
        All-append (Stranger world.owner (lease_end db)) world.while_encoding world.while_sending
          before after in
      let count =
        claimed_batch_delivered world.owner settings.worker_batch_size settings.worker_lease_seconds
          world.claimed_at world.locked db others world.delivered_at h spared intime in
      let delivered =
        claimed_batch-IsDelivered world.owner settings.worker_batch_size
          settings.worker_lease_seconds world.claimed_at world.locked db others world.delivered_at h
          spared intime in
      let last = run-append world.while_encoding world.while_sending db' in
      let Ends = Pointwise (IsDelivered (map (λ e. e.id) batch)) db.inbox_events in
      rw on (
        export_claimed-IsDelivered Ends batch db' payload result (length batch) b s good
          (ap
              (λ d.
                (mark_delivered world.owner (map (λ e. e.id) batch) world.delivered_at
                  d.inbox_events).1)
              (sym last)
            ∙ count)
          refl (claimed-IsDelivered db h)
          (subst
            (λ (d : Database).
              Ends
                (mark_delivered world.owner (map (λ e. e.id) batch) world.delivered_at
                  d.inbox_events).0)
            last delivered))
