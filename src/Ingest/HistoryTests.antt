-- ===== src/Ingest/HistoryTests.antt =====
-- Histories of requests, workers' actions and maintenance, and the theorems at these inputs.
use android_apm_server.Prelude.{◌+◌, ◌≡◌, ◌≢◌, arith, eq_iff, String, false, List, [], ◌∷◌}
use android_apm_server.Json.{get}
use android_apm_server.Domain.{model_dump}
use android_apm_server.Db.Inbox.{remove_known_installation_plaintext, occurs, holds_text}
use android_apm_server.Db.Inbox.Prepare.{prepare_event}
use android_apm_server.Db.Inbox.Batch.{prepare_unique_events, same_signature}
use android_apm_server.Db.Inbox.Insert.{insert_batch}
use android_apm_server.Db.Inbox.Tests.{
  test_hmac, no_fingerprint, test_dumps, test_sha256, test_bytes, raced_rows,
}
use android_apm_server.Db.Table.{update_where}
use android_apm_server.Db.Table.Growth.{Grows}
use android_apm_server.Db.Models.{seconds}
use android_apm_server.Db.Worker.{claim_batch, claimable}
use android_apm_server.Db.Tests.{two_rows, claimed_rows, ingest, two_rows-IsSound}
use android_apm_server.Db.System.{worker, claims, symbols, enqueues}
use android_apm_server.Db.System.Custody.{IsSettled, IsHeld, Keeps}
use android_apm_server.Db.System.Release.{IsSound}
use android_apm_server.Ingest.Custody.{history-IsSettled, history-IsHeld}
use android_apm_server.Ingest.Release.{Reach, here, next, Reach-IsSound}
use android_apm_server.Ingest.Transaction.{Store}
use android_apm_server.Ingest.History.{Happening, process, maintenance, request, happen, history}
use android_apm_server.Db.Worker.{mark_delivered}
use android_apm_server.Db.Tests.{unlocked}
use android_apm_server.Db.System.Delivery.{claim, batch_ids}
use android_apm_server.Db.Worker.Counting.{IsDelivered}
use android_apm_server.Db.Models.{InboxEvent}
use android_apm_server.Prelude.{ℕ}
use android_apm_server.Ingest.Delivery.{claimed_store, claimed_batch-IsDelivered_later}
use android_apm_server.Ingest.Tests.{test_settings, test_request, test_store, test_later}
use android_apm_server.Prelude.{length}

-- The rows of Db/Tests.antt, of which "a:1" holds the first until its lease ends.
abbrev held_store : Store
held_store = record { windows = []; database = claimed_rows }

-- Another worker's claim, the ingest of a batch, and a maintenance cycle.
abbrev spared : List Happening
spared =
    process (worker (claims "b:1" 10 30 20 (λ id. false)))
    ∷ request test_settings test_request
    ∷ maintenance test_settings.retention 25 (λ id. false)
    ∷ []

other_owner : ◌≢◌ {A = String} "b:1" "a:1"
other_owner h = ground (arith, h, eq_iff "b:1" "a:1")

history-IsHeld_example :
    Grows
      (Keeps (IsHeld "a:1" (10 + seconds 30)))
      claimed_rows.inbox_events
      (history test_hmac no_fingerprint test_dumps test_sha256 test_bytes spared
        held_store).database.inbox_events
unfolding claim_batch update_where claimable
history-IsHeld_example =
    history-IsHeld test_hmac no_fingerprint test_dumps test_sha256 test_bytes "a:1"
      (10 + seconds 30) spared held_store (omega arith) (omega arith)
      ((other_owner, omega arith), (tt, (tt, tt)))

history-IsSettled_example :
    Grows IsSettled raced_rows
      (history test_hmac no_fingerprint test_dumps test_sha256 test_bytes test_later
        test_store).database.inbox_events
unfolding insert_batch remove_known_installation_plaintext model_dump occurs holds_text get
    prepare_unique_events prepare_event same_signature
history-IsSettled_example =
    history-IsSettled test_hmac no_fingerprint test_dumps test_sha256 test_bytes test_later
      test_store (tt, tt)

abbrev idle_store : Store
idle_store = record { windows = []; database = two_rows }

-- A request, the jobs of a crash, and a maintenance cycle.
reached : Reach test_hmac no_fingerprint test_dumps test_sha256 test_bytes idle_store (
    happen test_hmac no_fingerprint test_dumps test_sha256 test_bytes
      (maintenance test_settings.retention 25 (λ id. false))
      (happen test_hmac no_fingerprint test_dumps test_sha256 test_bytes
        (process (symbols (enqueues ingest)))
        (happen test_hmac no_fingerprint test_dumps test_sha256 test_bytes
          (request test_settings test_request)
          idle_store)))
reached =
    next (maintenance test_settings.retention 25 (λ id. false))
      (next (process (symbols (enqueues ingest)))
        (next (request test_settings test_request) here tt) tt)
      tt

Reach-IsSound_example :
    IsSound
      (happen test_hmac no_fingerprint test_dumps test_sha256 test_bytes
        (maintenance test_settings.retention 25 (λ id. false))
        (happen test_hmac no_fingerprint test_dumps test_sha256 test_bytes
          (process (symbols (enqueues ingest)))
          (happen test_hmac no_fingerprint test_dumps test_sha256 test_bytes
            (request test_settings test_request)
            idle_store))).database
Reach-IsSound_example =
    Reach-IsSound test_hmac no_fingerprint test_dumps test_sha256 test_bytes reached
      two_rows-IsSound

abbrev marked : List InboxEvent × ℕ
marked =
    mark_delivered "a:1" (batch_ids "a:1" 1 30 10 unlocked two_rows) 25000000
      (history test_hmac no_fingerprint test_dumps test_sha256 test_bytes spared (
        claimed_store test_hmac no_fingerprint test_dumps test_sha256 test_bytes "a:1" 1 30 10
          unlocked idle_store)).database.inbox_events

claimed_batch-IsDelivered_later_example :
    (marked.1 ≡ length (claim "a:1" 1 30 10 unlocked two_rows).0)
    × Grows (IsDelivered (batch_ids "a:1" 1 30 10 unlocked two_rows)) two_rows.inbox_events marked.0
claimed_batch-IsDelivered_later_example =
    claimed_batch-IsDelivered_later test_hmac no_fingerprint test_dumps test_sha256 test_bytes "a:1"
      1 30 10 unlocked idle_store spared 25000000 (omega arith)
      ((other_owner, omega arith), (tt, (tt, tt))) (omega arith)
