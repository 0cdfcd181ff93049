-- ===== src/Db/Worker.antt =====
-- db/worker.py: claims, completions and failures of inbox rows by export workers. `observed` is the
-- reading of the database clock, and `locked` says which rows another transaction holds at the time
-- of the claim (FOR UPDATE SKIP LOCKED). An UPDATE has one reading of the clock here; PostgreSQL's
-- clock_timestamp() may advance from row to row of one statement, which is not modelled.
pub mod Refinement
pub mod Retry
pub mod Counting
use android_apm_server.Prelude.{
  ℕ, zero, suc, ◌+◌, ◌^◌, min, String, Bool, true, false, not, ◌&&◌, ◌||◌, Option, none, some, List,
  [], ◌∷◌, map, leb, ltb, after, due, text_is, is_none, contains, take, select, text_take,
  if◌then◌else◌,
}
use android_apm_server.Db.Models.{
  InboxStatus, Delivery, InboxEvent, seconds, is_pending, is_processing,
}
use android_apm_server.Db.Table.{update_where, count_where}
use android_apm_server.Db.Table.Claims.{update_chosen}

abbrev pub max_backoff_seconds : ℕ
max_backoff_seconds = 300

abbrev pub max_export_error_length : ℕ
max_export_error_length = 2048

-- The fence of every write: the caller holds an active lease.
unfoldable pub holds_lease : String → ℕ → Delivery → Bool
holds_lease owner observed d =
    is_processing d.status && text_is d.lease_owner owner && after d.lease_expires_at observed

unfoldable pub claimable : ℕ → Delivery → Bool
claimable observed d =
    (is_pending d.status && leb d.next_attempt_at observed)
    || (is_processing d.status && due d.lease_expires_at observed)

unfoldable pub candidate : ℕ → (ℕ → Bool) → InboxEvent → Bool
candidate observed locked row =
    claimable observed row.delivery && is_none row.evidence.raw_pruned_at && not (locked row.id)

unfoldable pub leased : String → ℕ → Delivery → Delivery
leased owner expiry d = record d {
  status = InboxStatus.processing;
  lease_owner = some owner;
  lease_expires_at = some expiry;
  attempt_count = d.attempt_count + 1;
}

unfoldable pub lease : String → ℕ → InboxEvent → InboxEvent
unfolding leased
lease owner expiry row = record row { delivery = leased owner expiry row.delivery }

-- The rows that the query returns.
unfoldable pub due_rows : ℕ → ℕ → (ℕ → Bool) → List InboxEvent → List InboxEvent
unfolding candidate
due_rows limit observed locked rows = take limit (select (candidate observed locked) rows)

-- The claimed rows, as the caller sees them, and the table after the flush.
unfoldable pub claim_batch :
    String → ℕ → ℕ → ℕ → (ℕ → Bool) → List InboxEvent → List InboxEvent × List InboxEvent
unfolding due_rows lease update_chosen
claim_batch owner limit lease_seconds observed locked rows =
    let chosen = due_rows limit observed locked rows in
    let claim = lease owner (observed + seconds lease_seconds) in
    (map claim chosen, update_chosen (λ row. row.id) chosen claim rows)

unfoldable pub delivered : ℕ → Delivery → Delivery
delivered observed d = record d {
  status = InboxStatus.delivered;
  delivered_at = some observed;
  finalized_at = some observed;
  lease_owner = none;
  lease_expires_at = none;
  last_error_code = none;
  last_error_message = none;
}

unfoldable pub completes : String → List ℕ → ℕ → InboxEvent → Bool
unfolding holds_lease
completes owner event_ids observed row =
    contains event_ids row.id && holds_lease owner observed row.delivery

unfoldable pub complete : ℕ → InboxEvent → InboxEvent
unfolding delivered
complete observed row = record row { delivery = delivered observed row.delivery }

-- The table and the rowcount.
unfoldable pub mark_delivered : String → List ℕ → ℕ → List InboxEvent → List InboxEvent × ℕ
unfolding completes complete
mark_delivered owner [] observed rows = (rows, 0)
mark_delivered owner (i ∷ ids) observed rows =
    let test = completes owner (i ∷ ids) observed in
    (update_where test (complete observed) rows, count_where test rows)

-- `retry_after_seconds or backoff`: a zero is falsy.
unfoldable pub delay_seconds : Option ℕ → ℕ → ℕ
delay_seconds (some (suc n)) attempts = suc n
delay_seconds _ attempts = min (2 ^ min attempts 8) max_backoff_seconds

unfoldable pub should_retry : Bool → ℕ → ℕ → Bool
should_retry retryable max_attempts attempts = retryable && ltb attempts max_attempts

-- The arguments of `mark_failed` that are the same for all its events.
pub record Failure : Type 0 where
  pub retryable : Bool
  pub max_attempts : ℕ
  pub error_code : String
  pub error_message : String
  pub retry_after_seconds : Option ℕ

-- `attempts` is the count of the event that the caller holds.
unfoldable pub failed : Failure → ℕ → ℕ → Delivery → Delivery
unfolding delay_seconds should_retry
failed failure attempts observed d =
    let again = should_retry failure.retryable failure.max_attempts attempts in
    record d {
      status = if again then InboxStatus.pending else InboxStatus.dead_letter;
      finalized_at = if again then none else some observed;
      next_attempt_at = observed + seconds (delay_seconds failure.retry_after_seconds attempts);
      lease_owner = none;
      lease_expires_at = none;
      last_error_code = some (text_take 128 failure.error_code);
      last_error_message = some (text_take max_export_error_length failure.error_message);
    }

unfoldable pub fail : Failure → ℕ → ℕ → InboxEvent → InboxEvent
unfolding failed
fail failure attempts observed row = record row {
  delivery = failed failure attempts observed row.delivery;
}

-- Each event comes with the clock's reading at its own UPDATE.
unfoldable pub mark_failed :
    String → List (InboxEvent × ℕ) → Failure → List InboxEvent → List InboxEvent × ℕ
unfolding completes fail
mark_failed owner [] failure rows = (rows, 0)
mark_failed owner ((event, observed) ∷ events) failure rows =
    let test = completes owner (event.id ∷ []) observed in
    let rows' = update_where test (fail failure event.delivery.attempt_count observed) rows in
    let (rows'', changed) = mark_failed owner events failure rows' in
    (rows'', count_where test rows + changed)
