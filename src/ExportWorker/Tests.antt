-- ===== src/ExportWorker/Tests.antt =====
-- A cycle over the rows of Db/Tests.antt, and the theorems at these inputs.
use android_apm_server.Prelude.{
  ℕ, ◌≡◌, ◌⊎◌, refl, arith, true, false, not, Option, none, some, List, [], ◌∷◌, length, select,
  map, ◌==◌, if◌then◌else◌,
}
use android_apm_server.Db.Models.{InboxEvent}
use android_apm_server.Db.Tests.{two_rows, unlocked, strangers, strangers-Stranger}
use android_apm_server.Db.Table.{Pointwise}
use android_apm_server.Db.Worker.Counting.{IsDelivered}
use android_apm_server.Otlp.Client.{ExportResult}
use android_apm_server.ExportWorker.{Settings, World, isolate, encode_isolated_batch, export_once}
use android_apm_server.ExportWorker.Isolation.{is_invalid, encode_isolated_batch-parts}
use android_apm_server.ExportWorker.Cycle.{claimed, export_once-IsDelivered}

abbrev settings : Settings
settings = record {
  export_enabled = true;
  worker_batch_size = 1;
  worker_lease_seconds = 30;
  worker_max_attempts = 8;
}

abbrev world : World
world = record {
  owner = "a:1";
  claimed_at = 10;
  locked = unlocked;
  while_encoding = strangers;
  rejected_at = λ e. 20;
  while_sending = strangers;
  delivered_at = 25000000;
  failed_at = λ e. 25000000;
}

-- The payload is the keys of the rows; the second row cannot be mapped.
abbrev all_keys : List InboxEvent → Option (List ℕ)
all_keys events = some (map (λ e. e.id) events)

abbrev keys_but_two : List InboxEvent → Option (List ℕ)
keys_but_two [] = some []
keys_but_two (e ∷ []) = if e.id == 2 then none else some (e.id ∷ [])
keys_but_two (e ∷ f ∷ events) = none

abbrev accepted : ExportResult
accepted = record {
  success = true;
  retryable = false;
  error_code = none;
  error_message = none;
  retry_after_seconds = none;
}

export_once-IsDelivered_example :
    ((export_once all_keys [] (λ p. some accepted) settings world two_rows).0
      ≡ some (length (claimed all_keys [] (λ p. some accepted) settings world two_rows).0))
    × Pointwise
        (IsDelivered
          (map (λ e. e.id) (claimed all_keys [] (λ p. some accepted) settings world two_rows).0))
        two_rows.inbox_events
        (export_once all_keys [] (λ p. some accepted) settings world two_rows).1.inbox_events
export_once-IsDelivered_example =
    export_once-IsDelivered all_keys [] (λ p. some accepted) settings world two_rows
      (map (λ e. e.id) (claimed all_keys [] (λ p. some accepted) settings world two_rows).0)
      accepted refl (omega arith) refl refl refl strangers-Stranger strangers-Stranger (omega arith)

one_set_aside :
    encode_isolated_batch keys_but_two [] two_rows.inbox_events
    ≡ some (
      1 ∷ [],
      select (λ e. e.id == 1) two_rows.inbox_events,
      select (λ e. e.id == 2) two_rows.inbox_events,
    )
unfolding encode_isolated_batch isolate
one_set_aside = refl

encode_isolated_batch-parts_example :
    ((keys_but_two (select (λ e. e.id == 1) two_rows.inbox_events) ≡ some (1 ∷ []))
      ⊎ (select (λ e. e.id == 1) two_rows.inbox_events ≡ []))
    × (((keys_but_two two_rows.inbox_events ≡ some (1 ∷ []))
          × (select (λ e. e.id == 1) two_rows.inbox_events ≡ two_rows.inbox_events)
          × (select (λ e. e.id == 2) two_rows.inbox_events ≡ []))
        ⊎ ((keys_but_two two_rows.inbox_events ≡ none)
            × (select (λ e. e.id == 1) two_rows.inbox_events
                ≡ select (λ e. not (is_invalid keys_but_two [] e)) two_rows.inbox_events)
            × (select (λ e. e.id == 2) two_rows.inbox_events
                ≡ select (is_invalid keys_but_two []) two_rows.inbox_events)))
encode_isolated_batch-parts_example =
    encode_isolated_batch-parts keys_but_two [] two_rows.inbox_events
      (select (λ e. e.id == 1) two_rows.inbox_events)
      (select (λ e. e.id == 2) two_rows.inbox_events) (1 ∷ []) one_set_aside
