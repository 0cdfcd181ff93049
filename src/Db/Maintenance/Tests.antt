-- ===== src/Db/Maintenance/Tests.antt =====
-- A delivered row that has passed its retention, beside a waiting one.
use android_apm_server.Prelude.{◌≡◌, refl, arith, true, some, [], ◌∷◌}
use android_apm_server.Errors.{ok}
use android_apm_server.Db.Models.{InboxStatus, InboxEvent, Database}
use android_apm_server.Db.Table.{Pointwise, update_where}
use android_apm_server.Db.Table.Claims.{update_chosen}
use android_apm_server.Db.Tests.{
  waiting_row, crash_identity, crash_evidence, waiting_delivery, unlocked,
}
use android_apm_server.Db.Maintenance.{
  RetentionSettings, check_inbox_capacity, raw_bytes, maintain_once, prunable, prune,
  has_unfinished_job, terminal_time, days,
}
use android_apm_server.Db.Maintenance.Pruning.{
  IsKeptOrPruned, maintain_once-IsKeptOrPruned, maintain_once-admission,
}

abbrev settings : RetentionSettings
settings = record {
  inbox_max_live_events = 5;
  inbox_max_raw_bytes = 1000;
  retention_enabled = true;
  delivered_retention_days = 1;
  dead_letter_retention_days = 2;
  retention_batch_size = 10;
}

abbrev delivered_row : InboxEvent
delivered_row = record {
  id = 3;
  identity = crash_identity "e3";
  delivery = record waiting_delivery {
    status = InboxStatus.delivered;
    delivered_at = some 7;
    finalized_at = some 7;
  };
  evidence = crash_evidence;
}

abbrev mixed : Database
mixed = record { inbox_events = waiting_row 1 "e1" ∷ delivered_row ∷ []; symbolization_jobs = [] }

one_pruned : (maintain_once settings (days 3) unlocked mixed).1 ≡ 1
unfolding maintain_once prunable has_unfinished_job terminal_time
one_pruned = refl

half_left : raw_bytes (maintain_once settings (days 3) unlocked mixed).0.inbox_events ≡ 60
unfolding maintain_once prunable has_unfinished_job terminal_time raw_bytes update_chosen
    update_where prune
half_left = refl

maintain_once-IsKeptOrPruned_example :
    Pointwise
      (IsKeptOrPruned settings (days 3) mixed.symbolization_jobs)
      mixed.inbox_events
      (maintain_once settings (days 3) unlocked mixed).0.inbox_events
maintain_once-IsKeptOrPruned_example =
    maintain_once-IsKeptOrPruned settings (days 3) unlocked mixed (omega arith)

admitted : check_inbox_capacity settings true mixed.inbox_events ≡ ok tt
unfolding check_inbox_capacity raw_bytes
admitted = refl

maintain_once-admission_example :
    check_inbox_capacity settings true
      (maintain_once settings (days 3) unlocked mixed).0.inbox_events
    ≡ ok tt
maintain_once-admission_example =
    maintain_once-admission settings (days 3) unlocked true mixed (omega arith) admitted
