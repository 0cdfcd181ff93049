-- ===== src/Db/Quota.antt =====
-- db/quota.py: one request and its events are charged to the UTC minute of the clock. `observed` is
-- the clock's reading in microseconds since a full minute.
pub mod Limits
mod Tests
use android_apm_server.Prelude.{
  ℕ, ◌+◌, ◌-◌, ◌*◌, ◌/◌, ◌%◌, max, String, Bool, true, false, ◌&&◌, ◌||◌, List, [], ◌∷◌, ltb, leb,
  ◌==◌, str_eq, any, if◌then◌else◌,
}
use android_apm_server.Errors.{ApiError, Result, ok, err, busy}

abbrev pub window_seconds : ℕ
window_seconds = 60

-- The scope of a credential, as far as the quota needs it.
pub record Principal : Type 0 where
  pub key_id : String
  pub requests_per_minute : ℕ
  pub events_per_minute : ℕ

pub record IngestRateWindow : Type 0 where
  pub key_id : String
  pub window_started_at : ℕ
  pub request_count : ℕ
  pub event_count : ℕ

abbrev pub quota_error : ℕ → ApiError
quota_error retry_after = busy 429 "quota_exceeded" retry_after

-- observed.replace(second=0, microsecond=0)
unfoldable pub window_start : ℕ → ℕ
window_start observed = observed - observed % 60000000

-- observed.second
unfoldable pub second : ℕ → ℕ
second observed = observed / 1000000 % 60

unfoldable pub same_window : String → ℕ → IngestRateWindow → Bool
same_window key_id start w = str_eq w.key_id key_id && w.window_started_at == start

unfoldable pub within_limits : Principal → ℕ → IngestRateWindow → Bool
within_limits p events w =
    leb (w.request_count + 1) p.requests_per_minute
    && leb (w.event_count + events) p.events_per_minute

unfoldable pub charge : ℕ → IngestRateWindow → IngestRateWindow
charge events w = record w {
  request_count = w.request_count + 1;
  event_count = w.event_count + events;
}

-- INSERT ... ON CONFLICT (key_id, window_started_at) DO UPDATE ... WHERE limits RETURNING key_id:
-- whether a row came back, and the table. The walk finds the row with the primary key.
unfoldable pub upsert : Principal → ℕ → ℕ → List IngestRateWindow → Bool × List IngestRateWindow
unfolding same_window within_limits charge
upsert p start events [] = (
  true,
  record { key_id = p.key_id; window_started_at = start; request_count = 1; event_count = events }
      ∷ [],
)
upsert p start events (w ∷ ws) =
    let rest = upsert p start events ws in
    if same_window p.key_id start w
    then (if within_limits p events w then (true, charge events w ∷ ws) else (false, w ∷ ws))
    else (rest.0, w ∷ rest.1)

unfoldable pub consume_quota :
    Principal → ℕ → ℕ → List IngestRateWindow → Result (Unit {0}) × List IngestRateWindow
unfolding upsert window_start second
consume_quota p events observed windows =
    let (consumed, windows') = upsert p (window_start observed) events windows in
    if ltb p.requests_per_minute 1 || ltb p.events_per_minute events
    then (err (quota_error window_seconds), windows)
    else if consumed
    then (ok tt, windows')
    else (err (quota_error (max 1 (window_seconds - second observed))), windows')
