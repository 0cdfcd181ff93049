-- ===== src/Db/Quota/Limits.antt =====
-- `consume_quota` of db/quota.py over a series of requests.
use android_apm_server.Prelude.{
  ℕ, ◌+◌, ◌-◌, ◌≤◌, max, String, ◌≡◌, inl, inr, Bool, true, false, ◌&&◌, ◌||◌, List, [], ◌∷◌, arith,
  ltb, ◌==◌, str_eq, eq_iff, All, Bool-cases, if◌then◌else◌,
}
use android_apm_server.Errors.{ApiError, Result, ok, err}
use android_apm_server.Db.Quota.{
  Principal, IngestRateWindow, window_start, second, same_window, within_limits, charge, upsert,
  consume_quota, quota_error, window_seconds,
}

-- What is charged to one key in one window.
unfoldable pub charged_requests : String → ℕ → List IngestRateWindow → ℕ
charged_requests key start [] = 0
charged_requests key start (w ∷ ws) =
    if same_window key start w then w.request_count else charged_requests key start ws

unfoldable pub charged_events : String → ℕ → List IngestRateWindow → ℕ
charged_events key start [] = 0
charged_events key start (w ∷ ws) =
    if same_window key start w then w.event_count else charged_events key start ws

abbrev pub is_ok {ℓ} : {A : Type ℓ} → Result A → Bool
is_ok (ok a) = true
is_ok (err e) = false

pub record Request : Type 0 where
  pub principal : Principal
  pub events : ℕ
  pub observed : ℕ

abbrev pub request_key : Request → String
request_key r = r.principal.key_id

unfoldable pub is_for : String → ℕ → Request → Bool
is_for key start r = str_eq r.principal.key_id key && window_start r.observed == start

unfoldable pub serve : Request → List IngestRateWindow → Bool × List IngestRateWindow
unfolding consume_quota
serve r windows =
    let (result, windows') = consume_quota r.principal r.events r.observed windows in
    (is_ok result, windows')

unfoldable pub serve_all : List Request → List IngestRateWindow → List IngestRateWindow
serve_all [] windows = windows
serve_all (r ∷ rs) windows = serve_all rs (serve r windows).1

-- Accepted requests of one key in one window, and their events.
unfoldable pub accepted_requests : String → ℕ → List Request → List IngestRateWindow → ℕ
accepted_requests key start [] windows = 0
accepted_requests key start (r ∷ rs) windows =
    (if (serve r windows).0 && is_for key start r then 1 else 0)
    + accepted_requests key start rs (serve r windows).1

unfoldable pub accepted_events : String → ℕ → List Request → List IngestRateWindow → ℕ
accepted_events key start [] windows = 0
accepted_events key start (r ∷ rs) windows =
    (if (serve r windows).0 && is_for key start r then r.events else 0)
    + accepted_events key start rs (serve r windows).1

charged-upsert :
    (p : Principal) (s events : ℕ) (key : String) (start : ℕ) (ws : List IngestRateWindow)
    → let counts = (upsert p s events ws).0 && (str_eq p.key_id key && s == start) in
      (charged_requests key start (upsert p s events ws).1
        ≡ charged_requests key start ws + (if counts then 1 else 0))
      × (charged_events key start (upsert p s events ws).1
          ≡ charged_events key start ws + (if counts then events else 0))
unfolding charged_requests charged_events upsert same_window charge
charged-upsert p s events key start [] = ground arith
charged-upsert p s events key start (w ∷ ws) = ground (
  arith,
  charged-upsert p s events key start ws,
  eq_iff w.key_id p.key_id,
  eq_iff w.key_id key,
  eq_iff p.key_id key,
)

-- A request that is served is charged, and one that is refused is not.
charged-serve :
    (r : Request) (key : String) (start : ℕ) (ws : List IngestRateWindow)
    → let counts = (serve r ws).0 && is_for key start r in
      (charged_requests key start (serve r ws).1
        ≡ charged_requests key start ws + (if counts then 1 else 0))
      × (charged_events key start (serve r ws).1
          ≡ charged_events key start ws + (if counts then r.events else 0))
unfolding serve is_for consume_quota
charged-serve r key start ws =
    let p = r.principal in
    ground (arith, charged-upsert p (window_start r.observed) r.events key start ws)

accepted-charged :
    (key : String) (start : ℕ) (rs : List Request) (ws : List IngestRateWindow)
    → (accepted_requests key start rs ws + charged_requests key start ws
        ≡ charged_requests key start (serve_all rs ws))
      × (accepted_events key start rs ws + charged_events key start ws
          ≡ charged_events key start (serve_all rs ws))
unfolding accepted_requests accepted_events serve_all
accepted-charged key start [] ws = (omega arith, omega arith)
accepted-charged key start (r ∷ rs) ws =
    let now = charged-serve r key start ws in
    let later = accepted-charged key start rs (serve r ws).1 in
    (omega (arith, now.0, later.0), omega (arith, now.1, later.1))

neither : (a b : Bool) → (a || b) ≡ false → (a ≡ false) × (b ≡ false)
neither a b h = ground arith

-- The limits of each credential, as the requests present them.
module _ (requests_of events_of : String → ℕ) where
  abbrev pub HasLimits : Request → Type 0
  HasLimits r =
      (r.principal.requests_per_minute ≡ requests_of r.principal.key_id)
      × (r.principal.events_per_minute ≡ events_of r.principal.key_id)

  abbrev pub Within : IngestRateWindow → Type 0
  Within w = (w.request_count ≤ requests_of w.key_id) × (w.event_count ≤ events_of w.key_id)

  upsert-Within :
      (r : Request) (s : ℕ) (ws : List IngestRateWindow)
      → HasLimits r
      → ltb r.principal.requests_per_minute 1 ≡ false
      → ltb r.principal.events_per_minute r.events ≡ false
      → All Within ws
      → All Within (upsert r.principal s r.events ws).1
  unfolding upsert same_window within_limits charge
  upsert-Within r s [] l some_requests some_events h = (ground arith, tt)
  upsert-Within r s (w ∷ ws) l some_requests some_events h = ground (
    arith,
    upsert-Within r s ws l some_requests some_events h.1,
    eq_iff w.key_id r.principal.key_id,
  )

  serve-Within :
      (r : Request) (ws : List IngestRateWindow)
      → HasLimits r
      → All Within ws
      → All Within (serve r ws).1
  unfolding serve consume_quota
  serve-Within r ws l h =
      let p = r.principal in
      elim (Bool-cases (ltb p.requests_per_minute 1 || ltb p.events_per_minute r.events)) [
        | inl e ↦ rw e h
        | inr e ↦
            let (some_requests, some_events) = neither _ _ e in
            let kept = upsert-Within r (window_start r.observed) ws l some_requests some_events h in
            elim (Bool-cases (upsert p (window_start r.observed) r.events ws).0) [
              | inl c ↦ rw (e, c) kept
              | inr c ↦ rw (e, c) kept
            ]
      ]

  serve_all-Within :
      (rs : List Request) (ws : List IngestRateWindow)
      → All HasLimits rs
      → All Within ws
      → All Within (serve_all rs ws)
  unfolding serve_all
  serve_all-Within [] ws l h = h
  serve_all-Within (r ∷ rs) ws l h =
      serve_all-Within rs (serve r ws).1 l.1 (serve-Within r ws l.0 h)

  charged-Within :
      (key : String) (start : ℕ) (ws : List IngestRateWindow)
      → All Within ws
      → (charged_requests key start ws ≤ requests_of key)
        × (charged_events key start ws ≤ events_of key)
  unfolding charged_requests charged_events same_window
  charged-Within key start [] h = (omega arith, omega arith)
  charged-Within key start (w ∷ ws) h =
      ground (arith, charged-Within key start ws h.1, eq_iff w.key_id key)

  -- Of any requests, in any order and at any times, those of one key that are accepted in one UTC
  -- minute are at most its requests per minute, and carry at most its events per minute; the limits
  -- of a key are the same in all its requests.
  pub accepted_within_limits :
      (key : String) (start : ℕ) (rs : List Request)
      → All HasLimits rs
      → (accepted_requests key start rs [] ≤ requests_of key)
        × (accepted_events key start rs [] ≤ events_of key)
  accepted_within_limits key start rs l =
      let bound = charged-Within key start (serve_all rs []) (serve_all-Within rs [] l tt) in
      let account = accepted-charged key start rs [] in
      (omega (arith, bound.0, account.0), omega (arith, bound.1, account.1))

refusal_delay :
    (p : Principal) (events observed : ℕ) (ws : List IngestRateWindow) (e : ApiError)
    → (consume_quota p events observed ws).0 ≡ err e
    → (n : ℕ) × ((e ≡ quota_error n) × ((1 ≤ n) × (n ≤ window_seconds)))
unfolding consume_quota second
refusal_delay p events observed ws e h =
    elim (Bool-cases (ltb p.requests_per_minute 1 || ltb p.events_per_minute events)) [
      | inl b ↦ (window_seconds, (ground arith, (omega arith, omega arith)))
      | inr b ↦
          (max 1 (window_seconds - second observed), (ground arith, (omega arith, omega arith)))
    ]

refusal_charge :
    (p : Principal) (events observed : ℕ) (ws : List IngestRateWindow) (e : ApiError)
    → (consume_quota p events observed ws).0 ≡ err e
    → (key : String) (start : ℕ)
    → (charged_requests key start (consume_quota p events observed ws).1
        ≡ charged_requests key start ws)
      × (charged_events key start (consume_quota p events observed ws).1
          ≡ charged_events key start ws)
unfolding serve
refusal_charge p events observed ws e h key start =
    let r : Request = record { principal = p; events = events; observed = observed } in
    ground (arith, charged-serve r key start ws)

-- A refusal names a delay between one second and a minute, is retryable, and charges neither a request
-- nor events to any window.
pub refusal_retry_after :
    (p : Principal) (events observed : ℕ) (ws : List IngestRateWindow) (e : ApiError)
    → (consume_quota p events observed ws).0 ≡ err e
    → (n : ℕ) × (e ≡ quota_error n)
      × (1 ≤ n)
      × (n ≤ window_seconds)
      × ((key : String) (start : ℕ)
          → (charged_requests key start (consume_quota p events observed ws).1
              ≡ charged_requests key start ws)
            × (charged_events key start (consume_quota p events observed ws).1
                ≡ charged_events key start ws))
refusal_retry_after p events observed ws e h =
    let (n, (same, (low, high))) = refusal_delay p events observed ws e h in
    (n, same, low, high, λ key start. refusal_charge p events observed ws e h key start)
