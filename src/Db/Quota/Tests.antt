-- ===== src/Db/Quota/Tests.antt =====
-- Requests of two keys in one minute, and the theorems at these inputs.
use android_apm_server.Prelude.{ℕ, ◌≤◌, ◌≡◌, refl, String, List, [], ◌∷◌}
use android_apm_server.Errors.{err}
use android_apm_server.Db.Quota.{Principal, window_seconds, quota_error, consume_quota}
use android_apm_server.Db.Quota.Limits.{
  Request, is_for, serve, accepted_requests, accepted_events, accepted_within_limits,
  charged_events, charged_requests, refusal_retry_after,
}

abbrev phone : Principal
phone = record { key_id = "k1"; requests_per_minute = 2; events_per_minute = 10 }

abbrev tablet : Principal
tablet = record { key_id = "k2"; requests_per_minute = 2; events_per_minute = 10 }

abbrev request : Principal → ℕ → ℕ → Request
request p events observed = record { principal = p; events = events; observed = observed }

-- The third request is over the requests of the minute, and the last is in the next minute.
abbrev requests : List Request
requests =
    request phone 4 1000000
    ∷ request tablet 9 2000000
    ∷ request phone 4 3000000
    ∷ request phone 1 4000000
    ∷ request phone 5 61000000
    ∷ []

two_accepted : accepted_requests "k1" 0 requests [] ≡ 2
unfolding accepted_requests serve is_for
two_accepted = refl

accepted_within_limits_example :
    (accepted_requests "k1" 0 requests [] ≤ 2) × (accepted_events "k1" 0 requests [] ≤ 10)
accepted_within_limits_example =
    accepted_within_limits (λ key. 2) (λ key. 10) "k1" 0 requests
      ((refl, refl), ((refl, refl), ((refl, refl), ((refl, refl), ((refl, refl), tt)))))

refused : (consume_quota phone 11 20000000 []).0 ≡ err (quota_error 60)
unfolding consume_quota
refused = refl

refusal_retry_after_example :
    (n : ℕ) × (quota_error 60 ≡ quota_error n)
    × (1 ≤ n)
    × (n ≤ window_seconds)
    × ((key : String) (start : ℕ)
        → (charged_requests key start (consume_quota phone 11 20000000 []).1
            ≡ charged_requests key start [])
          × (charged_events key start (consume_quota phone 11 20000000 []).1
              ≡ charged_events key start []))
refusal_retry_after_example = refusal_retry_after phone 11 20000000 [] (quota_error 60) refused
