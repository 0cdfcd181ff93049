-- ===== src/Otlp/Client/Tests.antt =====
-- An overloaded collector, and the theorem at its answer.
use android_apm_server.Prelude.{ℕ, ◌≤◌, ◌≡◌, refl, String, true, false, Option, none, some}
use android_apm_server.Otlp.Client.{
  Delta, Reply, Content, IsAccepted, export, is_retryable, retry_after_max_seconds,
  parse_retry_after, export-classification,
}

-- Every value is two minutes, and no value is a date.
abbrev two_minutes : String → Option Delta
two_minutes value = some (Delta.ahead 120)

abbrev no_date : String → Option Delta
no_date value = none

abbrev in_decimal : ℕ → String
in_decimal n = "503"

abbrev overloaded : Reply
overloaded = Reply.response 503 Content.empty (some "120")

one_minute : (export two_minutes no_date in_decimal overloaded).retry_after_seconds ≡ some 60
unfolding export is_retryable parse_retry_after
one_minute = refl

export-classification_example :
    ((export two_minutes no_date in_decimal overloaded).success ≡ true
      → IsAccepted two_minutes no_date in_decimal overloaded)
    × (IsAccepted two_minutes no_date in_decimal overloaded
        → (export two_minutes no_date in_decimal overloaded).success ≡ true)
    × ((export two_minutes no_date in_decimal overloaded).success ≡ true
        → (export two_minutes no_date in_decimal overloaded).retryable ≡ false)
    × ((n : ℕ)
        → (export two_minutes no_date in_decimal overloaded).retry_after_seconds ≡ some n
        → (((export two_minutes no_date in_decimal overloaded).retryable ≡ true)
            × (n ≤ retry_after_max_seconds)))
export-classification_example = export-classification two_minutes no_date in_decimal overloaded
