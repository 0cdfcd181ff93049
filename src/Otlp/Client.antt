-- ===== src/Otlp/Client.antt =====
-- otlp/client.py: what an answer of the collector means for the batch. HTTP itself, the parser of the
-- answer, int() and the parser of HTTP dates are not part of the repository: the answer comes as a
-- `Reply`, the parsers as arguments.
mod Tests
use android_apm_server.Prelude.{
  ℕ, ◌+◌, ◌-◌, ◌≤◌, ◌≡◌, refl, min, ◌⊎◌, inl, inr, String, Bool, true, false, ◌&&◌, ◌||◌, Option,
  none, some, List, [], ◌∷◌, leb, ltb, ◌==◌, contains, is_empty, text_take, if◌then◌else◌, arith,
  Bool-cases,
}
use Prim.Native.String.{◌++◌}

pub record ExportResult : Type 0 where
  pub success : Bool
  pub retryable : Bool
  pub error_code : Option String
  pub error_message : Option String
  pub retry_after_seconds : Option ℕ

-- The content of an answer: none, one that does not parse, and one that does, with its partial
-- success. The count of rejected records is an int64, of which the number here has the 64 bits: a
-- negative count is not 0 either.
pub data Content : Type 0 where
  empty : Content
  unreadable : String → Content
  readable : ℕ → String → Content

-- `post` raises a timeout or a network error, or returns.
pub data Reply : Type 0 where
  unreachable : String → Reply
  response : ℕ → Content → Option String → Reply

-- A signed number of seconds.
pub data Delta : Type 0 where
  ahead : ℕ → Delta
  behind : ℕ → Delta

abbrev pub retry_after_max_seconds : ℕ
retry_after_max_seconds = 60

-- max(0, min(seconds, RETRY_AFTER_MAX_SECONDS))
abbrev pub clamp : Delta → ℕ
clamp (ahead n) = min n retry_after_max_seconds
clamp (behind n) = 0

abbrev pub clamp_date : Option Delta → Option ℕ
clamp_date none = none
clamp_date (some d) = some (clamp d)

abbrev pub parse_seconds : Option Delta → Option Delta → Option ℕ
parse_seconds (some d) date = some (clamp d)
parse_seconds none date = clamp_date date

-- RETRYABLE_STATUS_CODES
abbrev pub retryable_status_codes : List ℕ
retryable_status_codes = 408 ∷ 429 ∷ 502 ∷ 503 ∷ 504 ∷ []

unfoldable pub is_retryable : ℕ → Bool
is_retryable status = contains retryable_status_codes status || leb 500 status

-- `int_of` is int(value) where it does not raise, `date_of` the time until an HTTP date.
module _ (int_of date_of : String → Option Delta) (decimal : ℕ → String) where
  unfoldable pub parse_retry_after : Option String → Option ℕ
  parse_retry_after none = none
  parse_retry_after (some value) =
      if is_empty value then none else parse_seconds (int_of value) (date_of value)

  unfoldable pub accepted_content : Content → ExportResult
  accepted_content empty = record {
    success = true;
    retryable = false;
    error_code = none;
    error_message = none;
    retry_after_seconds = none;
  }
  accepted_content (unreadable error) = record {
    success = false;
    retryable = true;
    error_code = some "invalid_otlp_response";
    error_message = some (text_take 512 error);
    retry_after_seconds = none;
  }
  accepted_content (readable rejected message) =
      if ltb 0 rejected
      then record {
        success = false;
        retryable = false;
        error_code = some "otlp_partial_rejection";
        error_message = some (text_take 512 message);
        retry_after_seconds = none;
      }
      else record {
        success = true;
        retryable = false;
        error_code = none;
        error_message = none;
        retry_after_seconds = none;
      }

  unfoldable pub export : Reply → ExportResult
  unfolding parse_retry_after accepted_content is_retryable
  export (unreachable error) = record {
    success = false;
    retryable = true;
    error_code = some "transport_error";
    error_message = some (text_take 512 error);
    retry_after_seconds = none;
  }
  export (response status content retry_after) =
      if leb 200 status && ltb status 300 then accepted_content content else record {
        success = false;
        retryable = is_retryable status;
        error_code = some ("http_" ++ decimal status);
        error_message = some "OTLP endpoint rejected the export";
        retry_after_seconds = if is_retryable status then parse_retry_after retry_after else none;
      }

  parse_seconds-bound :
      (i d : Option Delta) (n : ℕ) → parse_seconds i d ≡ some n → n ≤ retry_after_max_seconds
  parse_seconds-bound (some (ahead k)) d n h = ground (arith, h)
  parse_seconds-bound (some (behind k)) d n h = ground (arith, h)
  parse_seconds-bound none none n h = absurd (cc)
  parse_seconds-bound none (some (ahead k)) n h = ground (arith, h)
  parse_seconds-bound none (some (behind k)) n h = ground (arith, h)

  parse_retry_after-bound :
      (value : Option String) (n : ℕ)
      → parse_retry_after value ≡ some n
      → n ≤ retry_after_max_seconds
  unfolding parse_retry_after
  parse_retry_after-bound none n h = absurd (cc)
  parse_retry_after-bound (some value) n h = elim (Bool-cases (is_empty value)) [
    | inl e ↦ absurd (ground (arith, e, h))
    | inr e ↦ parse_seconds-bound (int_of value) (date_of value) n (ground (arith, e, h))
  ]

  -- When a batch counts as delivered, and when it may be sent again.
  abbrev pub IsAccepted : Reply → Type 0
  IsAccepted (unreachable error) = ⊥
  IsAccepted (response status empty retry_after) = (200 ≤ status) × (status ≤ 299)
  IsAccepted (response status (unreadable error) retry_after) = ⊥
  IsAccepted (response status (readable rejected message) retry_after) =
      (200 ≤ status) × (status ≤ 299) × (rejected ≡ 0)

  -- An export succeeds exactly on a 2xx answer that is empty, or that parses and rejects no record;
  -- a success is not retryable. A delay is named only by a retryable failure, and is at most a minute.
  pub export-classification :
      (reply : Reply)
      → ((export reply).success ≡ true → IsAccepted reply)
        × (IsAccepted reply → (export reply).success ≡ true)
        × ((export reply).success ≡ true → (export reply).retryable ≡ false)
        × ((n : ℕ)
            → (export reply).retry_after_seconds ≡ some n
            → (((export reply).retryable ≡ true) × (n ≤ retry_after_max_seconds)))
  unfolding export accepted_content is_retryable
  export-classification (unreachable error) =
      ((λ h. absurd (cc)), (λ h. absurd h), (λ h. absurd (cc)), λ n h. absurd (cc))
  export-classification (response status empty retry_after) = (
    ground arith,
    ground arith,
    ground arith,
    λ n h. ground (arith, h, parse_retry_after-bound retry_after n),
  )
  export-classification (response status (unreadable error) retry_after) = (
    ground arith,
    (λ h. absurd h),
    ground arith,
    λ n h. ground (arith, h, parse_retry_after-bound retry_after n),
  )
  export-classification (response status (readable rejected message) retry_after) = (
    ground arith,
    ground arith,
    ground arith,
    λ n h. ground (arith, h, parse_retry_after-bound retry_after n),
  )
