-- ===== src/Ingest/Headers.antt =====
-- The headers and the body of one ingest request: `_required_header`, `_optional_header`,
-- `_negotiate_content_type`, `_validate_versioned_request_headers` and `_read_body_bounded` of
-- api/ingest.py. `headers` is request.headers.get; a header is Latin-1 text.
use Prim.Native.String.{len}
use android_apm_server.Prelude.{
  ℕ, ◌+◌, String, Bool, true, false, not, ◌&&◌, ◌||◌, Option, none, some, List, [], ◌∷◌, ◌++◌,
  length, any, codes, lower, same_codes, is_empty, is_none, ltb, ◌==◌, str_eq, strip, strip_of,
  split, partition, parse_int, text_is, if◌then◌else◌,
}
use android_apm_server.Errors.{ApiError, Result, ok, err, ◌>>=◌, ◌>>◌, refuse_if, failure}

abbrev pub invalid_request : ApiError
invalid_request = failure 400 "invalid_request"

abbrev pub payload_too_large : ApiError
payload_too_large = failure 413 "payload_too_large"

abbrev pub unsupported_media_type : ApiError
unsupported_media_type = failure 415 "unsupported_media_type"

abbrev pub is_control : ℕ → Bool
is_control c = ltb c 32 || c == 127

-- _validate_header_value
unfoldable pub validate_header_value : String → ℕ → Result String
validate_header_value value max_bytes =
    refuse_if (ltb max_bytes (len value)) invalid_request
    >> (refuse_if (any is_control (codes value)) invalid_request >> ok value)

-- A header that is there and not blank, trimmed.
abbrev pub present : Option String → Option String
present none = none
present (some value) = if is_empty (strip value) then none else some (strip value)

abbrev pub required_of : Option String → ℕ → Result String
required_of none max_bytes = err invalid_request
required_of (some value) max_bytes = validate_header_value value max_bytes

abbrev pub some_of : Result String → Result (Option String)
some_of (ok value) = ok (some value)
some_of (err e) = err e

abbrev pub optional_of : Option String → ℕ → Result (Option String)
optional_of none max_bytes = ok none
optional_of (some value) max_bytes = some_of (validate_header_value value max_bytes)

module _ (headers : String → Option String) where
  unfoldable pub required_header : String → ℕ → Result String
  unfolding validate_header_value
  required_header name max_bytes = required_of (present (headers name)) max_bytes

  unfoldable pub optional_header : String → ℕ → Result (Option String)
  unfolding validate_header_value
  optional_header name max_bytes = optional_of (present (headers name)) max_bytes

-- The two media types, and the versions of an explicit envelope.
pub data MediaType : Type 0 where
  line protobuf : MediaType

pub data EnvelopeVersion : Type 0 where
  v2 v3 : EnvelopeVersion

abbrev pub media_type : List ℕ → Option MediaType
media_type base =
    if same_codes base (codes "text/plain")
    then some MediaType.line
    else (if same_codes base (codes "application/x-protobuf")
        then some MediaType.protobuf
        else none)

-- The parameters, the last one first: `none` where one has no "=".
abbrev pub is_quote : ℕ → Bool
is_quote c = c == b'"'

abbrev pub parameter :
    String × Option String → Option (List (List ℕ × String)) → Option (List (List ℕ × String))
parameter pair none = none
parameter (key, none) (some ps) = none
parameter (key, some value) (some ps) =
    some ((lower (codes (strip key)), strip_of is_quote (strip value)) ∷ ps)

unfoldable pub parameters : List String → Option (List (List ℕ × String))
unfolding partition
parameters [] = some []
parameters (part ∷ parts) =
    let rest = parameters parts in
    if is_empty (strip part) then rest else parameter (partition b'=' (strip part)) rest

-- A dict keeps the last value of a key.
unfoldable pub last_value : String → List (List ℕ × String) → Option String
last_value key [] = none
last_value key ((k, value) ∷ ps) =
    let later = last_value key ps in
    let here = if same_codes k (codes key) then some value else none in
    if is_none later then here else later

abbrev pub envelope_version : Option String → Option EnvelopeVersion
envelope_version none = none
envelope_version (some text) =
    if str_eq text "2"
    then some EnvelopeVersion.v2
    else (if str_eq text "3" then some EnvelopeVersion.v3 else none)

abbrev pub is_protobuf : MediaType → Bool
is_protobuf MediaType.line = false
is_protobuf MediaType.protobuf = true

-- The version where the envelope is explicit.
abbrev pub explicit_envelope : MediaType → List (List ℕ × String) → Option EnvelopeVersion
explicit_envelope kind ps =
    if is_protobuf kind && text_is (last_value "message" ps) "ApmBatchEnvelope"
    then envelope_version (last_value "version" ps)
    else none

abbrev pub with_parameters :
    MediaType → Option (List (List ℕ × String)) → Result (MediaType × Option EnvelopeVersion)
with_parameters kind none = err unsupported_media_type
with_parameters kind (some ps) =
    refuse_if
      (is_protobuf kind
        && not (is_none (last_value "message" ps) && is_none (last_value "version" ps))
        && is_none (explicit_envelope kind ps))
      unsupported_media_type
    >> ok (kind, explicit_envelope kind ps)

abbrev pub with_base : Option MediaType → List String → Result (MediaType × Option EnvelopeVersion)
with_base none parts = err unsupported_media_type
with_base (some kind) parts = with_parameters kind (parameters parts)

abbrev pub of_parts : List String → Result (MediaType × Option EnvelopeVersion)
of_parts [] = err unsupported_media_type
of_parts (base ∷ parts) = with_base (media_type (lower (codes (strip base)))) parts

unfoldable pub negotiate_content_type : String → Result (MediaType × Option EnvelopeVersion)
unfolding split parameters last_value
negotiate_content_type raw = of_parts (split b';' raw)

-- _validate_versioned_request_headers
abbrev pub is_count : Option (Bool × ℕ) → ℕ → Bool
is_count none n = false
is_count (some (negative, m)) n = not negative && m == n

unfoldable pub validate_versioned_request_headers :
    (String → Option String) → String → ℕ → Result (Unit {0})
unfolding required_header
validate_versioned_request_headers headers body_batch_id body_event_count =
    required_header headers "X-Apm-Batch-Id" 128 >>= λ batch_id.
    required_header headers "X-Apm-Event-Count" 16 >>= λ event_count_text.
    refuse_if (is_none (parse_int event_count_text)) invalid_request
    >> refuse_if
        (not (str_eq batch_id body_batch_id)
          || not (is_count (parse_int event_count_text) body_event_count))
        invalid_request

-- The chunks of the stream, behind the body so far.
unfoldable pub read_chunks : ℕ → List ℕ → List (List ℕ) → Result (List ℕ)
read_chunks max_bytes body [] = ok body
read_chunks max_bytes body (chunk ∷ chunks) =
    refuse_if (ltb max_bytes (length body + length chunk)) payload_too_large
    >> read_chunks max_bytes (body ++ chunk) chunks

abbrev pub check_declared : Option (Bool × ℕ) → ℕ → Result (Unit {0})
check_declared none max_bytes = err invalid_request
check_declared (some (true, n)) max_bytes = err invalid_request
check_declared (some (false, n)) max_bytes = refuse_if (ltb max_bytes n) payload_too_large

abbrev pub check_length : Option String → ℕ → Result (Unit {0})
check_length none max_bytes = ok tt
check_length (some text) max_bytes = check_declared (parse_int text) max_bytes

unfoldable pub read_body_bounded : Option String → ℕ → List (List ℕ) → Result (List ℕ)
unfolding read_chunks
read_body_bounded content_length max_bytes chunks =
    check_length content_length max_bytes >> read_chunks max_bytes [] chunks
