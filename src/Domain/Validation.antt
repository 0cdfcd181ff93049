-- ===== src/Domain/Validation.antt =====
-- The validators of `ApmEvent` in domain.py, for events whose maps hold texts. `now` is the clock in
-- microseconds; `len` counts the bytes of UTF-8.
use Prim.Native.String.{len}
use android_apm_server.Prelude.{
  ℕ, ◌+◌, ◌*◌, String, Bool, true, not, ◌&&◌, ◌||◌, Option, none, some, List, [], ◌∷◌, length, any,
  codes, is_empty, leb, ltb, ◌==◌,
}

abbrev pub max_event_id_bytes : ℕ
max_event_id_bytes = 128

abbrev pub max_identifier_bytes : ℕ
max_identifier_bytes = 256

abbrev pub max_map_entries : ℕ
max_map_entries = 256

abbrev pub max_map_key_bytes : ℕ
max_map_key_bytes = 128

abbrev pub max_map_value_bytes : ℕ
max_map_value_bytes = 8192

abbrev pub max_future_skew_seconds : ℕ
max_future_skew_seconds = 600

abbrev pub control : ℕ → Bool
control c = ltb c 32 || c == 127

unfoldable pub validate_event_id : String → Bool
validate_event_id value =
    not (is_empty value) && leb (len value) max_event_id_bytes && not (any control (codes value))

unfoldable pub validate_required_identifier : String → Bool
validate_required_identifier value = not (is_empty value) && leb (len value) max_identifier_bytes

unfoldable pub validate_optional_identifier : Option String → Bool
validate_optional_identifier none = true
validate_optional_identifier (some value) = leb (len value) max_identifier_bytes

abbrev pub valid_entry : String × String → Bool
valid_entry (key, value) =
    not (is_empty key) && leb (len key) max_map_key_bytes && leb (len value) max_map_value_bytes

abbrev pub all_entries : List (String × String) → Bool
all_entries [] = true
all_entries (entry ∷ entries) = valid_entry entry && all_entries entries

unfoldable pub validate_map : List (String × String) → Bool
validate_map entries = leb (length entries) max_map_entries && all_entries entries

-- `timestamp` is in milliseconds, and positive.
unfoldable pub validate_timestamp : ℕ → ℕ → Bool
validate_timestamp now timestamp =
    ltb 0 timestamp && leb (timestamp * 1000) (now + max_future_skew_seconds * 1000000)
