-- ===== src/Protocol/Line.antt =====
-- protocol/line.py: a batch of text lines, each with the fields of one event. `now` is the clock that
-- the validation of an event reads.
pub mod Maps
pub mod Bounds
mod Tests
use Prim.Native.Char.{code}
use android_apm_server.Prelude.{
  ℕ, suc, ◌+◌, String, Bool, true, false, not, ◌&&◌, ◌||◌, Option, none, some, List, [], ◌∷◌, ◌++◌,
  length, any, select, str_eq, is_none, is_empty, leb, ltb, ◌==◌, split, partition, parse_int,
  put_first, if◌then◌else◌,
}
use android_apm_server.Errors.{
  ApiError, Result, ok, err, ◌>>=◌, ◌>>◌, refuse_if, failure, failure_at,
}
use android_apm_server.Json.{Json, Fields}
use android_apm_server.Domain.{ApmEvent, EventKind, EventSeverity, EventPriority}
use android_apm_server.Domain.Validation.{
  validate_event_id, validate_required_identifier, validate_optional_identifier, validate_map,
  validate_timestamp,
}

abbrev pub invalid_event : ℕ → ApiError
invalid_event index = failure_at 422 "invalid_event" index

-- The line boundaries of str.splitlines.
abbrev pub is_break : ℕ → Bool
is_break c = (leb 10 c && leb c 13) || (leb 28 c && leb c 30) || c == 133 || c == 8232 || c == 8233

abbrev starts_with_feed : String → Bool
starts_with_feed String.[] = false
starts_with_feed (String.◌∷◌ c s) = code c == 10

-- text.splitlines(): a carriage return and a line feed are one boundary.
unfoldable pub splitlines : String → List String
splitlines String.[] = []
splitlines (String.◌∷◌ c s) =
    let rest = splitlines s in
    if code c == 13 && starts_with_feed s
    then rest
    else (if is_break (code c) then String.[] ∷ rest else put_first c rest)

abbrev pub Pairs : Type 0
Pairs = List (String × String)

abbrev pub has_pair : String → Pairs → Bool
has_pair key pairs = any (λ pair. str_eq pair.0 key) pairs

-- `segments.get(key)`
unfoldable pub find_pair : String → Pairs → Option String
find_pair key [] = none
find_pair key ((k, value) ∷ pairs) =
    let rest = find_pair key pairs in if str_eq k key then some value else rest

-- One `key=value`, behind those before it; `none` where the line or the map is refused.
abbrev pub add_pair : String × Option String → Pairs → Option Pairs
add_pair (key, none) pairs = none
add_pair (key, some value) pairs =
    if is_empty key || has_pair key pairs then none else some (pairs ++ (key, value) ∷ [])

abbrev pub continue_with : (Pairs → Option Pairs) → Option Pairs → Option Pairs
continue_with more none = none
continue_with more (some pairs) = more pairs

unfoldable pub parse_pairs : List String → Pairs → Option Pairs
unfolding partition
parse_pairs [] pairs = some pairs
parse_pairs (item ∷ items) pairs =
    continue_with (parse_pairs items) (add_pair (partition b'=' item) pairs)

-- _parse_map, of a segment that may be missing
unfoldable pub parse_map : Option String → Option Pairs
unfolding parse_pairs split
parse_map none = some []
parse_map (some value) = if is_empty value then some [] else parse_pairs (split b',' value) []

-- _parse_foreground
unfoldable pub parse_foreground : Option String → Option (Option Bool)
parse_foreground none = some none
parse_foreground (some value) =
    if str_eq value "true"
    then some (some true)
    else (if str_eq value "false" then some (some false) else none)

abbrev pub required_keys : List String
required_keys =
    "ts" ∷ "eventId" ∷ "module" ∷ "name" ∷ "kind" ∷ "severity" ∷ "priority" ∷ "process" ∷ "thread"
    ∷ []

abbrev pub known_keys : List String
known_keys = required_keys ++ "scene" ∷ "foreground" ∷ "fields" ∷ "context" ∷ "extras" ∷ []

abbrev pub parse_kind : String → Option EventKind
parse_kind text =
    if str_eq text "METRIC"
    then some EventKind.metric
    else (if str_eq text "ALERT"
        then some EventKind.alert
        else (if str_eq text "FILE" then some EventKind.file else none))

abbrev pub parse_severity : String → Option EventSeverity
parse_severity text =
    if str_eq text "DEBUG"
    then some EventSeverity.debug
    else (if str_eq text "INFO"
        then some EventSeverity.info
        else (if str_eq text "WARN"
            then some EventSeverity.warn
            else (if str_eq text "ERROR"
                then some EventSeverity.error
                else (if str_eq text "FATAL" then some EventSeverity.fatal else none))))

abbrev pub parse_priority : String → Option EventPriority
parse_priority text =
    if str_eq text "LOW"
    then some EventPriority.low
    else (if str_eq text "NORMAL"
        then some EventPriority.normal
        else (if str_eq text "HIGH"
            then some EventPriority.high
            else (if str_eq text "CRITICAL" then some EventPriority.critical else none)))

abbrev pub fields_from : Pairs → Fields
fields_from [] = Fields.end
fields_from ((key, value) ∷ pairs) = Fields.field key (Json.str value) (fields_from pairs)

-- A value that was found, or the refusal of the line.
abbrev pub wanted {ℓ} : {A : Type ℓ} → ℕ → Option A → Result A
wanted index none = err (invalid_event index)
wanted index (some value) = ok value

abbrev pub positive : Option (Bool × ℕ) → Option ℕ
positive none = none
positive (some (negative, n)) = if negative || n == 0 then none else some n

abbrev pub int_of : Option String → Option ℕ
int_of none = none
int_of (some text) = positive (parse_int text)

abbrev pub kind_of : Option String → Option EventKind
kind_of none = none
kind_of (some text) = parse_kind text

abbrev pub severity_of : Option String → Option EventSeverity
severity_of none = none
severity_of (some text) = parse_severity text

abbrev pub priority_of : Option String → Option EventPriority
priority_of none = none
priority_of (some text) = parse_priority text

-- The maps of one line.
pub record LineMaps : Type 0 where
  pub fields : Pairs
  pub global_context : Pairs
  pub extras : Pairs
  pub unknown : Pairs

-- The validators of ApmEvent.
unfoldable pub validate_line_event : ℕ → ApmEvent → LineMaps → Bool
unfolding validate_event_id validate_required_identifier validate_optional_identifier validate_map
    validate_timestamp
validate_line_event now e maps =
    validate_timestamp now e.timestamp
    && validate_event_id e.event_id
    && validate_required_identifier e.module_name
    && validate_required_identifier e.name
    && validate_required_identifier e.process_name
    && validate_required_identifier e.thread_name
    && validate_optional_identifier e.scene
    && validate_map maps.fields
    && validate_map maps.global_context
    && validate_map maps.extras
    && validate_map maps.unknown

unfoldable pub line_maps : ℕ → Pairs → Result LineMaps
unfolding parse_map find_pair
line_maps index segments = wanted index (parse_map (find_pair "fields" segments)) >>= λ fields.
    wanted index (parse_map (find_pair "context" segments)) >>= λ global_context.
    wanted index (parse_map (find_pair "extras" segments)) >>= λ extras. ok (record {
      fields = fields;
      global_context = global_context;
      extras = extras;
      unknown = select (λ pair. not (any (λ key. str_eq pair.0 key) known_keys)) segments;
    })

unfoldable pub line_event : ℕ → Pairs → LineMaps → Result ApmEvent
unfolding parse_foreground find_pair
line_event index segments maps = wanted index (int_of (find_pair "ts" segments)) >>= λ timestamp.
    wanted index (find_pair "eventId" segments) >>= λ event_id.
    wanted index (find_pair "module" segments) >>= λ module_name.
    wanted index (find_pair "name" segments) >>= λ name.
    wanted index (kind_of (find_pair "kind" segments)) >>= λ kind.
    wanted index (severity_of (find_pair "severity" segments)) >>= λ severity.
    wanted index (priority_of (find_pair "priority" segments)) >>= λ priority.
    wanted index (find_pair "process" segments) >>= λ process_name.
    wanted index (find_pair "thread" segments) >>= λ thread_name.
    wanted index (parse_foreground (find_pair "foreground" segments)) >>= λ foreground. ok (record {
      timestamp = timestamp;
      event_id = event_id;
      module_name = module_name;
      name = name;
      kind = kind;
      severity = severity;
      priority = priority;
      process_name = process_name;
      thread_name = thread_name;
      scene = find_pair "scene" segments;
      foreground = foreground;
      fields = fields_from maps.fields;
      field_types = Fields.end;
      global_context = fields_from maps.global_context;
      extras = fields_from maps.extras;
      unknown = fields_from maps.unknown;
      occurrence = none;
    })

-- _decode_line: all refusals of a line have the same code and index.
unfoldable pub decode_line : ℕ → String → ℕ → Result ApmEvent
unfolding parse_pairs line_maps line_event validate_line_event split
decode_line now line index = wanted index (parse_pairs (split b'|' line) []) >>= λ segments.
    refuse_if (any (λ key. not (has_pair key segments)) required_keys) (invalid_event index)
    >> (line_maps index segments >>= λ maps. line_event index segments maps >>= λ event.
        refuse_if (not (validate_line_event now event maps)) (invalid_event index) >> ok event)

unfoldable pub decode_lines : ℕ → ℕ → List String → Result (List ApmEvent)
unfolding decode_line
decode_lines now index [] = ok []
decode_lines now index (line ∷ lines) =
    refuse_if (is_empty line) (invalid_event index)
    >> (decode_line now line index >>= λ event.
        decode_lines now (suc index) lines >>= λ events. ok (event ∷ events))

-- `all(not line for line in raw_lines)`, also where there is none
abbrev pub all_blank : List String → Bool
all_blank lines = not (any (λ line. not (is_empty line)) lines)

abbrev pub decode_text : ℕ → ℕ → List String → Result (List ApmEvent)
decode_text now max_events lines =
    refuse_if (all_blank lines) (invalid_event 0)
    >> (refuse_if (ltb max_events (length lines)) (failure 413 "payload_too_large")
        >> decode_lines now 0 lines)

-- The text is the payload as strict UTF-8, `none` where it is not.
unfoldable pub decode_line_batch : ℕ → Option String → ℕ → Result (List ApmEvent)
unfolding splitlines decode_lines
decode_line_batch now none max_events = err (failure 400 "invalid_encoding")
decode_line_batch now (some text) max_events = decode_text now max_events (splitlines text)
