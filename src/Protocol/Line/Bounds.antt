-- ===== src/Protocol/Line/Bounds.antt =====
-- The events that `decode_line_batch` of protocol/line.py returns.
use android_apm_server.Prelude.{
  ℕ, suc, ◌≤◌, ◌≡◌, refl, sym, ap, ◌∙◌, String, true, false, not, Option, none, some, List, [], ◌∷◌,
  length, arith, any, is_empty, ltb, select, str_eq, split, not-false, subst,
}
use android_apm_server.Errors.{ok, ◌>>=◌, ◌>>◌, refuse_if, failure, found_ok, passes, then_any}
use android_apm_server.Domain.{ApmEvent}
use android_apm_server.Protocol.Line.Maps.{
  HasDistinctKeys, parse_pairs-HasDistinctKeys, parse_map-HasDistinctKeys, select-HasDistinctKeys,
}
use android_apm_server.Protocol.Line.{
  Pairs, LineMaps, has_pair, find_pair, parse_pairs, parse_map, fields_from, wanted, int_of,
  kind_of, severity_of, priority_of, parse_foreground, required_keys, known_keys, line_maps,
  line_event, validate_line_event, decode_line, decode_lines, decode_line_batch, all_blank,
  splitlines, invalid_event,
}

-- The maps of a line name no key twice.
pub record AreMaps (maps : LineMaps) : Type 0 where
  pub fields : HasDistinctKeys maps.fields
  pub global_context : HasDistinctKeys maps.global_context
  pub extras : HasDistinctKeys maps.extras
  pub unknown : HasDistinctKeys maps.unknown

wanted-some :
    {A : Type 0} (index : ℕ) (value : Option A) (a : A) → wanted index value ≡ ok a → value ≡ some a
wanted-some index none a h = absurd (cc)
wanted-some index (some b) a h = cc h

-- The maps are those that the segments spell, and the segments that the server does not know.
pub record AreSpelled (segments : Pairs) (maps : LineMaps) : Type 0 where
  pub fields : parse_map (find_pair "fields" segments) ≡ some maps.fields
  pub global_context : parse_map (find_pair "context" segments) ≡ some maps.global_context
  pub extras : parse_map (find_pair "extras" segments) ≡ some maps.extras
  pub unknown :
      maps.unknown ≡ select (λ pair. not (any (λ key. str_eq pair.0 key) known_keys)) segments

line_maps-AreSpelled :
    (index : ℕ) (segments : Pairs) (maps : LineMaps)
    → line_maps index segments ≡ ok maps
    → AreSpelled segments maps
unfolding line_maps
line_maps-AreSpelled index segments maps =
    then_any (AreSpelled segments) maps (wanted index (parse_map (find_pair "fields" segments))) _
      (λ a0 h0.
        then_any (AreSpelled segments) maps
          (wanted index (parse_map (find_pair "context" segments))) _
          (λ a1 h1.
            then_any (AreSpelled segments) maps
              (wanted index (parse_map (find_pair "extras" segments))) _
              (λ a2 h2 done. record {
                fields = wanted-some index _ a0 h0 ∙ ap some (cc done);
                global_context = wanted-some index _ a1 h1 ∙ ap some (cc done);
                extras = wanted-some index _ a2 h2 ∙ ap some (cc done);
                unknown = cc done;
              })))

AreSpelled-AreMaps :
    (segments : Pairs) (maps : LineMaps)
    → HasDistinctKeys segments
    → AreSpelled segments maps
    → AreMaps maps
AreSpelled-AreMaps segments maps d s = record {
  fields = parse_map-HasDistinctKeys (find_pair "fields" segments) maps.fields s.fields;
  global_context =
      parse_map-HasDistinctKeys (find_pair "context" segments) maps.global_context s.global_context;
  extras = parse_map-HasDistinctKeys (find_pair "extras" segments) maps.extras s.extras;
  unknown = subst HasDistinctKeys (sym s.unknown) (select-HasDistinctKeys _ segments d);
}

-- The event is what the segments and the maps of its line spell.
pub record IsSpelled (segments : Pairs) (maps : LineMaps) (e : ApmEvent) : Type 0 where
  pub timestamp : int_of (find_pair "ts" segments) ≡ some e.timestamp
  pub event_id : find_pair "eventId" segments ≡ some e.event_id
  pub module_name : find_pair "module" segments ≡ some e.module_name
  pub name : find_pair "name" segments ≡ some e.name
  pub kind : kind_of (find_pair "kind" segments) ≡ some e.kind
  pub severity : severity_of (find_pair "severity" segments) ≡ some e.severity
  pub priority : priority_of (find_pair "priority" segments) ≡ some e.priority
  pub process_name : find_pair "process" segments ≡ some e.process_name
  pub thread_name : find_pair "thread" segments ≡ some e.thread_name
  pub foreground : parse_foreground (find_pair "foreground" segments) ≡ some e.foreground
  pub scene : e.scene ≡ find_pair "scene" segments
  pub fields : e.fields ≡ fields_from maps.fields
  pub global_context : e.global_context ≡ fields_from maps.global_context
  pub extras : e.extras ≡ fields_from maps.extras
  pub unknown : e.unknown ≡ fields_from maps.unknown

line_event-IsSpelled :
    (index : ℕ) (segments : Pairs) (maps : LineMaps) (e : ApmEvent)
    → line_event index segments maps ≡ ok e
    → IsSpelled segments maps e
unfolding line_event
line_event-IsSpelled index segments maps e =
    then_any (IsSpelled segments maps) e (wanted index (int_of (find_pair "ts" segments))) _
      (λ a0 h0.
        then_any (IsSpelled segments maps) e (wanted index (find_pair "eventId" segments)) _
          (λ a1 h1.
            then_any (IsSpelled segments maps) e (wanted index (find_pair "module" segments)) _
              (λ a2 h2.
                then_any (IsSpelled segments maps) e (wanted index (find_pair "name" segments)) _
                  (λ a3 h3.
                    then_any (IsSpelled segments maps) e
                      (wanted index (kind_of (find_pair "kind" segments))) _
                      (λ a4 h4.
                        then_any (IsSpelled segments maps) e
                          (wanted index (severity_of (find_pair "severity" segments))) _
                          (λ a5 h5.
                            then_any (IsSpelled segments maps) e
                              (wanted index (priority_of (find_pair "priority" segments))) _
                              (λ a6 h6.
                                then_any (IsSpelled segments maps) e
                                  (wanted index (find_pair "process" segments)) _
                                  (λ a7 h7.
                                    then_any (IsSpelled segments maps) e
                                      (wanted index (find_pair "thread" segments)) _
                                      (λ a8 h8.
                                        then_any (IsSpelled segments maps) e
                                          (wanted index
                                            (parse_foreground (find_pair "foreground" segments)))
                                          _
                                          (λ a9 h9. λ done. record {
                                            timestamp =
                                                wanted-some index _ a0 h0 ∙ ap some (cc done);
                                            event_id =
                                                wanted-some index _ a1 h1 ∙ ap some (cc done);
                                            module_name =
                                                wanted-some index _ a2 h2 ∙ ap some (cc done);
                                            name = wanted-some index _ a3 h3 ∙ ap some (cc done);
                                            kind = wanted-some index _ a4 h4 ∙ ap some (cc done);
                                            severity =
                                                wanted-some index _ a5 h5 ∙ ap some (cc done);
                                            priority =
                                                wanted-some index _ a6 h6 ∙ ap some (cc done);
                                            process_name =
                                                wanted-some index _ a7 h7 ∙ ap some (cc done);
                                            thread_name =
                                                wanted-some index _ a8 h8 ∙ ap some (cc done);
                                            foreground =
                                                wanted-some index _ a9 h9 ∙ ap some (cc done);
                                            scene = cc done;
                                            fields = cc done;
                                            global_context = cc done;
                                            extras = cc done;
                                            unknown = cc done;
                                          }))))))))))

-- One event, and the line that it was read from: the line's segments, the maps that they spell, the
-- validators, and the event's fields.
pub record IsFromLine (now : ℕ) (line : String) (e : ApmEvent) : Type 0 where
  pub segments : Pairs
  pub maps : LineMaps
  pub parsed : parse_pairs (split b'|' line) [] ≡ some segments
  pub complete : any (λ key. not (has_pair key segments)) required_keys ≡ false
  pub spelled_maps : AreSpelled segments maps
  pub spelled : IsSpelled segments maps e
  pub valid : validate_line_event now e maps ≡ true
  pub distinct : AreMaps maps

decode_line-IsFromLine :
    (now : ℕ) (line : String) (index : ℕ) (e : ApmEvent)
    → decode_line now line index ≡ ok e
    → IsFromLine now line e
unfolding decode_line
decode_line-IsFromLine now line index e h =
    let (segments, (s, h1)) = found_ok (wanted index (parse_pairs (split b'|' line) [])) _ e h in
    let missing = any (λ key. not (has_pair key segments)) required_keys in
    let build = line_maps index segments >>= λ maps. line_event index segments maps >>= λ event.
    refuse_if (not (validate_line_event now event maps)) (invalid_event index) >> ok event in
    let (full, h2) = passes missing (invalid_event index) build e h1 in
    let (maps, (m, h3)) = found_ok (line_maps index segments) _ e h2 in
    let (event, (made, h4)) = found_ok (line_event index segments maps) _ e h3 in
    let (valid, done) =
      passes (not (validate_line_event now event maps)) (invalid_event index) (ok event) e h4 in
    let same : event ≡ e = cc done in
    let parsed = wanted-some index (parse_pairs (split b'|' line) []) segments s in
    let spelled = line_maps-AreSpelled index segments maps m in
    subst (IsFromLine now line) same (record {
      segments = segments;
      maps = maps;
      parsed = parsed;
      complete = full;
      spelled_maps = spelled;
      spelled = line_event-IsSpelled index segments maps event made;
      valid = not-false (validate_line_event now event maps) valid;
      distinct =
          AreSpelled-AreMaps segments maps
            (parse_pairs-HasDistinctKeys (split b'|' line) [] segments tt parsed) spelled;
    })

-- The events are from the lines, one from each, in their order.
abbrev pub AreFromLines : ℕ → List String → List ApmEvent → Type 0
AreFromLines now [] [] = Unit
AreFromLines now [] (e ∷ events) = ⊥
AreFromLines now (line ∷ lines) [] = ⊥
AreFromLines now (line ∷ lines) (e ∷ events) = IsFromLine now line e × AreFromLines now lines events

AreFromLines-length :
    (now : ℕ) (lines : List String) (events : List ApmEvent)
    → AreFromLines now lines events
    → length events ≡ length lines
AreFromLines-length now [] [] h = refl
AreFromLines-length now [] (e ∷ events) h = elim h [ ]
AreFromLines-length now (line ∷ lines) [] h = elim h [ ]
AreFromLines-length now (line ∷ lines) (e ∷ events) h =
    ap suc (AreFromLines-length now lines events h.1)

decode_lines-AreFromLines :
    (now index : ℕ) (lines : List String) (events : List ApmEvent)
    → decode_lines now index lines ≡ ok events
    → AreFromLines now lines events
unfolding decode_lines
decode_lines-AreFromLines now index [] events h =
    let same : [] ≡ events = cc h in subst (AreFromLines now []) same tt
decode_lines-AreFromLines now index (line ∷ lines) events h =
    let more = decode_line now line index >>= λ event.
    decode_lines now (suc index) lines >>= λ events. ok (event ∷ events) in
    let (blank, h1) = passes (is_empty line) (invalid_event index) more events h in
    let (event, (first, h2)) = found_ok (decode_line now line index) _ events h1 in
    let (others, (rest, h3)) = found_ok (decode_lines now (suc index) lines) _ events h2 in
    let same : event ∷ others ≡ events = cc h3 in
    subst (AreFromLines now (line ∷ lines)) same (
      decode_line-IsFromLine now line index event first,
      decode_lines-AreFromLines now (suc index) lines others rest,
    )

some_line : (lines : List String) → all_blank lines ≡ false → 1 ≤ length lines
some_line [] h = absurd (cc)
some_line (line ∷ lines) h = omega arith

-- An accepted text batch has one to `max_events` events, one from each line of the text, in their
-- order. The line's segments have every required key; the event's fields are what the segments of
-- those names spell; its maps are what the segments `fields`, `context` and `extras` spell, and the
-- segments that the server does not know; no map has a key twice or an empty one; and the event has
-- passed the validators.
pub decode_line_batch-AreFromLines :
    (now : ℕ) (text : String) (max_events : ℕ) (events : List ApmEvent)
    → decode_line_batch now (some text) max_events ≡ ok events
    → (1 ≤ length events) × (length events ≤ max_events) × AreFromLines now (splitlines text) events
unfolding decode_line_batch
decode_line_batch-AreFromLines now text max_events events h =
    let lines = splitlines text in
    let too_many = failure 413 "payload_too_large" in
    let (there, h1) =
      passes (all_blank lines) (invalid_event 0)
        (refuse_if (ltb max_events (length lines)) too_many >> decode_lines now 0 lines) events h in
    let (few, h2) =
      passes (ltb max_events (length lines)) too_many (decode_lines now 0 lines) events h1 in
    let from_lines = decode_lines-AreFromLines now 0 lines events h2 in
    let size = AreFromLines-length now lines events from_lines in
    let filled = some_line lines there in
    (omega (arith, size, filled), ground (arith, size, few), from_lines)
