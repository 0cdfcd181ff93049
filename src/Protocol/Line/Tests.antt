-- ===== src/Protocol/Line/Tests.antt =====
-- One line with a map, and the texts that are cut.
use android_apm_server.Prelude.{
  ◌≤◌, ◌≡◌, refl, String, List, some, none, [], ◌∷◌, parse_int, true, decimal, digits,
}
use android_apm_server.Errors.{Result, ok}
use android_apm_server.Json.{Json, Fields}
use android_apm_server.Domain.{ApmEvent, EventKind, EventSeverity, EventPriority}
use android_apm_server.Protocol.Line.{splitlines, decode_line_batch}
use android_apm_server.Protocol.Line.Bounds.{AreFromLines, decode_line_batch-AreFromLines}

lines : splitlines "a\r\nb\n\nc" ≡ "a" ∷ "b" ∷ "" ∷ "c" ∷ []
unfolding splitlines
lines = refl

ints : parse_int " -1_0 " ≡ some (true, 10)
unfolding parse_int decimal digits
ints = refl

no_int : parse_int "1__0" ≡ none
unfolding parse_int decimal digits
no_int = refl

-- A line with two maps and a segment that the server does not know.
abbrev test_line : String
test_line =
    "ts=5|eventId=e1|module=crash|name=java_crash|kind=ALERT|severity=FATAL|priority=CRITICAL|process=main|thread=ui|foreground=true|fields=a=1,b=x=y|context=k=v|color=red"

abbrev test_batch : Result (List ApmEvent)
test_batch = decode_line_batch 0 (some test_line) 10

abbrev test_events : List ApmEvent
test_events =
    record {
      timestamp = 5;
      event_id = "e1";
      module_name = "crash";
      name = "java_crash";
      kind = EventKind.alert;
      severity = EventSeverity.fatal;
      priority = EventPriority.critical;
      process_name = "main";
      thread_name = "ui";
      scene = none;
      foreground = some true;
      fields = Fields.field "a" (Json.str "1") (Fields.field "b" (Json.str "x=y") Fields.end);
      field_types = Fields.end;
      global_context = Fields.field "k" (Json.str "v") Fields.end;
      extras = Fields.end;
      unknown = Fields.field "color" (Json.str "red") Fields.end;
      occurrence = none;
    }
    ∷ []

decoded : test_batch ≡ ok test_events
unfolding decode_line_batch parse_int
decoded = refl

decode_line_batch-AreFromLines_example :
    (1 ≤ 1) × (1 ≤ 10) × AreFromLines 0 (splitlines test_line) test_events
decode_line_batch-AreFromLines_example =
    decode_line_batch-AreFromLines 0 test_line 10 test_events decoded
