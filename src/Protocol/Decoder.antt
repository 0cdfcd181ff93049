-- ===== src/Protocol/Decoder.antt =====
-- protocol/decoder.py: the wire protocol of a body without an envelope. `parse` is the message class
-- with the validation of the event, `decode_utf8` strict UTF-8.
use android_apm_server.Prelude.{ℕ, String, Option, List, str_eq, if◌then◌else◌}
use android_apm_server.Errors.{Result, err, failure}
use android_apm_server.Domain.{ApmEvent}
use android_apm_server.Protocol.Line.{decode_line_batch}
use android_apm_server.Protocol.Protobuf.{decode_protobuf_batch}

abbrev pub line_content_type : String
line_content_type = "text/plain"

abbrev pub protobuf_content_type : String
protobuf_content_type = "application/x-protobuf"

module _ (decode_utf8 : List ℕ → Option String) (parse : List ℕ → Option ApmEvent) where
  unfoldable pub decode_batch : ℕ → List ℕ → String → ℕ → ℕ → Result (List ApmEvent)
  decode_batch now payload content_type max_events max_event_bytes =
      if str_eq content_type line_content_type
      then decode_line_batch now (decode_utf8 payload) max_events
      else (if str_eq content_type protobuf_content_type
          then decode_protobuf_batch parse max_events max_event_bytes payload
          else err (failure 415 "unsupported_media_type"))
