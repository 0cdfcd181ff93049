-- ===== src/Domain.antt =====
-- domain.py: events and the metadata of their request, and their JSON form. The validators of an event
-- stand in Domain/Validation.
pub mod Validation
use android_apm_server.Prelude.{ℕ, String, Bool, Option, none, some, List, [], ◌∷◌}
use android_apm_server.Db.Models.{IdentityQuality, NativeFrame}
use android_apm_server.Json.{Json, Items, Fields}

pub data EventKind : Type 0 where
  metric alert file : EventKind

pub data EventSeverity : Type 0 where
  debug info warn error fatal : EventSeverity

pub data EventPriority : Type 0 where
  low normal high critical : EventPriority

pub record OccurrenceContext : Type 0 where
  pub service_version : String
  pub version_code : String
  pub app_build : String
  pub variant : String
  pub installation_id : String
  pub native_frames : List NativeFrame

-- `module` is a word of the language, so the field is `module_name`.
pub record ApmEvent : Type 0 where
  pub timestamp : ℕ
  pub event_id : String
  pub module_name : String
  pub name : String
  pub kind : EventKind
  pub severity : EventSeverity
  pub priority : EventPriority
  pub process_name : String
  pub thread_name : String
  pub scene : Option String
  pub foreground : Option Bool
  pub fields : Fields
  pub field_types : Fields
  pub global_context : Fields
  pub extras : Fields
  pub unknown : Fields
  pub occurrence : Option OccurrenceContext

pub record IngestMetadata : Type 0 where
  pub request_id : String
  pub tenant_id : String
  pub app_id : String
  pub environment : String
  pub schema_version : String
  pub sdk_version : String
  pub app_version : Option String
  pub app_build : Option String
  pub version_code : Option String
  pub variant : Option String
  pub protocol : String
  pub release_identity_quality : IdentityQuality
  pub installation_identity_quality : IdentityQuality
  pub installation_id : Option String

-- The JSON form of the values: `model_dump(mode="json")`, field by field in the order of the class.
abbrev pub dump_kind : EventKind → Json
dump_kind EventKind.metric = Json.str "METRIC"
dump_kind EventKind.alert = Json.str "ALERT"
dump_kind EventKind.file = Json.str "FILE"

abbrev pub dump_severity : EventSeverity → Json
dump_severity EventSeverity.debug = Json.str "DEBUG"
dump_severity EventSeverity.info = Json.str "INFO"
dump_severity EventSeverity.warn = Json.str "WARN"
dump_severity EventSeverity.error = Json.str "ERROR"
dump_severity EventSeverity.fatal = Json.str "FATAL"

abbrev pub dump_priority : EventPriority → Json
dump_priority EventPriority.low = Json.str "LOW"
dump_priority EventPriority.normal = Json.str "NORMAL"
dump_priority EventPriority.high = Json.str "HIGH"
dump_priority EventPriority.critical = Json.str "CRITICAL"

abbrev pub dump_text : Option String → Json
dump_text none = Json.null
dump_text (some text) = Json.str text

abbrev pub dump_flag : Option Bool → Json
dump_flag none = Json.null
dump_flag (some b) = Json.bool b

abbrev pub dump_number : Option ℕ → Json
dump_number none = Json.null
dump_number (some n) = Json.nat n

unfoldable pub dump_frame : NativeFrame → Json
dump_frame frame = Json.obj (
    Fields.field "abi" (Json.str frame.abi) (
      Fields.field "module_build_id" (Json.str frame.module_build_id) (
        Fields.field "module_name" (Json.str frame.module_name) (
          Fields.field "module_relative_pc" (Json.nat frame.module_relative_pc)
            (Fields.field "load_bias" (dump_number frame.load_bias) Fields.end)))))

unfoldable pub dump_frames : List NativeFrame → Items
unfolding dump_frame
dump_frames [] = Items.nil
dump_frames (frame ∷ frames) = Items.cons (dump_frame frame) (dump_frames frames)

unfoldable pub dump_occurrence : Option OccurrenceContext → Json
unfolding dump_frames
dump_occurrence none = Json.null
dump_occurrence (some o) = Json.obj (
    Fields.field "service_version" (Json.str o.service_version) (
      Fields.field "version_code" (Json.str o.version_code) (
        Fields.field "app_build" (Json.str o.app_build) (
          Fields.field "variant" (Json.str o.variant) (
            Fields.field "installation_id" (Json.str o.installation_id) (
              Fields.field "native_frames" (Json.arr (dump_frames o.native_frames)) Fields.end))))))

unfoldable pub model_dump : ApmEvent → Json
unfolding dump_occurrence
model_dump e = Json.obj (
    Fields.field "timestamp" (Json.nat e.timestamp) (
      Fields.field "event_id" (Json.str e.event_id) (
        Fields.field "module" (Json.str e.module_name) (
          Fields.field "name" (Json.str e.name) (
            Fields.field "kind" (dump_kind e.kind) (
              Fields.field "severity" (dump_severity e.severity) (
                Fields.field "priority" (dump_priority e.priority) (
                  Fields.field "process_name" (Json.str e.process_name) (
                    Fields.field "thread_name" (Json.str e.thread_name) (
                      Fields.field "scene" (dump_text e.scene) (
                        Fields.field "foreground" (dump_flag e.foreground) (
                          Fields.field "fields" (Json.obj e.fields) (
                            Fields.field "field_types" (Json.obj e.field_types) (
                              Fields.field "global_context" (Json.obj e.global_context) (
                                Fields.field "extras" (Json.obj e.extras) (
                                  Fields.field "unknown" (Json.obj e.unknown) (
                                    Fields.field "occurrence" (dump_occurrence e.occurrence)
                                      Fields.end)))))))))))))))))
