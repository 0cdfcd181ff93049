-- ===== src/Db/Inbox/Prepare.antt =====
-- `_prepare_event` of db/inbox.py: one event without the plaintext of its installation, and its
-- identity. `fingerprint` is `_incident_fingerprint` of normalization.py.
use android_apm_server.Prelude.{
  ℕ, String, Bool, true, false, not, ◌&&◌, Option, none, some, List, [], ◌∷◌, any, codes, is_empty,
  str_eq, if◌then◌else◌,
}
use android_apm_server.Errors.{ApiError, Result, ok, err, ◌>>=◌, ◌>>◌, refuse_if, failure}
use android_apm_server.Json.{Json, Items, Fields, get, fields_of}
use android_apm_server.Domain.{ApmEvent, OccurrenceContext, IngestMetadata, model_dump, dump_frames}
use android_apm_server.Identity.{InstallationHmacKeyRing, digest}
use android_apm_server.Db.Models.{IdentityQuality, NativeFrame}
use android_apm_server.Db.Inbox.{occurs, remove_known_installation_plaintext}

pub record PreparedEvent : Type 0 where
  pub event : ApmEvent
  pub payload : Json
  pub payload_hash : String
  pub app_version : Option String
  pub app_build : Option String
  pub version_code : Option String
  pub variant : Option String
  pub release_quality : IdentityQuality
  pub installation_quality : IdentityQuality
  pub installation_hmac : Option String
  pub installation_hmac_key_version : Option String
  pub installation_plaintext : Option String
  pub incident_fingerprint : Option String
  pub native_identity : List NativeFrame

-- The release and installation identity: of the occurrence, or of the request.
pub record Declared : Type 0 where
  pub app_version : Option String
  pub app_build : Option String
  pub version_code : Option String
  pub variant : Option String
  pub release_quality : IdentityQuality
  pub installation_quality : IdentityQuality
  pub installation_plaintext : Option String

unfoldable pub declared : IngestMetadata → Option OccurrenceContext → Declared
declared m (some o) = record {
  app_version = some o.service_version;
  app_build = some o.app_build;
  version_code = some o.version_code;
  variant = some o.variant;
  release_quality = IdentityQuality.occurrence_bound;
  installation_quality = IdentityQuality.occurrence_bound;
  installation_plaintext = some o.installation_id;
}
declared m none = record {
  app_version = m.app_version;
  app_build = m.app_build;
  version_code = m.version_code;
  variant = m.variant;
  release_quality = m.release_identity_quality;
  installation_quality = m.installation_identity_quality;
  installation_plaintext = m.installation_id;
}

abbrev pub identity_unavailable : ApiError
identity_unavailable = record {
  status_code = 503;
  code = "identity_service_unavailable";
  retryable = true;
  event_index = none;
  retry_after = none;
}

-- What an exception that is no ApiError becomes.
abbrev pub unexpected : ApiError
unexpected = record {
  status_code = 500;
  code = "internal_error";
  retryable = true;
  event_index = none;
  retry_after = none;
}

-- The pseudonym and the version of its key.
pub record Pseudonym : Type 0 where
  pub installation_hmac : Option String
  pub key_version : Option String

abbrev pub pseudonym_of : InstallationHmacKeyRing → Option String → Result Pseudonym
pseudonym_of ring none = err unexpected
pseudonym_of ring (some digest) =
    ok (record { installation_hmac = some digest; key_version = some ring.active_version })

abbrev pub text_contains : List ℕ → Option String → Bool
text_contains part none = false
text_contains part (some text) = occurs part (codes text)

-- The texts that route or name the event; they are never rewritten.
abbrev pub required_texts : IngestMetadata → ApmEvent → Declared → List (Option String)
required_texts m e d =
    some e.event_id
    ∷ some e.module_name
    ∷ some e.name
    ∷ some e.process_name
    ∷ some e.thread_name
    ∷ some m.tenant_id
    ∷ some m.app_id
    ∷ some m.environment
    ∷ some m.sdk_version
    ∷ some m.request_id
    ∷ d.app_version
    ∷ d.app_build
    ∷ d.version_code
    ∷ d.variant
    ∷ []

abbrev pub names_installation : Option String → List (Option String) → Bool
names_installation none texts = false
names_installation (some plaintext) texts =
    not (is_empty plaintext) && any (text_contains (codes plaintext)) texts

-- NativeFrameIdentity.model_validate on a frame that was valid: entries may be missing, and only
-- `load_bias` has a default.
abbrev pub text_value : Option Json → Option String
text_value (some (Json.str text)) = some text
text_value _ = none

abbrev pub number_value : Option Json → Option ℕ
number_value (some (Json.nat n)) = some n
number_value _ = none

abbrev pub valid_frame :
    Option String → Option String → Option String → Option ℕ → Option ℕ → Option NativeFrame
valid_frame (some abi) (some build_id) (some name) (some pc) bias = some (record {
  abi = abi;
  module_build_id = build_id;
  module_name = name;
  module_relative_pc = pc;
  load_bias = bias;
})
valid_frame _ _ _ _ _ = none

unfoldable pub validate_frame : Json → Option NativeFrame
validate_frame (Json.obj fs) =
    valid_frame (text_value (get "abi" fs)) (text_value (get "module_build_id" fs))
      (text_value (get "module_name" fs)) (number_value (get "module_relative_pc" fs))
      (number_value (get "load_bias" fs))
validate_frame _ = none

abbrev pub keep_frame : Option NativeFrame → List NativeFrame → List NativeFrame
keep_frame none frames = frames
keep_frame (some frame) frames = frame ∷ frames

unfoldable pub validate_frames : Items → List NativeFrame
unfolding validate_frame
validate_frames Items.nil = []
validate_frames (Items.cons frame rest) = keep_frame (validate_frame frame) (validate_frames rest)

abbrev pub items_of : Option Json → Items
items_of (some (Json.arr items)) = items
items_of _ = Items.nil

-- `document[key] = value`
unfoldable pub put : String → Json → Fields → Fields
put key value Fields.end = Fields.field key value Fields.end
put key value (Fields.field k v rest) =
    let kept = Fields.field k v (put key value rest) in
    if str_eq k key then Fields.field k value rest else kept

-- The occurrence of the payload with the frames that are still whole.
abbrev pub with_frames : List NativeFrame → Option Json → Option Json
with_frames frames (some (Json.obj fs)) =
    some (Json.obj (put "native_frames" (Json.arr (dump_frames frames)) fs))
with_frames frames other = other

abbrev pub put_value : String → Option Json → Fields → Fields
put_value key none fs = fs
put_value key (some value) fs = put key value fs

abbrev pub safe_frames : Fields → List NativeFrame
safe_frames payload =
    validate_frames (items_of (get "native_frames" (fields_of (get "occurrence" payload))))

unfoldable pub safe_payload : Option OccurrenceContext → Fields → Fields
unfolding validate_frames put
safe_payload none payload = payload
safe_payload (some o) payload =
    put_value "occurrence" (with_frames (safe_frames payload) (get "occurrence" payload)) payload

abbrev pub safe_occurrence : Option OccurrenceContext → Fields → Option OccurrenceContext
safe_occurrence none payload = none
safe_occurrence (some o) payload = some (record o { native_frames = safe_frames payload })

unfoldable pub safe_event : ApmEvent → Fields → ApmEvent
unfolding validate_frames
safe_event e payload = record e {
  fields = fields_of (get "fields" payload);
  field_types = fields_of (get "field_types" payload);
  global_context = fields_of (get "global_context" payload);
  extras = fields_of (get "extras" payload);
  unknown = fields_of (get "unknown" payload);
  scene = text_value (get "scene" payload);
  occurrence = safe_occurrence e.occurrence payload;
}

abbrev pub frames_of : Option OccurrenceContext → List NativeFrame
frames_of none = []
frames_of (some o) = o.native_frames

module _ (hmac : List ℕ → List ℕ → String) where
  unfoldable pub pseudonymize :
      Option InstallationHmacKeyRing → String → Option String → Result Pseudonym
  unfolding digest
  pseudonymize keys tenant_id none = ok (record { installation_hmac = none; key_version = none })
  pseudonymize none tenant_id (some plaintext) = err identity_unavailable
  pseudonymize (some ring) tenant_id (some plaintext) =
      pseudonym_of ring (digest hmac ring tenant_id plaintext none)

module _ (fingerprint : ApmEvent → Option String) where
  -- The event from the cleaned payload.
  unfoldable pub prepared_event : ApmEvent → Declared → Pseudonym → Fields → PreparedEvent
  unfolding safe_payload safe_event
  prepared_event e d pseudonym payload =
      let safe = safe_event e payload in
      record {
        event = safe;
        payload = Json.obj (safe_payload e.occurrence payload);
        payload_hash = "";
        app_version = d.app_version;
        app_build = d.app_build;
        version_code = d.version_code;
        variant = d.variant;
        release_quality = d.release_quality;
        installation_quality = d.installation_quality;
        installation_hmac = pseudonym.installation_hmac;
        installation_hmac_key_version = pseudonym.key_version;
        installation_plaintext = d.installation_plaintext;
        incident_fingerprint = fingerprint safe;
        native_identity = frames_of safe.occurrence;
      }

module _ (hmac : List ℕ → List ℕ → String) (fingerprint : ApmEvent → Option String) where
  unfoldable pub prepare_event :
      IngestMetadata → ApmEvent → Option InstallationHmacKeyRing → Result PreparedEvent
  unfolding declared pseudonymize prepared_event
  prepare_event m e keys =
      let d = declared m e.occurrence in
      let payload = remove_known_installation_plaintext (model_dump e) d.installation_plaintext in
      pseudonymize hmac keys m.tenant_id d.installation_plaintext >>= λ pseudonym.
      refuse_if (names_installation d.installation_plaintext (required_texts m e d))
        (failure 422 "privacy_identity_conflict")
      >> ok (prepared_event fingerprint e d pseudonym (fields_of (some payload)))
