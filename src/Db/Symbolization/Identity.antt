-- ===== src/Db/Symbolization/Identity.antt =====
-- db/symbolization.py: the exact build identity that a crash must carry, and the artifacts that match
-- it (`ArtifactIdentity` of artifacts.py). Build ids are lists of code points, in lower case; persisted
-- frame identities are trimmed, so `_string_field` returns them as they are.
use android_apm_server.Prelude.{
  ℕ, String, Bool, true, false, not, ◌&&◌, ◌||◌, Option, none, some, List, [], ◌∷◌, leb, ◌==◌,
  str_eq, codes, is_empty, same_codes, lower, length, if◌then◌else◌,
}
use android_apm_server.Json.{Json, Fields, get, fields_of, str, obj}
use android_apm_server.Domain.{ApmEvent}
use android_apm_server.Db.Models.{
  IdentityQuality, JobType, NativeFrame, InboxEvent, SymbolizationJob,
}

-- artifact_type
pub data ArtifactType : Type 0 where
  java_mapping native_elf : ArtifactType

pub record ArtifactIdentity : Type 0 where
  pub artifact_type : ArtifactType
  pub tenant_id : String
  pub app_id : String
  pub version_code : String
  pub app_build : String
  pub variant : String
  pub abi : String
  pub build_id : List ℕ

abbrev pub job_type_eq : JobType → JobType → Bool
job_type_eq JobType.java JobType.java = true
job_type_eq JobType.native JobType.native = true
job_type_eq _ _ = false

abbrev pub option_is : Option String → String → Bool
option_is none s = false
option_is (some t) s = str_eq t s

unfoldable pub job_type : ApmEvent → Option JobType
job_type e =
    if not (str_eq e.module_name "crash")
    then none
    else if str_eq e.name "java_crash"
    then some JobType.java
    else if str_eq e.name "native_crash" || str_eq e.name "tombstone_crash"
    then some JobType.native
    else none

-- The first of these keys with a text.
unfoldable pub first_text : List String → Fields → String
unfolding get
first_text [] fs = ""
first_text (k ∷ ks) fs =
    let rest = first_text ks fs in elim (get k fs) [ some (str s) ↦ s | _ ↦ rest ]

-- payload["fields"], or {} where that is no object
unfoldable pub payload_fields : Json → Fields
unfolding get
payload_fields (obj fs) = fields_of (get "fields" fs)
payload_fields _ = Fields.end

unfoldable pub stack_value : Json → JobType → String
unfolding first_text payload_fields
stack_value payload JobType.java =
    first_text ("stackTrace" ∷ "stack_trace" ∷ []) (payload_fields payload)
stack_value payload JobType.native = first_text ("backtrace" ∷ []) (payload_fields payload)

abbrev pub present : Option String → Bool
present none = false
present (some s) = not (is_empty s)

abbrev pub is_occurrence_bound : IdentityQuality → Bool
is_occurrence_bound IdentityQuality.occurrence_bound = true
is_occurrence_bound _ = false

-- The release identity that both checks demand.
unfoldable pub release_bound : InboxEvent → Bool
release_bound row =
    is_occurrence_bound row.identity.release_identity_quality
    && present row.identity.version_code
    && present row.identity.app_build
    && present row.identity.variant

unfoldable pub supported_abi : String → Bool
supported_abi abi =
    str_eq abi "arm64-v8a" || str_eq abi "armeabi-v7a" || str_eq abi "x86_64" || str_eq abi "x86"

abbrev pub all_hex : List ℕ → Bool
all_hex [] = true
all_hex (c ∷ s) = (leb b'0' c && leb c b'9' || leb b'a' c && leb c b'f') && all_hex s

-- ^[0-9a-f]{8,128}$
unfoldable pub is_build_id : List ℕ → Bool
is_build_id s = all_hex s && leb 8 (length s) && leb (length s) 128

unfoldable pub supported_frame : NativeFrame → Bool
unfolding supported_abi is_build_id
supported_frame frame = supported_abi frame.abi && is_build_id (lower (codes frame.module_build_id))

abbrev pub first_frame_supported : List NativeFrame → Bool
unfolding supported_frame
first_frame_supported [] = false
first_frame_supported (frame ∷ frames) = supported_frame frame

unfoldable pub has_symbol_identity : InboxEvent → JobType → String → Bool
unfolding release_bound supported_frame
has_symbol_identity row kind stack = not (is_empty stack) && release_bound row && (elim kind [
  | JobType.java ↦ true
  | JobType.native ↦ first_frame_supported row.evidence.native_identity
])

abbrev pub text_of : Option String → String
text_of none = ""
text_of (some s) = s

-- The identity of a job's row: none instead of a guess where something is missing.
abbrev pub native_identity : InboxEvent → List NativeFrame → Option ArtifactIdentity
unfolding supported_frame
native_identity row [] = none
native_identity row (frame ∷ frames) =
    if supported_frame frame
    then some (record {
      artifact_type = ArtifactType.native_elf;
      tenant_id = row.identity.tenant_id;
      app_id = row.identity.app_id;
      version_code = text_of row.identity.version_code;
      app_build = text_of row.identity.app_build;
      variant = text_of row.identity.variant;
      abi = frame.abi;
      build_id = lower (codes frame.module_build_id);
    })
    else none

unfoldable pub artifact_identity_for_job : SymbolizationJob → InboxEvent → Option ArtifactIdentity
unfolding release_bound supported_frame
artifact_identity_for_job job row =
    if release_bound row
    then (elim job.job_type [
      | JobType.java ↦ some (record {
        artifact_type = ArtifactType.java_mapping;
        tenant_id = row.identity.tenant_id;
        app_id = row.identity.app_id;
        version_code = text_of row.identity.version_code;
        app_build = text_of row.identity.app_build;
        variant = text_of row.identity.variant;
        abi = "";
        build_id = [];
      })
      | JobType.native ↦ native_identity row row.evidence.native_identity
    ])
    else none

abbrev pub artifact_type_eq : ArtifactType → ArtifactType → Bool
artifact_type_eq ArtifactType.java_mapping ArtifactType.java_mapping = true
artifact_type_eq ArtifactType.native_elf ArtifactType.native_elf = true
artifact_type_eq _ _ = false

-- `found == identity` of the dataclass
unfoldable pub same_identity : Option ArtifactIdentity → ArtifactIdentity → Bool
same_identity none b = false
same_identity (some a) b =
    artifact_type_eq a.artifact_type b.artifact_type
    && str_eq a.tenant_id b.tenant_id
    && str_eq a.app_id b.app_id
    && str_eq a.version_code b.version_code
    && str_eq a.app_build b.app_build
    && str_eq a.variant b.variant
    && str_eq a.abi b.abi
    && same_codes a.build_id b.build_id

unfoldable pub frame_matches : ArtifactIdentity → NativeFrame → Bool
frame_matches identity frame =
    str_eq frame.abi identity.abi
    && same_codes (lower (codes frame.module_build_id)) identity.build_id

-- The row that a job belongs to.
unfoldable pub find_row : ℕ → List InboxEvent → Option InboxEvent
find_row i [] = none
find_row i (row ∷ rows) = if row.id == i then some row else find_row i rows
