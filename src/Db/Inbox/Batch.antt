-- ===== src/Db/Inbox/Batch.antt =====
-- `_prepare_unique_events` of db/inbox.py: the prepared events of a batch, one for each id. `dumps` is
-- json.dumps with sorted keys, `sha256` the digest in hexadecimal.
pub mod Dict
pub mod Answers
pub mod Unique
use Prim.Native.String.{len}
use android_apm_server.Prelude.{
  ℕ, suc, String, Bool, true, false, not, ◌&&◌, Option, none, some, List, [], ◌∷◌, str_eq,
  option_eq, ltb, if◌then◌else◌,
}
use android_apm_server.Errors.{ApiError, Result, ok, err, ◌>>=◌, ◌>>◌, refuse_if, failure_at}
use android_apm_server.Json.{Json}
use android_apm_server.Domain.{ApmEvent, IngestMetadata}
use android_apm_server.Identity.{InstallationHmacKeyRing}
use android_apm_server.Db.Models.{IdentityQuality}
use android_apm_server.Db.Inbox.Prepare.{PreparedEvent, prepare_event}

abbrev pub max_event_json_bytes : ℕ
max_event_json_bytes = 262144

-- The text of a quality, as it is stored and compared.
abbrev pub quality_text : IdentityQuality → String
quality_text IdentityQuality.authenticated = "AUTHENTICATED"
quality_text IdentityQuality.occurrence_bound = "OCCURRENCE_BOUND"
quality_text IdentityQuality.batch_declared = "BATCH_DECLARED"
quality_text IdentityQuality.request_declared = "REQUEST_DECLARED"
quality_text IdentityQuality.host_context = "HOST_CONTEXT"
quality_text IdentityQuality.absent = "ABSENT"
quality_text IdentityQuality.invalid = "INVALID"

abbrev pub quality_eq : IdentityQuality → IdentityQuality → Bool
quality_eq a b = str_eq (quality_text a) (quality_text b)

-- `conflict_signature` of two events is the same.
unfoldable pub same_signature : PreparedEvent → PreparedEvent → Bool
same_signature a b =
    str_eq a.payload_hash b.payload_hash
    && option_eq a.app_version b.app_version
    && option_eq a.app_build b.app_build
    && option_eq a.version_code b.version_code
    && option_eq a.variant b.variant
    && quality_eq a.release_quality b.release_quality
    && quality_eq a.installation_quality b.installation_quality
    && option_eq a.installation_hmac b.installation_hmac

-- A dict with the ids as its keys: the first place of a key stays, its last value counts.
abbrev pub Prepared : Type 0
Prepared = List (String × PreparedEvent)

unfoldable pub find_prepared : String → Prepared → Option PreparedEvent
find_prepared id [] = none
find_prepared id ((key, item) ∷ rest) =
    let found = find_prepared id rest in if str_eq key id then some item else found

unfoldable pub put_prepared : String → PreparedEvent → Prepared → Prepared
put_prepared id item [] = (id, item) ∷ []
put_prepared id item ((key, old) ∷ rest) =
    let kept = (key, old) ∷ put_prepared id item rest in
    if str_eq key id then (key, item) ∷ rest else kept

abbrev pub conflicts : Option PreparedEvent → PreparedEvent → Bool
conflicts none item = false
conflicts (some previous) item = not (same_signature previous item)

module _ (dumps : Json → String) (sha256 : String → String) where
  -- One event with the digest of its payload.
  unfoldable pub hashed : PreparedEvent → PreparedEvent
  hashed item = record item { payload_hash = sha256 (dumps item.payload) }

module _ (hmac : List ℕ → List ℕ → String) (fingerprint : ApmEvent → Option String)
    (dumps : Json → String) (sha256 : String → String) where
  unfoldable pub prepare_from :
      IngestMetadata
      → Option InstallationHmacKeyRing
      → ℕ
      → List ApmEvent
      → Prepared
      → Result Prepared
  unfolding find_prepared put_prepared hashed
  prepare_from m keys index [] prepared = ok prepared
  prepare_from m keys index (event ∷ events) prepared =
      prepare_event hmac fingerprint m event keys >>= λ item.
      refuse_if (ltb max_event_json_bytes (len (dumps item.payload)))
        (failure_at 413 "payload_too_large" index)
      >> (refuse_if (conflicts (find_prepared event.event_id prepared) (hashed dumps sha256 item))
            (failure_at 409 "event_id_conflict" index)
          >> prepare_from m keys (suc index) events
              (put_prepared event.event_id (hashed dumps sha256 item) prepared))

  unfoldable pub prepare_unique_events :
      IngestMetadata → List ApmEvent → Option InstallationHmacKeyRing → Result Prepared
  unfolding prepare_from
  prepare_unique_events m events keys = prepare_from m keys 0 events []
