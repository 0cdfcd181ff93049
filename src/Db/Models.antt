-- ===== src/Db/Models.antt =====
-- db/models.py: the rows of the durable tables. A time is a number of microseconds. A status column
-- holds one of the constants that constants.py lists for it.
use android_apm_server.Prelude.{ℕ, ◌*◌, String, Bool, true, false, Option, List}
use android_apm_server.Json.{Json}

-- timedelta(seconds=n)
abbrev pub seconds : ℕ → ℕ
seconds n = n * 1000000

-- INBOX_STATUS_*
pub data InboxStatus : Type 0 where
  pending processing delivered dead_letter awaiting_symbols : InboxStatus

-- SYMBOL_STATUS_*
pub data SymbolStatus : Type 0 where
  pending processing symbolized partially_symbolized symbols_missing metadata_missing disabled
        failed :
      SymbolStatus

-- SYMBOL_JOB_*
pub data JobType : Type 0 where
  java native : JobType

-- IdentityQuality of domain.py
pub data IdentityQuality : Type 0 where
  authenticated occurrence_bound batch_declared request_declared host_context absent invalid :
      IdentityQuality

-- NativeFrameIdentity of domain.py, also an element of `native_identity_json`.
pub record NativeFrame : Type 0 where
  pub abi : String
  pub module_build_id : String
  pub module_name : String
  pub module_relative_pc : ℕ
  pub load_bias : Option ℕ

-- The columns of `inbox_events` that identify one occurrence.
pub record EventIdentity : Type 0 where
  pub tenant_id : String
  pub event_id : String
  pub app_id : String
  pub environment : String
  pub app_version : Option String
  pub app_build : Option String
  pub version_code : Option String
  pub variant : Option String
  pub release_identity_quality : IdentityQuality
  pub installation_identity_quality : IdentityQuality
  pub installation_hmac : Option String
  pub installation_hmac_key_version : Option String
  pub payload_sha256 : String

-- The columns that the export workers drive.
pub record Delivery : Type 0 where
  pub status : InboxStatus
  pub attempt_count : ℕ
  pub next_attempt_at : ℕ
  pub lease_owner : Option String
  pub lease_expires_at : Option ℕ
  pub delivered_at : Option ℕ
  pub finalized_at : Option ℕ
  pub last_error_code : Option String
  pub last_error_message : Option String

-- The evidence columns: what retention removes, and the issue identity that symbolization publishes.
pub record Evidence : Type 0 where
  pub payload_json : Json
  pub payload_size_bytes : ℕ
  pub raw_pruned_at : Option ℕ
  pub incident_fingerprint : Option String
  pub native_identity : List NativeFrame

pub record InboxEvent : Type 0 where
  pub id : ℕ
  pub identity : EventIdentity
  pub delivery : Delivery
  pub evidence : Evidence

pub record SymbolizationJob : Type 0 where
  pub id : ℕ
  pub inbox_event_id : ℕ
  pub tenant_id : String
  pub event_id : String
  pub job_type : JobType
  pub status : SymbolStatus
  pub artifact_id : Option ℕ
  pub input_sha256 : String
  pub fingerprint_sha256 : Option String
  pub attempt_count : ℕ
  pub next_attempt_at : ℕ
  pub lease_owner : Option String
  pub lease_expires_at : Option ℕ
  pub last_error_code : Option String
  pub last_error_message : Option String

-- The two tables that the workers share.
pub record Database : Type 0 where
  pub inbox_events : List InboxEvent
  pub symbolization_jobs : List SymbolizationJob

abbrev pub is_pending : InboxStatus → Bool
is_pending pending = true
is_pending _ = false

abbrev pub is_processing : InboxStatus → Bool
is_processing processing = true
is_processing _ = false

abbrev pub is_awaiting_symbols : InboxStatus → Bool
is_awaiting_symbols awaiting_symbols = true
is_awaiting_symbols _ = false
