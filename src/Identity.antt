-- ===== src/Identity.antt =====
-- identity.py: the versioned keys that pseudonymize installations. `hmac` is HMAC-SHA-256 in hexadecimal
-- of a secret and a message, `decode64` strict Base64; a message is a list of code points, of which the
-- program takes the UTF-8.
pub mod Separation
mod Tests
use android_apm_server.Prelude.{
  ℕ, suc, ◌+◌, String, Bool, true, false, not, ◌&&◌, ◌||◌, Option, none, some, List, [], ◌∷◌, ◌++◌,
  length, leb, ltb, str_eq, any, text_length, is_empty, is_none, codes, if◌then◌else◌,
}
use android_apm_server.Json.{Json, Fields}

pub record InstallationHmacKeyRing : Type 0 where
  pub keys : List (String × List ℕ)
  pub active_version : String

abbrev pub min_key_bytes : ℕ
min_key_bytes = 32

abbrev pub max_key_versions : ℕ
max_key_versions = 16

abbrev pub installation_hmac_domain : List ℕ
installation_hmac_domain = codes "androidapm:installation:v1"

-- self.keys.get(version)
unfoldable pub find_secret : String → List (String × List ℕ) → Option (List ℕ)
find_secret version [] = none
find_secret version ((v, secret) ∷ keys) =
    let rest = find_secret version keys in if str_eq v version then some secret else rest

-- `b"\x00".join(...)`
unfoldable pub digest_message : String → String → List ℕ
digest_message tenant_id installation_id =
    installation_hmac_domain ++ (0 ∷ (codes tenant_id ++ (0 ∷ codes installation_id)))

-- `version or self.active_version`
abbrev pub selected_version : InstallationHmacKeyRing → Option String → String
selected_version ring none = ring.active_version
selected_version ring (some version) = if is_empty version then ring.active_version else version

module _ (hmac : List ℕ → List ℕ → String) where
  abbrev pub digest_with : Option (List ℕ) → List ℕ → Option String
  digest_with none message = none
  digest_with (some secret) message = some (hmac secret message)

  -- `none` where the ValueError is raised.
  unfoldable pub digest : InstallationHmacKeyRing → String → String → Option String → Option String
  unfolding find_secret digest_message
  digest ring tenant_id installation_id version =
      digest_with (find_secret (selected_version ring version) ring.keys)
        (digest_message tenant_id installation_id)

module _ (decode64 : String → Option (List ℕ)) where
  abbrev pub long_enough : Option (List ℕ) → Option (List ℕ)
  long_enough none = none
  long_enough (some secret) = if ltb (length secret) min_key_bytes then none else some secret

  -- One entry; `none` for the ValueErrors.
  unfoldable pub parse_entry : String → Json → Option (List ℕ)
  parse_entry version (Json.str encoded) =
      if is_empty version || ltb 32 (text_length version)
      then none
      else long_enough (decode64 encoded)
  parse_entry version _ = none

  abbrev pub add_key :
      String → Option (List ℕ) → Option (List (String × List ℕ)) → Option (List (String × List ℕ))
  add_key version (some secret) (some keys) = some ((version, secret) ∷ keys)
  add_key version none keys = none
  add_key version (some secret) none = none

  unfoldable pub parse_keys : Fields → Option (List (String × List ℕ))
  unfolding parse_entry
  parse_keys Fields.end = some []
  parse_keys (Fields.field version encoded rest) =
      add_key version (parse_entry version encoded) (parse_keys rest)

  abbrev pub count_fields : Fields → ℕ
  count_fields Fields.end = 0
  count_fields (Fields.field k v rest) = suc (count_fields rest)

  abbrev pub with_active : String → Option (List (String × List ℕ)) → Option InstallationHmacKeyRing
  with_active active_version none = none
  with_active active_version (some keys) =
      if is_none (find_secret active_version keys)
      then none
      else some (record { keys = keys; active_version = active_version })

  -- parse, after json.loads, which is `none` where it fails.
  unfoldable pub parse : Option Json → String → Option InstallationHmacKeyRing
  unfolding parse_keys find_secret
  parse (some (Json.obj document)) active_version =
      if ltb max_key_versions (count_fields document) || leb (count_fields document) 0
      then none
      else with_active active_version (parse_keys document)
  parse _ active_version = none
