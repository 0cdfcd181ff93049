-- ===== src/Auth.antt =====
-- auth.py, query_auth.py and ci_auth.py: the three kinds of credentials, the ingest, query and CI keys.
-- What they share stands in Auth/Bearer.antt (the header) and Auth/Secret.antt (the stored hash); this
-- file has what each of them adds. `verifies` is Argon2's verification of a secret against a hash.
pub mod Bearer
pub mod Secret
pub mod Access
mod Tests
use android_apm_server.Prelude.{
  ℕ, String, Bool, true, false, not, ◌&&◌, ◌||◌, Option, none, some, List, [], ◌∷◌, any, codes,
  str_eq, if◌then◌else◌,
}
use android_apm_server.Errors.{ApiError, Result, ok, err, ◌>>=◌, ◌>>◌, refuse_if, failure}
use Secret.{Credential, Tenant, Gate, Attempt, check_secret, is_live, find_key, or_invalid}

pub record IngestKey : Type 0 where
  pub credential : Credential
  pub app_id : String
  pub environment : String
  pub requests_per_minute : ℕ
  pub events_per_minute : ℕ

-- Principal of auth.py
pub record IngestPrincipal : Type 0 where
  pub tenant_id : String
  pub key_id : String
  pub app_id : String
  pub environment : String
  pub requests_per_minute : ℕ
  pub events_per_minute : ℕ

pub record QueryKey : Type 0 where
  pub credential : Credential
  pub app_id : String
  pub environment : String
  pub role : String

pub record QueryPrincipal : Type 0 where
  pub tenant_id : String
  pub key_id : String
  pub app_id : String
  pub environment : String
  pub role : String
  pub expires_at : Option ℕ

pub record CiKey : Type 0 where
  pub credential : Credential
  pub app_id : Option String
  pub scopes_json : List String

pub record CiPrincipal : Type 0 where
  pub tenant_id : String
  pub key_id : String
  pub app_id : Option String
  pub scopes : List String

-- _invalid_credential, and its namesakes of the other two modules
abbrev pub invalid_credential : ApiError
invalid_credential = failure 401 "invalid_credential"

abbrev pub scope_mismatch : ApiError
scope_mismatch = failure 403 "scope_mismatch"

-- KEY_PREFIX, QUERY_KEY_PREFIX and CI_KEY_PREFIX
abbrev pub ingest_prefix : String
ingest_prefix = "apm1"

abbrev pub query_prefix : String
query_prefix = "apmq1"

abbrev pub ci_prefix : String
ci_prefix = "apmci1"

abbrev pub query_roles : List String
query_roles = "viewer" ∷ "investigator" ∷ []

abbrev pub has_text : List String → String → Bool
has_text texts s = any (λ t. str_eq t s) texts

-- The checks of the stored row, after the secret.
unfoldable pub ingest_principal : ℕ → String → String → IngestKey × Tenant → Result IngestPrincipal
ingest_principal now app_id environment (key, tenant) =
    refuse_if (not (is_live now key.credential tenant)) invalid_credential
    >> (refuse_if (not (str_eq key.app_id app_id && str_eq key.environment environment))
          scope_mismatch
        >> ok (record {
          tenant_id = key.credential.tenant_id;
          key_id = key.credential.key_id;
          app_id = key.app_id;
          environment = key.environment;
          requests_per_minute = key.requests_per_minute;
          events_per_minute = key.events_per_minute;
        }))

-- _active_principal
unfoldable pub active_principal : ℕ → QueryKey × Tenant → Result QueryPrincipal
active_principal now (key, tenant) =
    refuse_if (not (is_live now key.credential tenant && has_text query_roles key.role))
      invalid_credential
    >> ok (record {
      tenant_id = key.credential.tenant_id;
      key_id = key.credential.key_id;
      app_id = key.app_id;
      environment = key.environment;
      role = key.role;
      expires_at = key.credential.expires_at;
    })

-- A key without an app serves every app.
abbrev pub serves_app : Option String → String → Bool
serves_app none app_id = true
serves_app (some app) app_id = str_eq app app_id

unfoldable pub ci_principal : ℕ → String → String → CiKey × Tenant → Result CiPrincipal
ci_principal now required_scope app_id (key, tenant) =
    refuse_if (not (is_live now key.credential tenant)) invalid_credential
    >> (refuse_if (not (has_text key.scopes_json required_scope)) scope_mismatch
        >> (refuse_if (not (serves_app key.app_id app_id)) scope_mismatch
            >> ok (record {
              tenant_id = key.credential.tenant_id;
              key_id = key.credential.key_id;
              app_id = key.app_id;
              scopes = key.scopes_json;
            })))

module _ (verifies : String → List ℕ → Bool) (tenants : List Tenant) where
  unfoldable pub authenticate_ingest_key :
      List IngestKey → Attempt → String → String → Gate → Result IngestPrincipal × Gate
  unfolding ingest_principal
  authenticate_ingest_key keys attempt app_id environment gate =
      let (checked, gate') =
        check_secret verifies (λ key. key.credential) (codes ingest_prefix) invalid_credential keys
          tenants attempt gate in
      (checked >>= ingest_principal attempt.now app_id environment, gate')

  unfoldable pub authenticate_query_key :
      List QueryKey → Attempt → Gate → Result QueryPrincipal × Gate
  unfolding active_principal
  authenticate_query_key keys attempt gate =
      let (checked, gate') =
        check_secret verifies (λ key. key.credential) (codes query_prefix) invalid_credential keys
          tenants attempt gate in
      (checked >>= active_principal attempt.now, gate')

  unfoldable pub authenticate_ci_key :
      List CiKey → Attempt → String → String → Gate → Result CiPrincipal × Gate
  unfolding ci_principal
  authenticate_ci_key keys attempt required_scope app_id gate =
      let (checked, gate') =
        check_secret verifies (λ key. key.credential) (codes ci_prefix) invalid_credential keys
          tenants attempt gate in
      (checked >>= ci_principal attempt.now required_scope app_id, gate')

  -- A signed session: the key is read again, without its secret.
  unfoldable pub authenticate_query_key_id : List QueryKey → ℕ → List ℕ → Result QueryPrincipal
  unfolding active_principal
  authenticate_query_key_id keys now key_id =
      or_invalid invalid_credential (find_key (λ key. key.credential) tenants keys key_id)
      >>= active_principal now

-- require_investigator
unfoldable pub require_investigator : QueryPrincipal → Result (Unit {0})
require_investigator principal =
    refuse_if (not (str_eq principal.role "investigator")) (failure 403 "insufficient_query_role")
