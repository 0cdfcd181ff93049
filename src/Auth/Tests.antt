-- ===== src/Auth/Tests.antt =====
-- Keys of one tenant, headers that show them, and the theorems at these inputs.
use android_apm_server.Prelude.{
  ℕ, ◌≡◌, ◌⊎◌, refl, arith, String, Bool, true, none, some, List, [], ◌∷◌, codes, same_codes,
}
use android_apm_server.Errors.{ok}
use android_apm_server.AuthBudget.{new, consume}
use android_apm_server.AuthBudget.Verifier.{start_pool, verify}
use android_apm_server.Auth.Bearer.{
  parse_bearer, parse_header, bearer, plaintext, parse_header-plaintext, parse_header-audience,
}
use android_apm_server.Auth.Secret.{
  Credential, Tenant, Gate, Attempt, is_live, find_key, check_secret,
}
use android_apm_server.Auth.{
  IngestKey, IngestPrincipal, QueryKey, QueryPrincipal, CiKey, CiPrincipal, ingest_prefix,
  query_prefix, ci_prefix, has_text, authenticate_ingest_key, authenticate_query_key,
  authenticate_ci_key,
}
use android_apm_server.Auth.Access.{
  HasProved, authenticate_ingest_key-ok, authenticate_query_key-ok, authenticate_ci_key-ok,
}

-- A hash that is the secret itself.
abbrev plain : String → List ℕ → Bool
plain hash secret = same_codes (codes hash) secret

abbrev credential : Credential
credential = record {
  key_id = "k1";
  tenant_id = "t";
  key_hash = "s_1";
  active = true;
  expires_at = some 90;
  revoked_at = none;
}

abbrev tenants : List Tenant
tenants = record { id = "t"; active = true } ∷ []

abbrev gate : Gate
gate = record { budget = new 20 40 0; pool = start_pool 2 }

abbrev attempt : String → Attempt
attempt authorization = record {
  authorization = some authorization;
  clock = 10;
  now = 20;
  task = 1;
  submits = true;
}

abbrev ingest_keys : List IngestKey
ingest_keys =
    record {
      credential = credential;
      app_id = "app";
      environment = "prod";
      requests_per_minute = 600;
      events_per_minute = 30000;
    }
    ∷ []

abbrev phone_principal : IngestPrincipal
phone_principal = record {
  tenant_id = "t";
  key_id = "k1";
  app_id = "app";
  environment = "prod";
  requests_per_minute = 600;
  events_per_minute = 30000;
}

let_in :
    (authenticate_ingest_key plain tenants ingest_keys
      (attempt "Bearer apm1_k1_s_1")
      "app"
      "prod"
      gate).0
    ≡ ok phone_principal
unfolding authenticate_ingest_key check_secret find_key is_live parse_bearer consume verify new
    start_pool
let_in = refl

authenticate_ingest_key-ok_example :
    (row : IngestKey × Tenant) × HasProved plain
      (λ key. key.credential)
      (codes ingest_prefix)
      ingest_keys
      tenants
      (attempt "Bearer apm1_k1_s_1")
      row
    × (is_live 20 row.0.credential row.1 ≡ true)
    × ("t" ≡ row.0.credential.tenant_id)
    × ("k1" ≡ row.0.credential.key_id)
    × (row.0.app_id ≡ "app")
    × (row.0.environment ≡ "prod")
    × (phone_principal.app_id ≡ row.0.app_id)
    × (phone_principal.environment ≡ row.0.environment)
authenticate_ingest_key-ok_example =
    authenticate_ingest_key-ok plain tenants ingest_keys (attempt "Bearer apm1_k1_s_1") "app" "prod"
      gate phone_principal let_in

abbrev query_keys : List QueryKey
query_keys =
    record { credential = credential; app_id = "app"; environment = "prod"; role = "viewer" } ∷ []

abbrev viewer_principal : QueryPrincipal
viewer_principal = record {
  tenant_id = "t";
  key_id = "k1";
  app_id = "app";
  environment = "prod";
  role = "viewer";
  expires_at = some 90;
}

viewer_let_in :
    (authenticate_query_key plain tenants query_keys (attempt "Bearer apmq1_k1_s_1") gate).0
    ≡ ok viewer_principal
unfolding authenticate_query_key check_secret find_key is_live parse_bearer consume verify new
    start_pool
viewer_let_in = refl

authenticate_query_key-ok_example :
    (row : QueryKey × Tenant) × HasProved plain
      (λ key. key.credential)
      (codes query_prefix)
      query_keys
      tenants
      (attempt "Bearer apmq1_k1_s_1")
      row
    × (is_live 20 row.0.credential row.1 ≡ true)
    × ("t" ≡ row.0.credential.tenant_id)
    × ("app" ≡ row.0.app_id)
    × ("prod" ≡ row.0.environment)
    × ((viewer_principal.role ≡ "viewer") ⊎ (viewer_principal.role ≡ "investigator"))
authenticate_query_key-ok_example =
    authenticate_query_key-ok plain tenants query_keys (attempt "Bearer apmq1_k1_s_1") gate
      viewer_principal viewer_let_in

abbrev ci_keys : List CiKey
ci_keys =
    record { credential = credential; app_id = none; scopes_json = "artifact:write" ∷ [] } ∷ []

abbrev pipeline_principal : CiPrincipal
pipeline_principal = record {
  tenant_id = "t";
  key_id = "k1";
  app_id = none;
  scopes = "artifact:write" ∷ [];
}

pipeline_let_in :
    (authenticate_ci_key plain tenants ci_keys
      (attempt "Bearer apmci1_k1_s_1")
      "artifact:write"
      "app"
      gate).0
    ≡ ok pipeline_principal
unfolding authenticate_ci_key check_secret find_key is_live parse_bearer consume verify new
    start_pool
pipeline_let_in = refl

authenticate_ci_key-ok_example :
    (row : CiKey × Tenant) × HasProved plain
      (λ key. key.credential)
      (codes ci_prefix)
      ci_keys
      tenants
      (attempt "Bearer apmci1_k1_s_1")
      row
    × (is_live 20 row.0.credential row.1 ≡ true)
    × ("t" ≡ row.0.credential.tenant_id)
    × (has_text ("artifact:write" ∷ []) "artifact:write" ≡ true)
    × ((pipeline_principal.app_id ≡ none) ⊎ (pipeline_principal.app_id ≡ some "app"))
authenticate_ci_key-ok_example =
    authenticate_ci_key-ok plain tenants ci_keys (attempt "Bearer apmci1_k1_s_1") "artifact:write"
      "app" gate pipeline_principal pipeline_let_in

-- The id "k1" and the secret "s_1".
parse_header-plaintext_example :
    parse_header
      (codes "apm1")
      (bearer (plaintext (codes "apm1") (b'k' ∷ b'1' ∷ []) (b's' ∷ b'_' ∷ b'1' ∷ [])))
    ≡ some (b'k' ∷ b'1' ∷ [], b's' ∷ b'_' ∷ b'1' ∷ [])
unfolding plaintext
parse_header-plaintext_example =
    parse_header-plaintext (codes "apm1") b'k' (b'1' ∷ []) b's' (b'_' ∷ b'1' ∷ []) (omega arith)
      (omega arith) (omega arith)

query_header :
    parse_header (codes query_prefix) (codes "Bearer apmq1_k1_s_1") ≡ some (codes "k1", codes "s_1")
unfolding parse_header
query_header = refl

parse_header-audience_example :
    parse_header (codes ingest_prefix) (codes "Bearer apmq1_k1_s_1") ≡ none
parse_header-audience_example =
    parse_header-audience (codes query_prefix) (codes ingest_prefix) (codes "Bearer apmq1_k1_s_1")
      (codes "k1", codes "s_1") (λ p. absurd (ground (arith, p))) query_header
