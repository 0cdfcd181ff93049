-- ===== src/Auth/Access.antt =====
-- The principals that the three authenticate functions of auth.py, query_auth.py and ci_auth.py return.
use android_apm_server.Prelude.{
  ℕ, ◌≡◌, refl, ◌⊎◌, inl, inr, String, Bool, true, not, Option, none, some, List, codes, eq_iff,
  arith, Option-cases, subst,
}
use android_apm_server.Errors.{ApiError, Result, ok, err, found_ok, after_ok, passes}
use android_apm_server.AuthBudget.{consume}
use android_apm_server.AuthBudget.Verifier.{BoundedHashVerifier, verify}
use android_apm_server.Auth.Bearer.{parse_bearer}
use android_apm_server.Auth.Secret.{
  Credential, Tenant, Gate, Attempt, is_live, find_key, hash_slot, or_invalid, judge,
  load_and_verify, proceed, check_secret,
}
use android_apm_server.Auth.{
  IngestKey, IngestPrincipal, QueryKey, QueryPrincipal, CiKey, CiPrincipal, invalid_credential,
  ingest_prefix, query_prefix, ci_prefix, has_text, authenticate_ingest_key, authenticate_query_key,
  authenticate_ci_key, ingest_principal, active_principal, ci_principal,
}

or_invalid-ok :
    {A : Type 0} (invalid : ApiError) (o : Option A) (a : A)
    → or_invalid invalid o ≡ ok a
    → o ≡ some a
or_invalid-ok invalid none a h = absurd (cc)
or_invalid-ok invalid (some b) a h = cc h

-- What the holder of a credential has shown: a header of this audience, a stored row, and its secret.
pub record HasProved {K : Type 0} (verifies : String → List ℕ → Bool) (credential : K → Credential)
    (prefix : List ℕ) (keys : List K) (tenants : List Tenant) (attempt : Attempt) (row : K × Tenant)
    : Type 0 where
  pub parts : List ℕ × List ℕ
  pub parsed : parse_bearer prefix attempt.authorization ≡ some parts
  pub found : find_key credential tenants keys parts.0 ≡ some row
  pub verified : verifies (credential row.0).key_hash parts.1 ≡ true

module _ {K : Type 0} (verifies : String → List ℕ → Bool) (credential : K → Credential)
    (prefix : List ℕ) (invalid : ApiError) (keys : List K) (tenants : List Tenant) where
  judge-ok :
      (secret : List ℕ) (o : Option (K × Tenant)) (row : K × Tenant)
      → judge verifies credential invalid secret o ≡ ok row
      → (o ≡ some row) × (verifies (credential row.0).key_hash secret ≡ true)
  unfolding judge
  judge-ok secret none row h = absurd (cc)
  judge-ok secret (some (key, tenant)) row h =
      let (bad, same) =
        passes (not (verifies (credential key).key_hash secret)) invalid (ok (key, tenant)) row h in
      let same' : (key, tenant) ≡ row = cc same in
      subst
        (λ (r : K × Tenant).
          (some (key, tenant) ≡ some r) × (verifies (credential r.0).key_hash secret ≡ true))
        same' (refl, ground (arith, bad))

  load-ok :
      (attempt : Attempt) (pool : BoundedHashVerifier) (parts : List ℕ × List ℕ) (row : K × Tenant)
      → (load_and_verify verifies credential prefix invalid keys tenants attempt pool parts).0
        ≡ ok row
      → (find_key credential tenants keys parts.0 ≡ some row)
        × (verifies (credential row.0).key_hash parts.1 ≡ true)
  unfolding load_and_verify
  load-ok attempt pool (key_id, secret) row h =
      judge-ok secret (find_key credential tenants keys key_id) row
        (after_ok (hash_slot (verify pool attempt.task attempt.submits).0) _ row h)

  proceed-ok :
      (attempt : Attempt) (gate : Gate) (m : Result (List ℕ × List ℕ)) (row : K × Tenant)
      → (proceed verifies credential prefix invalid keys tenants attempt gate m).0 ≡ ok row
      → (parts : List ℕ × List ℕ) × (m ≡ ok parts)
        × (find_key credential tenants keys parts.0 ≡ some row)
        × (verifies (credential row.0).key_hash parts.1 ≡ true)
  unfolding proceed
  proceed-ok attempt gate (err refusal) row h = absurd (cc)
  proceed-ok attempt gate (ok parts) row h =
      let (found, verified) = load-ok attempt gate.pool parts row h in
      (parts, refl, found, verified)

  pub check_secret-ok :
      (attempt : Attempt) (gate : Gate) (row : K × Tenant)
      → (check_secret verifies credential prefix invalid keys tenants attempt gate).0 ≡ ok row
      → HasProved verifies credential prefix keys tenants attempt row
  unfolding check_secret
  check_secret-ok attempt gate row h =
      let (charged, budget') = consume gate.budget attempt.clock in
      let (shown, accepted, stored, matches) =
        proceed-ok attempt (record gate { budget = budget' }) _ row h in
      record {
        parts = shown;
        parsed =
            or_invalid-ok invalid (parse_bearer prefix attempt.authorization) shown
              (after_ok charged _ shown accepted);
        found = stored;
        verified = matches;
      }

ingest_principal-ok :
    (now : ℕ) (app_id environment : String) (row : IngestKey × Tenant) (p : IngestPrincipal)
    → ingest_principal now app_id environment row ≡ ok p
    → (is_live now row.0.credential row.1 ≡ true)
      × (p.tenant_id ≡ row.0.credential.tenant_id)
      × (p.key_id ≡ row.0.credential.key_id)
      × (row.0.app_id ≡ app_id)
      × (row.0.environment ≡ environment)
      × (p.app_id ≡ row.0.app_id)
      × (p.environment ≡ row.0.environment)
unfolding ingest_principal
ingest_principal-ok now app_id environment (key, tenant) p h =
    ground (arith, eq_iff key.app_id app_id, eq_iff key.environment environment, h)

active_principal-ok :
    (now : ℕ) (row : QueryKey × Tenant) (p : QueryPrincipal)
    → active_principal now row ≡ ok p
    → (is_live now row.0.credential row.1 ≡ true)
      × (p.tenant_id ≡ row.0.credential.tenant_id)
      × (p.app_id ≡ row.0.app_id)
      × (p.environment ≡ row.0.environment)
      × ((p.role ≡ "viewer") ⊎ (p.role ≡ "investigator"))
unfolding active_principal
active_principal-ok now (key, tenant) p h =
    ground (arith, eq_iff "viewer" key.role, eq_iff "investigator" key.role, h)

ci_principal-ok :
    (now : ℕ) (required_scope app_id : String) (row : CiKey × Tenant) (p : CiPrincipal)
    → ci_principal now required_scope app_id row ≡ ok p
    → (is_live now row.0.credential row.1 ≡ true)
      × (p.tenant_id ≡ row.0.credential.tenant_id)
      × (has_text p.scopes required_scope ≡ true)
      × ((p.app_id ≡ none) ⊎ (p.app_id ≡ some app_id))
unfolding ci_principal
ci_principal-ok now required_scope app_id (key, tenant) p h = elim (Option-cases key.app_id) [
  | inl e ↦ ground (arith, e, h)
  | inr (app, e) ↦ ground (arith, e, eq_iff app app_id, h)
]

module _ (verifies : String → List ℕ → Bool) (tenants : List Tenant) where
  -- Each principal of an ingest request has shown a header with the ingest prefix, a stored key and
  -- its secret; the key and its tenant are active, not revoked and not expired; the stored key's app
  -- and environment are those that the request names; and the principal has the tenant, the id, the
  -- app and the environment of the stored key.
  pub authenticate_ingest_key-ok :
      (keys : List IngestKey) (attempt : Attempt) (app_id environment : String) (gate : Gate)
      (p : IngestPrincipal)
      → (authenticate_ingest_key verifies tenants keys attempt app_id environment gate).0 ≡ ok p
      → (row : IngestKey × Tenant) × HasProved verifies
          (λ key. key.credential)
          (codes ingest_prefix)
          keys
          tenants
          attempt
          row
        × (is_live attempt.now row.0.credential row.1 ≡ true)
        × (p.tenant_id ≡ row.0.credential.tenant_id)
        × (p.key_id ≡ row.0.credential.key_id)
        × (row.0.app_id ≡ app_id)
        × (row.0.environment ≡ environment)
        × (p.app_id ≡ row.0.app_id)
        × (p.environment ≡ row.0.environment)
  unfolding authenticate_ingest_key
  authenticate_ingest_key-ok keys attempt app_id environment gate p h =
      let (row, (checked, made)) =
        found_ok _ (ingest_principal attempt.now app_id environment) p h in
      let shown =
        check_secret-ok verifies (λ k. k.credential) (codes ingest_prefix) invalid_credential keys
          tenants attempt gate row checked in
      let (live, tenant, key, asked_app, asked_env, app, env) =
        ingest_principal-ok attempt.now app_id environment row p made in
      (row, shown, live, tenant, key, asked_app, asked_env, app, env)

  -- The scope of a query principal is that of the stored key, and its role is one that the server
  -- knows; the key is active, not revoked and not expired, its tenant is active, and its secret was
  -- shown under the query prefix.
  pub authenticate_query_key-ok :
      (keys : List QueryKey) (attempt : Attempt) (gate : Gate) (p : QueryPrincipal)
      → (authenticate_query_key verifies tenants keys attempt gate).0 ≡ ok p
      → (row : QueryKey × Tenant) × HasProved verifies
          (λ key. key.credential)
          (codes query_prefix)
          keys
          tenants
          attempt
          row
        × (is_live attempt.now row.0.credential row.1 ≡ true)
        × (p.tenant_id ≡ row.0.credential.tenant_id)
        × (p.app_id ≡ row.0.app_id)
        × (p.environment ≡ row.0.environment)
        × ((p.role ≡ "viewer") ⊎ (p.role ≡ "investigator"))
  unfolding authenticate_query_key
  authenticate_query_key-ok keys attempt gate p h =
      let (row, (checked, made)) = found_ok _ (active_principal attempt.now) p h in
      let shown =
        check_secret-ok verifies (λ k. k.credential) (codes query_prefix) invalid_credential keys
          tenants attempt gate row checked in
      let (live, tenant, app, env, role) = active_principal-ok attempt.now row p made in
      (row, shown, live, tenant, app, env, role)

  -- A CI principal has the scope that was asked for, and is bound to no app or to the app that was
  -- asked for; its key is active, not revoked and not expired, its tenant is active, and its secret
  -- was shown under the CI prefix.
  pub authenticate_ci_key-ok :
      (keys : List CiKey) (attempt : Attempt) (required_scope app_id : String) (gate : Gate)
      (p : CiPrincipal)
      → (authenticate_ci_key verifies tenants keys attempt required_scope app_id gate).0 ≡ ok p
      → (row : CiKey × Tenant) × HasProved verifies
          (λ key. key.credential)
          (codes ci_prefix)
          keys
          tenants
          attempt
          row
        × (is_live attempt.now row.0.credential row.1 ≡ true)
        × (p.tenant_id ≡ row.0.credential.tenant_id)
        × (has_text p.scopes required_scope ≡ true)
        × ((p.app_id ≡ none) ⊎ (p.app_id ≡ some app_id))
  unfolding authenticate_ci_key
  authenticate_ci_key-ok keys attempt required_scope app_id gate p h =
      let (row, (checked, made)) =
        found_ok _ (ci_principal attempt.now required_scope app_id) p h in
      let shown =
        check_secret-ok verifies (λ k. k.credential) (codes ci_prefix) invalid_credential keys
          tenants attempt gate row checked in
      let (live, tenant, scope, app) =
        ci_principal-ok attempt.now required_scope app_id row p made in
      (row, shown, live, tenant, scope, app)
