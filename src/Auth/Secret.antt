-- ===== src/Auth/Secret.antt =====
-- What authenticate_ingest_key, authenticate_query_key and authenticate_ci_key have in common, up to
-- the checks of the row: charge the attempt, parse the header, load the row, verify the secret.
use android_apm_server.Prelude.{
  ℕ, String, Bool, true, not, ◌&&◌, Option, none, some, List, [], ◌∷◌, is_none, due, codes,
  same_codes, str_eq, if◌then◌else◌,
}
use android_apm_server.Errors.{ApiError, Result, ok, err, ◌>>◌, refuse_if}
use android_apm_server.AuthBudget.{AuthAttemptBudget, consume}
use android_apm_server.AuthBudget.Verifier.{BoundedHashVerifier, verify}
use android_apm_server.Auth.Bearer.{parse_bearer}

-- The columns that the three tables of keys share.
pub record Credential : Type 0 where
  pub key_id : String
  pub tenant_id : String
  pub key_hash : String
  pub active : Bool
  pub expires_at : Option ℕ
  pub revoked_at : Option ℕ

pub record Tenant : Type 0 where
  pub id : String
  pub active : Bool

-- AUTH_ATTEMPTS and HASH_VERIFIER
pub record Gate : Type 0 where
  pub budget : AuthAttemptBudget
  pub pool : BoundedHashVerifier

-- A request: its header, the monotonic clock at its start, the UTC clock after the verification, the
-- number of its hash, and whether the executor takes the hash or raises.
pub record Attempt : Type 0 where
  pub authorization : Option String
  pub clock : ℕ
  pub now : ℕ
  pub task : ℕ
  pub submits : Bool

abbrev pub internal_error : ApiError
internal_error = record {
  status_code = 500;
  code = "internal_error";
  retryable = true;
  event_index = none;
  retry_after = none;
}

unfoldable pub is_live : ℕ → Credential → Tenant → Bool
is_live now c tenant =
    c.active && is_none c.revoked_at && tenant.active && not (due c.expires_at now)

abbrev pub find_tenant : List Tenant → String → Option Tenant
find_tenant [] id = none
find_tenant (t ∷ tenants) id =
    let rest = find_tenant tenants id in if str_eq t.id id then some t else rest

abbrev pub with_tenant : {K : Type 0} → K → Option Tenant → Option (K × Tenant)
with_tenant key none = none
with_tenant key (some tenant) = some (key, tenant)

-- The row of this id, joined to its tenant.
unfoldable pub find_key :
    {K : Type 0} → (K → Credential) → List Tenant → List K → List ℕ → Option (K × Tenant)
find_key credential tenants [] key_id = none
find_key credential tenants (key ∷ keys) key_id =
    let rest = find_key credential tenants keys key_id in
    if same_codes (codes (credential key).key_id) key_id
    then with_tenant key (find_tenant tenants (credential key).tenant_id)
    else rest

-- What the pool answers; an executor that raises is an unexpected error of the request.
abbrev pub hash_slot : Option (Result (Unit {0})) → Result (Unit {0})
hash_slot none = err internal_error
hash_slot (some answer) = answer

abbrev pub or_invalid : {A : Type 0} → ApiError → Option A → Result A
or_invalid invalid none = err invalid
or_invalid invalid (some a) = ok a

module _ {K : Type 0} (verifies : String → List ℕ → Bool) (credential : K → Credential) where
  -- The verification of an unknown id runs against a dummy hash; what it finds is ignored.
  unfoldable pub judge : ApiError → List ℕ → Option (K × Tenant) → Result (K × Tenant)
  judge invalid secret none = err invalid
  judge invalid secret (some (key, tenant)) =
      refuse_if (not (verifies (credential key).key_hash secret)) invalid >> ok (key, tenant)

  module _ (prefix : List ℕ) (invalid : ApiError) (keys : List K) (tenants : List Tenant) where
    unfoldable pub load_and_verify :
        Attempt → BoundedHashVerifier → List ℕ × List ℕ → Result (K × Tenant) × BoundedHashVerifier
    unfolding judge
    load_and_verify attempt pool (key_id, secret) =
        let (slot, pool') = verify pool attempt.task attempt.submits in
        (hash_slot slot >> judge invalid secret (find_key credential tenants keys key_id), pool')

    unfoldable pub proceed : Attempt → Gate → Result (List ℕ × List ℕ) → Result (K × Tenant) × Gate
    unfolding load_and_verify
    proceed attempt gate (err refusal) = (err refusal, gate)
    proceed attempt gate (ok parts) =
        let (checked, pool') = load_and_verify attempt gate.pool parts in
        (checked, record gate { pool = pool' })

    unfoldable pub check_secret : Attempt → Gate → Result (K × Tenant) × Gate
    unfolding proceed
    check_secret attempt gate =
        let (charged, budget') = consume gate.budget attempt.clock in
        proceed attempt (record gate { budget = budget' })
          (charged >> or_invalid invalid (parse_bearer prefix attempt.authorization))
