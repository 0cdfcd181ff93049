-- ===== src/RemoteConfig/Tests.antt =====
-- An installation at place 258 of 10000, and a configuration.
use android_apm_server.Prelude.{
  ℕ, ◌<◌, ◌≡◌, refl, arith, String, true, false, none, some, List, [], ◌∷◌,
}
use android_apm_server.Json.{Json}
use android_apm_server.RemoteConfig.{
  rollout_denominator, bucket, rollout_includes, ℤ, pos, negsuc, Unsigned, SignedConfig,
  sign_config,
}
use android_apm_server.RemoteConfig.Rollout.{rollout_includes-monotone}

abbrev one_two : String → String → List ℕ
one_two salt installation = 0 ∷ 0 ∷ 0 ∷ 0 ∷ 0 ∷ 0 ∷ 1 ∷ 2 ∷ 77 ∷ []

rollout_includes-monotone_example :
    (rollout_includes one_two "s" "i" 259 ≡ true → rollout_includes one_two "s" "i" 500 ≡ true)
    × (rollout_includes one_two "s" "i" 0 ≡ false)
    × (rollout_includes one_two "s" "i" rollout_denominator ≡ true)
    × (rollout_includes one_two "s" "i" 259 ≡ true → bucket one_two "s" "i" < 259)
    × (bucket one_two "s" "i" < 259 → rollout_includes one_two "s" "i" 259 ≡ true)
rollout_includes-monotone_example = rollout_includes-monotone one_two "s" "i" 259 500 (omega arith)

-- Fields with a revision and a share that may be out of range.
abbrev fields : ℤ → ℤ → Unsigned
fields revision rollout_basis_points = record {
  revision = revision;
  issued_at = 10;
  expires_at = 20;
  rollout_basis_points = rollout_basis_points;
  payload = Json.null;
  key_id = "k";
}

abbrev config : SignedConfig
config = record { covered = fields (pos 3) (pos 500); signature = 3 ∷ [] }

signed : sign_config (λ u. 3 ∷ []) (fields (pos 3) (pos 500)) ≡ some config
unfolding sign_config
signed = refl

negative_share : sign_config (λ u. 3 ∷ []) (fields (pos 3) (negsuc 0)) ≡ none
unfolding sign_config
negative_share = refl

negative_revision : sign_config (λ u. 3 ∷ []) (fields (negsuc 2) (pos 500)) ≡ none
unfolding sign_config
negative_revision = refl
