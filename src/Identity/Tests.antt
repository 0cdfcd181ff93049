-- ===== src/Identity/Tests.antt =====
-- A key ring of one key of 32 bytes, and the messages of two installations.
use android_apm_server.Prelude.{
  ℕ, ◌≤◌, ◌≡◌, ◌≢◌, refl, String, Option, none, some, List, [], ◌∷◌, All, arith, codes,
}
use android_apm_server.Json.{Json, Fields}
use android_apm_server.Identity.{
  InstallationHmacKeyRing, max_key_versions, digest, parse, parse_keys, parse_entry, find_secret,
}
use android_apm_server.Identity.Separation.{NoNul, IsStrong, digest_message-injective, parse-ok}

abbrev zeros : List ℕ
zeros =
    0 ∷ 0 ∷ 0 ∷ 0 ∷ 0 ∷ 0 ∷ 0 ∷ 0 ∷ 0 ∷ 0 ∷ 0 ∷ 0 ∷ 0 ∷ 0 ∷ 0 ∷ 0 ∷ 0 ∷ 0 ∷ 0 ∷ 0 ∷ 0 ∷ 0 ∷ 0 ∷ 0
    ∷ 0 ∷ 0 ∷ 0 ∷ 0 ∷ 0 ∷ 0 ∷ 0 ∷ 0 ∷ []

abbrev decode_zeros : String → Option (List ℕ)
decode_zeros encoded = some zeros

abbrev test_ring : InstallationHmacKeyRing
test_ring = record { keys = ("k1", zeros) ∷ []; active_version = "k1" }

parse-ok_example :
    (1 ≤ 1)
    × (1 ≤ max_key_versions)
    × All (IsStrong decode_zeros) test_ring.keys
    × ((tenant installation : String)
        → digest (λ k message. "mac") test_ring tenant installation none ≢ none)
unfolding parse parse_keys parse_entry find_secret
parse-ok_example =
    parse-ok decode_zeros (λ k message. "mac")
      (some (Json.obj (Fields.field "k1" (Json.str "AAAA") Fields.end))) "k1" test_ring refl

abc-NoNul : NoNul (codes "ab")
abc-NoNul = ((λ e. omega (arith, e)), ((λ e. omega (arith, e)), tt))

digest_message-injective_example : (codes "ab" ≡ codes "ab") × (codes "d" ≡ codes "d")
digest_message-injective_example =
    digest_message-injective "ab" "ab" "d" "d" abc-NoNul abc-NoNul refl
