-- ===== src/Db/Inbox/Insert/Content.antt =====
-- The content of an inbox row and of a prepared event, field by field: what `_assert_existing_matches` of
-- db/inbox.py compares, without its tests.
use android_apm_server.Prelude.{
  ℕ, ◌≡◌, refl, String, true, Option, none, some, List, [], ◌∷◌, arith, str_eq, eq_iff, option_eq,
  option_eq_iff, is_none, &&-true,
}
use android_apm_server.Domain.{IngestMetadata}
use android_apm_server.Identity.{InstallationHmacKeyRing, digest}
use android_apm_server.Db.Models.{EventIdentity}
use android_apm_server.Db.Inbox.Prepare.{PreparedEvent}
use android_apm_server.Db.Inbox.Batch.{quality_text, quality_eq}
use android_apm_server.Db.Inbox.Insert.{
  same_content, digest_is, replay_matches, matches_existing_installation, existing_matches,
}

abbrev pub stored_content : EventIdentity → List (Option String)
stored_content i =
    some i.payload_sha256
    ∷ some i.app_id
    ∷ some i.environment
    ∷ i.app_version
    ∷ i.app_build
    ∷ i.version_code
    ∷ i.variant
    ∷ some (quality_text i.release_identity_quality)
    ∷ some (quality_text i.installation_identity_quality)
    ∷ []

abbrev pub event_content : IngestMetadata → PreparedEvent → List (Option String)
event_content m p =
    some p.payload_hash
    ∷ some m.app_id
    ∷ some m.environment
    ∷ p.app_version
    ∷ p.app_build
    ∷ p.version_code
    ∷ p.variant
    ∷ some (quality_text p.release_quality)
    ∷ some (quality_text p.installation_quality)
    ∷ []

same_content-ok :
    (m : IngestMetadata) (p : PreparedEvent) (i : EventIdentity)
    → same_content m p i ≡ true
    → stored_content i ≡ event_content m p
unfolding same_content
same_content-ok m p i h =
    let (h8, e9) =
      &&-true _ (quality_eq i.installation_identity_quality p.installation_quality) h in
    let (h7, e8) = &&-true _ (quality_eq i.release_identity_quality p.release_quality) h8 in
    let (h6, e7) = &&-true _ (option_eq i.variant p.variant) h7 in
    let (h5, e6) = &&-true _ (option_eq i.version_code p.version_code) h6 in
    let (h4, e5) = &&-true _ (option_eq i.app_build p.app_build) h5 in
    let (h3, e4) = &&-true _ (option_eq i.app_version p.app_version) h4 in
    let (h2, e3) = &&-true _ (str_eq i.environment m.environment) h3 in
    let (e1, e2) = &&-true _ (str_eq i.app_id m.app_id) h2 in
    cc (
      (eq_iff i.payload_sha256 p.payload_hash).0 e1,
      (eq_iff i.app_id m.app_id).0 e2,
      (eq_iff i.environment m.environment).0 e3,
      (option_eq_iff i.app_version p.app_version).0 e4,
      (option_eq_iff i.app_build p.app_build).0 e5,
      (option_eq_iff i.version_code p.version_code).0 e6,
      (option_eq_iff i.variant p.variant).0 e7,
      (eq_iff (quality_text i.release_identity_quality) (quality_text p.release_quality)).0 e8,
      (eq_iff (quality_text i.installation_identity_quality)
            (quality_text p.installation_quality)).0
          e9,
    )

module _ (hmac : List ℕ → List ℕ → String) where
  -- The pseudonym of the row is that of the event's installation, under the key version of the row.
  abbrev pub IsInstallation :
      Option InstallationHmacKeyRing → String → Option String → EventIdentity → Type 0
  IsInstallation keys tenant_id none i =
      (i.installation_hmac ≡ none) × (i.installation_hmac_key_version ≡ none)
  IsInstallation keys tenant_id (some plaintext) i =
      (ring : InstallationHmacKeyRing) × (version : String) × (stored : String) × (keys ≡ some ring)
      × (i.installation_hmac_key_version ≡ some version)
      × (i.installation_hmac ≡ some stored)
      × (digest hmac ring tenant_id plaintext (some version) ≡ some stored)

  abbrev pub IsReplay :
      IngestMetadata → Option InstallationHmacKeyRing → PreparedEvent → EventIdentity → Type 0
  IsReplay m keys p i =
      (stored_content i ≡ event_content m p)
      × IsInstallation keys m.tenant_id p.installation_plaintext i

  digest_is-ok :
      (o : Option String) (stored : String) → digest_is hmac o stored ≡ true → o ≡ some stored
  digest_is-ok none stored h = absurd (cc)
  digest_is-ok (some s) stored h = ground (arith, eq_iff s stored)

  replay_matches-ok :
      (ring : InstallationHmacKeyRing) (tenant_id plaintext : String) (o v : Option String)
      → replay_matches hmac ring tenant_id plaintext o v ≡ true
      → (version : String) × (stored : String) × (v ≡ some version)
        × (o ≡ some stored)
        × (digest hmac ring tenant_id plaintext (some version) ≡ some stored)
  replay_matches-ok ring tenant_id plaintext none v h = absurd (cc)
  replay_matches-ok ring tenant_id plaintext (some stored) none h = absurd (cc)
  replay_matches-ok ring tenant_id plaintext (some stored) (some version) h =
      (version, stored, refl, refl, digest_is-ok _ stored h)

  is_none-ok : (o : Option String) → is_none o ≡ true → o ≡ none
  is_none-ok none h = refl
  is_none-ok (some s) h = absurd (cc)

  matches-ok :
      (keys : Option InstallationHmacKeyRing) (tenant_id : String) (plaintext : Option String)
      (i : EventIdentity)
      → matches_existing_installation hmac keys tenant_id plaintext i ≡ true
      → IsInstallation keys tenant_id plaintext i
  unfolding matches_existing_installation
  matches-ok keys tenant_id none i h =
      let (a, b) = &&-true (is_none i.installation_hmac) _ h in (is_none-ok _ a, is_none-ok _ b)
  matches-ok none tenant_id (some plaintext) i h = absurd (cc)
  matches-ok (some ring) tenant_id (some plaintext) i h =
      let (version, stored, v, o, d) = replay_matches-ok ring tenant_id plaintext _ _ h in
      (ring, version, stored, refl, v, o, d)

  pub existing_matches-IsReplay :
      (m : IngestMetadata) (keys : Option InstallationHmacKeyRing) (p : PreparedEvent)
      (i : EventIdentity)
      → existing_matches hmac m keys p i ≡ true
      → IsReplay m keys p i
  unfolding existing_matches
  existing_matches-IsReplay m keys p i h =
      let (content, installation) = &&-true (same_content m p i) _ h in
      (
        same_content-ok m p i content,
        matches-ok keys m.tenant_id p.installation_plaintext i installation,
      )
