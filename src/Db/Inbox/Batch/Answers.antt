-- ===== src/Db/Inbox/Batch/Answers.antt =====
-- One prepared event of db/inbox.py and the row that is made of it.
use Prim.Native.String.{len}
use android_apm_server.Prelude.{
  ℕ, ◌≤◌, ◌≡◌, refl, sym, ap, ◌∙◌, String, true, false, Option, none, some, List, arith, eq_refl,
  is_empty, ltb, Bool-cases, Option-cases, inl, inr, subst,
}
use android_apm_server.Errors.{ok, found_ok, after_ok}
use android_apm_server.Json.{Json, Fields, fields_of}
use android_apm_server.Domain.{ApmEvent, IngestMetadata, model_dump}
use android_apm_server.Identity.{InstallationHmacKeyRing, digest}
use android_apm_server.Db.Models.{EventIdentity}
use android_apm_server.Db.Inbox.{remove_known_installation_plaintext}
use android_apm_server.Db.Inbox.Prepare.{
  PreparedEvent, Pseudonym, declared, pseudonymize, pseudonym_of, prepared_event, prepare_event,
  safe_event,
}
use android_apm_server.Db.Inbox.Batch.{max_event_json_bytes, hashed}
use android_apm_server.Db.Inbox.Insert.{matches_existing_installation, to_identity}

module _ (hmac : List ℕ → List ℕ → String) (fingerprint : ApmEvent → Option String)
    (dumps : Json → String) (sha256 : String → String) (m : IngestMetadata)
    (keys : Option InstallationHmacKeyRing) where
  -- The pseudonym of a prepared event answers to its own row.
  abbrev pub Answers : PreparedEvent → Type 0
  Answers p =
      matches_existing_installation hmac keys m.tenant_id p.installation_plaintext (to_identity m p)
      ≡ true

  -- What every prepared event has: also the digest of its payload, which is not too large.
  pub record IsPrepared (p : PreparedEvent) : Type 0 where
    pub answers : Answers p
    pub digested : p.payload_hash ≡ sha256 (dumps p.payload)
    pub bounded : len (dumps p.payload) ≤ max_event_json_bytes

  -- The digest under the active version is the digest under no version.
  digest_active :
      (ring : InstallationHmacKeyRing) (tenant_id plaintext : String)
      → digest hmac ring tenant_id plaintext (some ring.active_version)
        ≡ digest hmac ring tenant_id plaintext none
  unfolding digest
  digest_active ring tenant_id plaintext = elim (Bool-cases (is_empty ring.active_version)) [
    | inl e ↦ simp e refl
    | inr e ↦ simp e refl
  ]

  pseudonymize-matches :
      (keys : Option InstallationHmacKeyRing) (plaintext : Option String) (pseudonym : Pseudonym)
      (i : EventIdentity)
      → pseudonymize hmac keys m.tenant_id plaintext ≡ ok pseudonym
      → i.installation_hmac ≡ pseudonym.installation_hmac
      → i.installation_hmac_key_version ≡ pseudonym.key_version
      → matches_existing_installation hmac keys m.tenant_id plaintext i ≡ true
  unfolding pseudonymize matches_existing_installation
  pseudonymize-matches keys none pseudonym i h a b = ground (arith, h, a, b)
  pseudonymize-matches none (some plaintext) pseudonym i h a b = absurd (cc)
  pseudonymize-matches (some ring) (some plaintext) pseudonym i h a b =
      elim (Option-cases (digest hmac ring m.tenant_id plaintext none)) [
        | inl e ↦ absurd (ground (arith, e, h))
        | inr (digested, e) ↦
            let digest_there : pseudonym.installation_hmac ≡ some digested =
              cc (sym (ap (λ d. pseudonym_of ring d) e) ∙ h) in
            let version_there : pseudonym.key_version ≡ some ring.active_version =
              cc (sym (ap (λ d. pseudonym_of ring d) e) ∙ h) in
            rw (a ∙ digest_there, b ∙ version_there, digest_active ring m.tenant_id plaintext, e)
              (eq_refl digested)
      ]

  prepared_event-Answers :
      (e : ApmEvent) (pseudonym : Pseudonym) (payload : Fields)
      → let d = declared m e.occurrence in
        pseudonymize hmac keys m.tenant_id d.installation_plaintext ≡ ok pseudonym
        → ((prepared_event fingerprint e d pseudonym payload).event.event_id ≡ e.event_id)
          × Answers (hashed dumps sha256 (prepared_event fingerprint e d pseudonym payload))
  unfolding prepared_event safe_event hashed to_identity
  prepared_event-Answers e pseudonym payload made = (
    refl,
    pseudonymize-matches keys (declared m e.occurrence).installation_plaintext pseudonym
        (to_identity m (
          hashed dumps sha256
            (prepared_event fingerprint e (declared m e.occurrence) pseudonym payload)))
        made refl refl,
  )

  pub prepare_event-ok :
      (e : ApmEvent) (p : PreparedEvent)
      → prepare_event hmac fingerprint m e keys ≡ ok p
      → (p.event.event_id ≡ e.event_id) × Answers (hashed dumps sha256 p)
  unfolding prepare_event
  prepare_event-ok e p h =
      let d = declared m e.occurrence in
      let payload =
        fields_of
          (some (remove_known_installation_plaintext (model_dump e) d.installation_plaintext)) in
      let (pseudonym, (made, rest)) =
        found_ok (pseudonymize hmac keys m.tenant_id d.installation_plaintext) _ p h in
      let same : prepared_event fingerprint e d pseudonym payload ≡ p =
        cc (after_ok _ (ok (prepared_event fingerprint e d pseudonym payload)) p rest) in
      subst (λ p. (p.event.event_id ≡ e.event_id) × Answers (hashed dumps sha256 p)) same
        (prepared_event-Answers e pseudonym payload made)

  pub hashed-IsPrepared :
      (own : PreparedEvent)
      → Answers (hashed dumps sha256 own)
      → ltb max_event_json_bytes (len (dumps own.payload)) ≡ false
      → IsPrepared (hashed dumps sha256 own)
  unfolding hashed
  hashed-IsPrepared own answers small = record {
    answers = answers;
    digested = refl;
    bounded = ground (arith, small);
  }
