-- ===== src/Db/Inbox/Privacy/Prepared.antt =====
-- `_prepare_event` of db/inbox.py and the plaintext of an installation.
use android_apm_server.Prelude.{
  ℕ, ◌≡◌, refl, sym, ap, ◌∙◌, String, false, Option, some, List, codes, is_empty, arith, All,
  any-none, subst,
}
use android_apm_server.Errors.{ok, found_ok, passes, failure}
use android_apm_server.Json.{Fields, fields_of}
use android_apm_server.Domain.{ApmEvent, IngestMetadata, model_dump}
use android_apm_server.Identity.{InstallationHmacKeyRing}
use android_apm_server.Db.Inbox.{occurs, remove_known_installation_plaintext}
use android_apm_server.Db.Inbox.Privacy.{IsClean, remove_known_installation_plaintext-IsClean}
use android_apm_server.Db.Inbox.Privacy.Payload.{object-AreClean, safe_payload-AreClean}
use android_apm_server.Db.Inbox.Prepare.{
  PreparedEvent, Pseudonym, declared, pseudonymize, names_installation, required_texts,
  text_contains, prepared_event, prepare_event,
}

-- The payload names the installation nowhere, and no text that routes or names the event does.
pub record IsPrivate (m : IngestMetadata) (e : ApmEvent) (p : PreparedEvent) (plaintext : String)
    : Type 0 where
  pub payload : IsClean (codes plaintext) p.payload
  pub routing :
      All
        (λ text. text_contains (codes plaintext) text ≡ false)
        (required_texts m e (declared m e.occurrence))

module _ (hmac : List ℕ → List ℕ → String) (fingerprint : ApmEvent → Option String)
    (m : IngestMetadata) (keys : Option InstallationHmacKeyRing) (e : ApmEvent) where
  -- What a prepared event was made of.
  record IsMade (p : PreparedEvent) : Type 0 where
    pseudonym : Pseudonym
    clear :
        names_installation
          (declared m e.occurrence).installation_plaintext
          (required_texts m e (declared m e.occurrence))
        ≡ false
    same :
        prepared_event fingerprint e (declared m e.occurrence) pseudonym (
          fields_of (
            some (
              remove_known_installation_plaintext
                (model_dump e)
                (declared m e.occurrence).installation_plaintext)))
        ≡ p

  prepare_event-IsMade :
      (p : PreparedEvent) → prepare_event hmac fingerprint m e keys ≡ ok p → IsMade p
  unfolding prepare_event
  prepare_event-IsMade p h =
      let d = declared m e.occurrence in
      let payload =
        fields_of
          (some (remove_known_installation_plaintext (model_dump e) d.installation_plaintext)) in
      let (pseudonym, (made, rest)) =
        found_ok (pseudonymize hmac keys m.tenant_id d.installation_plaintext) _ p h in
      let (clear, done) =
        passes (names_installation d.installation_plaintext (required_texts m e d))
          (failure 422 "privacy_identity_conflict")
          (ok (prepared_event fingerprint e d pseudonym payload)) p rest in
      record { pseudonym = pseudonym; clear = clear; same = cc done }

  prepared_event-plaintext :
      (pseudonym : Pseudonym) (payload : Fields)
      → (prepared_event fingerprint e
          (declared m e.occurrence)
          pseudonym
          payload).installation_plaintext
        ≡ (declared m e.occurrence).installation_plaintext
  unfolding prepared_event
  prepared_event-plaintext pseudonym payload = refl

  -- Where an event with a plaintext that is not empty is prepared, no key of its payload, at any depth,
  -- and no text in it contains the plaintext, and no text that routes or names the event does, if the
  -- plaintext is not a part of the two keys that the server writes itself, `native_frames` and
  -- `load_bias`.
  pub prepare_event-IsPrivate :
      (p : PreparedEvent) (plaintext : String)
      → prepare_event hmac fingerprint m e keys ≡ ok p
      → p.installation_plaintext ≡ some plaintext
      → is_empty plaintext ≡ false
      → occurs (codes plaintext) (codes "native_frames") ≡ false
      → occurs (codes plaintext) (codes "load_bias") ≡ false
      → IsPrivate m e p plaintext
  unfolding prepared_event
  prepare_event-IsPrivate p plaintext h named filled frames_key bias_key =
      let i = prepare_event-IsMade p h in
      let d = declared m e.occurrence in
      let names : d.installation_plaintext ≡ some plaintext =
        ap (λ p. p.installation_plaintext) i.same ∙ named in
      let texts = required_texts m e d in
      let named_in : names_installation (some plaintext) texts ≡ false =
        subst (λ o. names_installation o texts ≡ false) names i.clear in
      let cleaned : IsClean (codes plaintext)
          (remove_known_installation_plaintext (model_dump e) d.installation_plaintext) =
        subst
          (λ o. IsClean (codes plaintext) (remove_known_installation_plaintext (model_dump e) o))
          (sym names)
          (remove_known_installation_plaintext-IsClean (model_dump e) plaintext filled) in
      record {
        payload =
            subst (λ p. IsClean (codes plaintext) p.payload) i.same
              (safe_payload-AreClean (codes plaintext) e.occurrence _ frames_key bias_key
                (object-AreClean (codes plaintext) _ cleaned));
        routing =
            any-none (text_contains (codes plaintext)) texts (ground (arith, filled, named_in));
      }
