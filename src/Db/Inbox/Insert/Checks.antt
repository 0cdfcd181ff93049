-- ===== src/Db/Inbox/Insert/Checks.antt =====
-- The checks of `insert_batch` round its INSERT, entry by entry.
use android_apm_server.Prelude.{
  ℕ, ◌≡◌, refl, String, true, false, not, ◌&&◌, Option, List, [], ◌∷◌, arith, eq_refl, All,
  option_eq, option_eq_iff, is_none, &&-true,
}
use android_apm_server.Errors.{ok, passes}
use android_apm_server.Domain.{IngestMetadata}
use android_apm_server.Identity.{InstallationHmacKeyRing}
use android_apm_server.Db.Models.{EventIdentity, InboxEvent}
use android_apm_server.Db.Inbox.Prepare.{PreparedEvent}
use android_apm_server.Db.Inbox.Batch.{quality_text, Prepared}
use android_apm_server.Db.Inbox.Batch.Dict.{conflict_signature}
use android_apm_server.Db.Inbox.Insert.{
  conflict_error, find_event, same_content, to_identity, matches_existing_installation,
  existing_matches, row_matches, assert_existing, assert_raced,
}

option_eq_refl : (o : Option String) → option_eq o o ≡ true
option_eq_refl o = (option_eq_iff o o).1 refl

-- An event has the content of its own row.
same_content_itself :
    (m : IngestMetadata) (p : PreparedEvent) → same_content m p (to_identity m p) ≡ true
unfolding same_content to_identity
same_content_itself m p =
    rw
      (
        eq_refl p.payload_hash,
        eq_refl m.app_id,
        eq_refl m.environment,
        option_eq_refl p.app_version,
        option_eq_refl p.app_build,
        option_eq_refl p.version_code,
        option_eq_refl p.variant,
        eq_refl (quality_text p.release_quality),
        eq_refl (quality_text p.installation_quality),
      )
      refl

-- The content is a matter of the signature.
pub same_content-signature :
    (m : IngestMetadata) (p q : PreparedEvent) (i : EventIdentity)
    → conflict_signature p ≡ conflict_signature q
    → same_content m p i ≡ same_content m q i
unfolding same_content
same_content-signature m p q i h = cc h

module _ (hmac : List ℕ → List ℕ → String) (m : IngestMetadata)
    (keys : Option InstallationHmacKeyRing) where
  pub existing_matches_itself :
      (p : PreparedEvent)
      → matches_existing_installation hmac keys m.tenant_id p.installation_plaintext
          (to_identity m p)
        ≡ true
      → existing_matches hmac m keys p (to_identity m p) ≡ true
  unfolding existing_matches
  existing_matches_itself p h = rw (same_content_itself m p, h) refl

  pub existing_matches-content :
      (p : PreparedEvent) (i : EventIdentity)
      → existing_matches hmac m keys p i ≡ true
      → same_content m p i ≡ true
  unfolding existing_matches
  existing_matches-content p i h =
      (&&-true (same_content m p i)
        (matches_existing_installation hmac keys m.tenant_id p.installation_plaintext i) h).0

  -- What the first check and the check of the race have found.
  abbrev pub Checked : List InboxEvent → String × PreparedEvent → Type 0
  Checked rows e = row_matches hmac m keys e.1 (find_event m.tenant_id e.0 rows) ≡ true

  abbrev pub CheckedRace : List InboxEvent → List InboxEvent → String × PreparedEvent → Type 0
  CheckedRace seen rows e =
      (is_none (find_event m.tenant_id e.0 seen)
        && not (row_matches hmac m keys e.1 (find_event m.tenant_id e.0 rows)))
      ≡ false

  pub assert_existing-All :
      (prepared : Prepared) (rows : List InboxEvent)
      → assert_existing hmac m keys prepared rows ≡ ok tt
      → All (Checked rows) prepared
  unfolding assert_existing
  assert_existing-All [] rows h = tt
  assert_existing-All ((key, p) ∷ prepared) rows h =
      let (fine, rest) =
        passes (not (row_matches hmac m keys p (find_event m.tenant_id key rows))) conflict_error
          (assert_existing hmac m keys prepared rows) tt h in
      (ground (arith, fine), assert_existing-All prepared rows rest)

  pub All-assert_existing :
      (prepared : Prepared) (rows : List InboxEvent)
      → All (Checked rows) prepared
      → assert_existing hmac m keys prepared rows ≡ ok tt
  unfolding assert_existing
  All-assert_existing [] rows h = refl
  All-assert_existing ((key, p) ∷ prepared) rows h = rw h.0 (All-assert_existing prepared rows h.1)

  pub assert_raced-All :
      (prepared : Prepared) (seen rows : List InboxEvent)
      → assert_raced hmac m keys prepared seen rows ≡ ok tt
      → All (CheckedRace seen rows) prepared
  unfolding assert_raced
  assert_raced-All [] seen rows h = tt
  assert_raced-All ((key, p) ∷ prepared) seen rows h =
      let (fine, rest) =
        passes
          (is_none (find_event m.tenant_id key seen)
            && not (row_matches hmac m keys p (find_event m.tenant_id key rows)))
          conflict_error (assert_raced hmac m keys prepared seen rows) tt h in
      (fine, assert_raced-All prepared seen rows rest)

  pub All-assert_raced :
      (prepared : Prepared) (seen rows : List InboxEvent)
      → All (CheckedRace seen rows) prepared
      → assert_raced hmac m keys prepared seen rows ≡ ok tt
  unfolding assert_raced
  All-assert_raced [] seen rows h = refl
  All-assert_raced ((key, p) ∷ prepared) seen rows h =
      rw h.0 (All-assert_raced prepared seen rows h.1)
