-- ===== src/Db/Inbox/Taken.antt =====
-- The steps of a successful `insert_batch` of db/inbox.py.
use android_apm_server.Prelude.{
  ℕ, ◌-◌, ◌≡◌, sym, ap, ◌∙◌, String, true, Option, some, List, [], ◌∷◌, length, arith, All,
  Option-cases, inl, inr, subst,
}
use android_apm_server.Errors.{ok, ◌>>◌, found_ok, found_then}
use android_apm_server.Json.{Json}
use android_apm_server.Domain.{ApmEvent, IngestMetadata}
use android_apm_server.Identity.{InstallationHmacKeyRing}
use android_apm_server.Db.Models.{InboxEvent}
use android_apm_server.Db.Inbox.Prepare.{PreparedEvent}
use android_apm_server.Db.Inbox.Batch.{Prepared, prepare_unique_events}
use android_apm_server.Db.Inbox.Batch.Answers.{IsPrepared}
use android_apm_server.Db.Inbox.Batch.Unique.{IsUnique, Entered, prepare_unique_events-IsUnique}
use android_apm_server.Db.Inbox.Insert.{
  InsertResult, find_event, to_identity, existing_matches, row_matches, assert_existing,
  assert_raced, insert_rows, insert_prepared, insert_batch,
}
use android_apm_server.Db.Inbox.Insert.Rows.{Kept, insert_rows-Kept}
use android_apm_server.Db.Inbox.Insert.Checks.{
  Checked, CheckedRace, assert_existing-All, assert_raced-All, existing_matches_itself,
}

-- Between the read and the INSERT nobody changed the identity of a row that is in both tables.
abbrev pub Agrees : String → List InboxEvent → List InboxEvent → Type 0
Agrees tenant_id seen rows =
    (k : String) (row row' : InboxEvent)
    → find_event tenant_id k seen ≡ some row
    → find_event tenant_id k rows ≡ some row'
    → row'.identity ≡ row.identity

module _ (hmac : List ℕ → List ℕ → String) (m : IngestMetadata)
    (keys : Option InstallationHmacKeyRing) where
  -- The entry has a row in the table that matches it.
  pub record IsMatched (rows : List InboxEvent) (e : String × PreparedEvent) : Type 0 where
    pub row : InboxEvent
    pub there : find_event m.tenant_id e.0 rows ≡ some row
    pub matches : existing_matches hmac m keys e.1 row.identity ≡ true

  old-matches :
      (p : PreparedEvent) (key : String) (seen rows : List InboxEvent) (row : InboxEvent)
      → Agrees m.tenant_id seen rows
      → Checked hmac m keys seen (key, p)
      → CheckedRace hmac m keys seen rows (key, p)
      → find_event m.tenant_id key rows ≡ some row
      → existing_matches hmac m keys p row.identity ≡ true
  old-matches p key seen rows row same checked raced there =
      elim (Option-cases (find_event m.tenant_id key seen)) [
        | inl e ↦ ground (arith, e, there, raced)
        | inr (first, e) ↦
            let matched : row_matches hmac m keys p (some first) ≡ true =
              subst (λ o. row_matches hmac m keys p o ≡ true) e checked in
            rw (same key first row e there) matched
      ]

  Kept-IsMatched :
      (bytes_of : Json → ℕ) (now : ℕ) (seen rows rows' : List InboxEvent)
      (e : String × PreparedEvent)
      → Agrees m.tenant_id seen rows
      → existing_matches hmac m keys e.1 (to_identity m e.1) ≡ true
      → Checked hmac m keys seen e
      → CheckedRace hmac m keys seen rows e
      → Kept m bytes_of now rows rows' e
      → IsMatched rows' e
  Kept-IsMatched bytes_of now seen rows rows' e same itself checked raced k = record {
    row = k.row;
    there = k.there;
    matches = elim k.old_or_new [
      | inl old ↦ old-matches e.1 e.0 seen rows k.row same checked raced old
      | inr (missing, new) ↦ rw new itself
    ];
  }

  module _ (fingerprint : ApmEvent → Option String) (dumps : Json → String)
      (sha256 : String → String) (bytes_of : Json → ℕ) (now : ℕ) where
    All-IsMatched :
        (prepared : Prepared) (seen rows rows' : List InboxEvent)
        → Agrees m.tenant_id seen rows
        → All (λ e. IsPrepared hmac fingerprint dumps sha256 m keys e.1) prepared
        → All (Checked hmac m keys seen) prepared
        → All (CheckedRace hmac m keys seen rows) prepared
        → All (Kept m bytes_of now rows rows') prepared
        → All (IsMatched rows') prepared
    All-IsMatched [] seen rows rows' same a b c d = tt
    All-IsMatched (e ∷ prepared) seen rows rows' same a b c d = (
      Kept-IsMatched bytes_of now seen rows rows' e same
          (existing_matches_itself hmac m keys e.1 a.0.answers) b.0 c.0 d.0,
      All-IsMatched prepared seen rows rows' same a.1 b.1 c.1 d.1,
    )

    -- What a successful INSERT with its checks has done.
    pub record Inserted (received : ℕ) (seen rows rows' : List InboxEvent) (prepared : Prepared)
        (r : InsertResult) : Type 0 where
      pub checked : All (Checked hmac m keys seen) prepared
      pub raced : All (CheckedRace hmac m keys seen rows) prepared
      pub table : (insert_rows m bytes_of now prepared rows).0 ≡ rows'
      pub received_all : r.received ≡ received
      pub count : (insert_rows m bytes_of now prepared rows).1 ≡ r.inserted
      pub others : r.duplicates ≡ received - r.inserted

    insert_prepared-Inserted :
        (received : ℕ) (seen rows rows' : List InboxEvent) (prepared : Prepared) (r : InsertResult)
        → insert_prepared hmac fingerprint dumps sha256 bytes_of m keys received now seen prepared
            rows
          ≡ ok (r, rows')
        → Inserted received seen rows rows' prepared r
    unfolding insert_prepared
    insert_prepared-Inserted received seen rows rows' prepared r h =
        let inserted = insert_rows m bytes_of now prepared rows in
        let result : InsertResult = record {
          received = received;
          inserted = inserted.1;
          duplicates = received - inserted.1;
        } in
        let races = assert_raced hmac m keys prepared seen rows in
        let (u, (checked, rest)) =
          found_then (assert_existing hmac m keys prepared seen) (races >> ok (result, inserted.0))
            (r, rows') h in
        let (v, (raced, done)) = found_then races (ok (result, inserted.0)) (r, rows') rest in
        let same : result ≡ r = cc done in
        record {
          checked = assert_existing-All hmac m keys prepared seen checked;
          raced = assert_raced-All hmac m keys prepared seen rows raced;
          table = cc done;
          received_all = sym (ap (λ r. r.received) same);
          count = ap (λ r. r.inserted) same;
          others =
              sym (ap (λ r. r.duplicates) same)
              ∙ ap (λ n. received - n) (ap (λ r. r.inserted) same);
        }

    -- A batch that is taken, with what it was prepared to.
    pub record IsTaken (events : List ApmEvent) (seen rows rows' : List InboxEvent)
        (r : InsertResult) : Type 0 where
      pub prepared : Prepared
      pub made : prepare_unique_events hmac fingerprint dumps sha256 m events keys ≡ ok prepared
      pub inserted : Inserted (length events) seen rows rows' prepared r
      pub unique : IsUnique hmac fingerprint dumps sha256 m keys (length events) prepared
      pub entered : All (Entered hmac fingerprint dumps sha256 m keys prepared) events

    pub insert_batch-IsTaken :
        (events : List ApmEvent) (seen rows rows' : List InboxEvent) (r : InsertResult)
        → insert_batch hmac fingerprint dumps sha256 bytes_of m events keys now seen rows
          ≡ ok (r, rows')
        → IsTaken events seen rows rows' r
    unfolding insert_batch
    insert_batch-IsTaken events seen rows rows' r h =
        let (prepared, (made, rest)) =
          found_ok (prepare_unique_events hmac fingerprint dumps sha256 m events keys) _ (r, rows')
            h in
        let (unique, entered) =
          prepare_unique_events-IsUnique hmac fingerprint dumps sha256 m keys events prepared
            made in
        record {
          prepared = prepared;
          made = made;
          inserted = insert_prepared-Inserted (length events) seen rows rows' prepared r rest;
          unique = unique;
          entered = entered;
        }

    pub IsTaken-IsMatched :
        (events : List ApmEvent) (seen rows rows' : List InboxEvent) (r : InsertResult)
        → Agrees m.tenant_id seen rows
        → (t : IsTaken events seen rows rows' r) → All (IsMatched rows') t.prepared
    IsTaken-IsMatched events seen rows rows' r same t =
        subst (λ rows'. All (IsMatched rows') t.prepared) t.inserted.table
          (All-IsMatched t.prepared seen rows (insert_rows m bytes_of now t.prepared rows).0 same
            t.unique.entries t.inserted.checked t.inserted.raced
            (insert_rows-Kept m bytes_of now t.prepared rows t.unique.dict))
