-- ===== src/Db/Inbox/Replay.antt =====
-- `insert_batch` of db/inbox.py on a batch that reuses the id of a row.
use android_apm_server.Prelude.{
  ℕ, ◌-◌, ◌≡◌, refl, sym, ap, ◌∙◌, String, true, not, ◌&&◌, Option, some, List, [], ◌∷◌, length,
  arith, All, All-map, ◌⊎◌, Bool-cases, inl, inr, subst, is_none,
}
use android_apm_server.Errors.{ok, err}
use android_apm_server.Json.{Json}
use android_apm_server.Domain.{ApmEvent, IngestMetadata}
use android_apm_server.Identity.{InstallationHmacKeyRing}
use android_apm_server.Db.Models.{InboxEvent}
use android_apm_server.Db.Inbox.Prepare.{PreparedEvent}
use android_apm_server.Db.Inbox.Batch.{Prepared, find_prepared, prepare_unique_events}
use android_apm_server.Db.Inbox.Insert.{
  InsertResult, conflict_error, find_event, existing_matches, row_matches, assert_existing,
  assert_raced, insert_rows, insert_prepared, insert_batch,
}
use android_apm_server.Db.Inbox.Insert.Rows.{IsDict, insert_rows-find}
use android_apm_server.Db.Inbox.Batch.Dict.{All-find_prepared}
use android_apm_server.Db.Inbox.Insert.Checks.{
  Checked, CheckedRace, All-assert_existing, All-assert_raced,
}
use android_apm_server.Db.Inbox.Insert.Content.{IsReplay, existing_matches-IsReplay}
use android_apm_server.Db.Inbox.Taken.{
  Agrees, IsMatched, IsTaken, IsTaken-IsMatched, insert_batch-IsTaken,
}

module _ (hmac : List ℕ → List ℕ → String) (m : IngestMetadata)
    (keys : Option InstallationHmacKeyRing) where
  -- A row that is there has been seen, so there was no race for it.
  IsMatched-Checked :
      (rows : List InboxEvent) (e : String × PreparedEvent)
      → IsMatched hmac m keys rows e
      → Checked hmac m keys rows e
  IsMatched-Checked rows e h = rw (h.there, h.matches) refl

  IsMatched-CheckedRace :
      (seen rows : List InboxEvent) (e : String × PreparedEvent)
      → IsMatched hmac m keys seen e
      → CheckedRace hmac m keys seen rows e
  IsMatched-CheckedRace seen rows e h = rw (h.there) refl

  -- A check passes, or it is the conflict.
  assert_existing-cases :
      (prepared : Prepared) (rows : List InboxEvent)
      → (assert_existing hmac m keys prepared rows ≡ ok tt)
        ⊎ (assert_existing hmac m keys prepared rows ≡ err conflict_error)
  unfolding assert_existing
  assert_existing-cases [] rows = inl refl
  assert_existing-cases ((key, p) ∷ prepared) rows =
      elim (Bool-cases (row_matches hmac m keys p (find_event m.tenant_id key rows))) [
        | inl e ↦ rw e (assert_existing-cases prepared rows)
        | inr e ↦ inr (rw e refl)
      ]

  assert_raced-cases :
      (prepared : Prepared) (seen rows : List InboxEvent)
      → (assert_raced hmac m keys prepared seen rows ≡ ok tt)
        ⊎ (assert_raced hmac m keys prepared seen rows ≡ err conflict_error)
  unfolding assert_raced
  assert_raced-cases [] seen rows = inl refl
  assert_raced-cases ((key, p) ∷ prepared) seen rows =
      elim (Bool-cases (
        is_none (find_event m.tenant_id key seen)
        && not (row_matches hmac m keys p (find_event m.tenant_id key rows)))) [
          | inl e ↦ inr (rw e refl)
          | inr e ↦ rw e (assert_raced-cases prepared seen rows)
        ]

  -- Nothing is inserted where every id has its row.
  insert_rows-matched :
      (bytes_of : Json → ℕ) (now : ℕ) (prepared : Prepared) (rows : List InboxEvent)
      → IsDict prepared
      → All (IsMatched hmac m keys rows) prepared
      → insert_rows m bytes_of now prepared rows ≡ (rows, 0)
  unfolding insert_rows
  insert_rows-matched bytes_of now [] rows d h = refl
  insert_rows-matched bytes_of now ((key, p) ∷ prepared) rows d h =
      let there : find_event m.tenant_id p.event.event_id rows ≡ some h.0.row =
        ap (λ k. find_event m.tenant_id k rows) d.0 ∙ h.0.there in
      rw there (insert_rows-matched bytes_of now prepared rows d.2 h.1)

  module _ (fingerprint : ApmEvent → Option String) (dumps : Json → String)
      (sha256 : String → String) (bytes_of : Json → ℕ) where
    insert_prepared-matched :
        (received now : ℕ) (prepared : Prepared) (seen rows : List InboxEvent)
        → IsDict prepared
        → All (IsMatched hmac m keys seen) prepared
        → All (IsMatched hmac m keys rows) prepared
        → insert_prepared hmac fingerprint dumps sha256 bytes_of m keys received now seen prepared
            rows
          ≡ ok (record { received = received; inserted = 0; duplicates = received }, rows)
    unfolding insert_prepared
    insert_prepared-matched received now prepared seen rows d h h' =
        rw
          (
            insert_rows-matched bytes_of now prepared rows d h',
            All-assert_existing hmac m keys prepared seen
                (All-map (IsMatched hmac m keys seen) (IsMatched-Checked seen) prepared h),
            All-assert_raced hmac m keys prepared seen rows
                (All-map (IsMatched hmac m keys seen) (IsMatched-CheckedRace seen rows) prepared h),
          )
          (ap (λ n. ok (record { received = received; inserted = 0; duplicates = n }, rows))
            (omega arith))

    insert_batch_prepared :
        (events : List ApmEvent) (now : ℕ) (seen rows : List InboxEvent) (prepared : Prepared)
        → prepare_unique_events hmac fingerprint dumps sha256 m events keys ≡ ok prepared
        → insert_batch hmac fingerprint dumps sha256 bytes_of m events keys now seen rows
          ≡ insert_prepared hmac fingerprint dumps sha256 bytes_of m keys
              (length events)
              now
              seen
              prepared
              rows
    unfolding insert_batch
    insert_batch_prepared events now seen rows prepared h = rw h refl

    -- A batch whose events all have matching rows in the table of the read and in that of the INSERT is
    -- taken with every event a duplicate.
    pub insert_batch-matched :
        (events : List ApmEvent) (now : ℕ) (seen rows : List InboxEvent) (prepared : Prepared)
        → prepare_unique_events hmac fingerprint dumps sha256 m events keys ≡ ok prepared
        → IsDict prepared
        → All (IsMatched hmac m keys seen) prepared
        → All (IsMatched hmac m keys rows) prepared
        → insert_batch hmac fingerprint dumps sha256 bytes_of m events keys now seen rows
          ≡ ok (record { received = length events; inserted = 0; duplicates = length events }, rows)
    insert_batch-matched events now seen rows prepared made d h h' =
        insert_batch_prepared events now seen rows prepared made
        ∙ insert_prepared-matched (length events) now prepared seen rows d h h'

    insert_prepared-cases :
        (received now : ℕ) (seen : List InboxEvent) (prepared : Prepared) (rows : List InboxEvent)
        → ((done : InsertResult × List InboxEvent) × (insert_prepared hmac fingerprint dumps sha256
                bytes_of m keys received now seen prepared rows
              ≡ ok done))
          ⊎ (insert_prepared hmac fingerprint dumps sha256 bytes_of m keys received now seen
                prepared rows
              ≡ err conflict_error)
    unfolding insert_prepared
    insert_prepared-cases received now seen prepared rows =
        elim (assert_existing-cases prepared seen) [
          | inl e ↦ elim (assert_raced-cases prepared seen rows) [
            | inl e' ↦
                let inserted = insert_rows m bytes_of now prepared rows in
                inl (
                  (
                    record {
                      received = received;
                      inserted = inserted.1;
                      duplicates = received - inserted.1;
                    },
                    inserted.0,
                  ),
                  rw (e, e') refl,
                )
            | inr e' ↦ inr (rw (e, e') refl)
          ]
          | inr e ↦ inr (rw e refl)
        ]

    -- What is taken matches the rows that were there.
    IsTaken-matches :
        (events : List ApmEvent) (now : ℕ) (seen rows rows' : List InboxEvent) (r : InsertResult)
        (id : String) (p : PreparedEvent) (row : InboxEvent)
        → Agrees m.tenant_id seen rows
        → (t : IsTaken hmac m keys fingerprint dumps sha256 bytes_of now events seen rows rows' r)
        → find_prepared id t.prepared ≡ some p
        → find_event m.tenant_id id rows ≡ some row
        → existing_matches hmac m keys p row.identity ≡ true
    IsTaken-matches events now seen rows rows' r id p row same t entry there =
        let matched =
          All-find_prepared (IsMatched hmac m keys rows') id p t.prepared
            (IsTaken-IsMatched hmac m keys fingerprint dumps sha256 bytes_of now events seen rows
              rows' r same t)
            entry in
        let there' : find_event m.tenant_id id rows' ≡ some row =
          subst (λ rows'. find_event m.tenant_id id rows' ≡ some row) t.inserted.table
            (insert_rows-find m bytes_of now t.prepared rows m.tenant_id id row there) in
        let one : matched.row ≡ row = cc (sym matched.there ∙ there') in
        subst (λ row. existing_matches hmac m keys p row.identity ≡ true) one matched.matches

    -- Where the whole batch can be prepared, and the rows that were read have kept their identities
    -- until the INSERT, a batch with an event whose id already has a row is refused as a conflict unless
    -- that row is a replay of it: the same digest, app, environment, release and qualities, and an
    -- installation that is absent from both or whose digest under the stored key version is the stored
    -- one. This holds whether the row was seen at the read or won the race after it.
    pub insert_batch-conflict :
        (events : List ApmEvent) (now : ℕ) (seen rows : List InboxEvent) (prepared : Prepared)
        (id : String) (p : PreparedEvent) (row : InboxEvent)
        → Agrees m.tenant_id seen rows
        → prepare_unique_events hmac fingerprint dumps sha256 m events keys ≡ ok prepared
        → find_prepared id prepared ≡ some p
        → find_event m.tenant_id id rows ≡ some row
        → ¬ IsReplay hmac m keys p row.identity
        → insert_batch hmac fingerprint dumps sha256 bytes_of m events keys now seen rows
          ≡ err conflict_error
    insert_batch-conflict events now seen rows prepared id p row same made entry there differs =
        let run = insert_batch_prepared events now seen rows prepared made in
        elim (insert_prepared-cases (length events) now seen prepared rows) [
          | inl (done, e) ↦
              let t =
                insert_batch-IsTaken hmac m keys fingerprint dumps sha256 bytes_of now events seen
                  rows done.1 done.0 (run ∙ e) in
              let again : t.prepared ≡ prepared = cc (sym t.made ∙ made) in
              let matches =
                IsTaken-matches events now seen rows done.1 done.0 id p row same t
                  (ap (λ d. find_prepared id d) again ∙ entry) there in
              absurd (differs (existing_matches-IsReplay hmac m keys p row.identity matches))
          | inr e ↦ run ∙ e
        ]
