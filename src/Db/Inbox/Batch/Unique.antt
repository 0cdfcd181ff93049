-- ===== src/Db/Inbox/Batch/Unique.antt =====
-- The dict that `_prepare_unique_events` of db/inbox.py returns.
use Prim.Native.String.{len}
use android_apm_server.Prelude.{
  ℕ, suc, ◌+◌, ◌≤◌, ◌≡◌, refl, ap, ◌∙◌, String, false, Option, some, List, [], ◌∷◌, length, arith,
  str_eq, eq_iff, All, ltb, Bool-cases, inl, inr, subst,
}
use android_apm_server.Errors.{ok, ◌>>◌, refuse_if, found_ok, passes, failure_at}
use android_apm_server.Json.{Json}
use android_apm_server.Domain.{ApmEvent, IngestMetadata}
use android_apm_server.Identity.{InstallationHmacKeyRing}
use android_apm_server.Db.Inbox.Prepare.{PreparedEvent, prepare_event}
use android_apm_server.Db.Inbox.Batch.{
  max_event_json_bytes, Prepared, find_prepared, put_prepared, hashed, prepare_from,
  prepare_unique_events, conflicts,
}
use android_apm_server.Db.Inbox.Insert.Rows.{IsDict}
use android_apm_server.Db.Inbox.Batch.Dict.{
  put_prepared-All, put_prepared-IsDict, put_prepared-length, put_prepared-find,
  put_prepared-find_other, conflict_signature, same_signature-same,
}
use android_apm_server.Db.Inbox.Batch.Answers.{IsPrepared, prepare_event-ok, hashed-IsPrepared}

module _ (hmac : List ℕ → List ℕ → String) (fingerprint : ApmEvent → Option String)
    (dumps : Json → String) (sha256 : String → String) (m : IngestMetadata)
    (keys : Option InstallationHmacKeyRing) where
  -- One entry for each id, each answering to its row, and no more than `count`.
  pub record IsUnique (count : ℕ) (prepared : Prepared) : Type 0 where
    pub dict : IsDict prepared
    pub entries : All (λ e. IsPrepared hmac fingerprint dumps sha256 m keys e.1) prepared
    pub few : length prepared ≤ count

  -- An entry has the same signature as this event.
  pub record Entry (p : PreparedEvent) (id : String) (prepared : Prepared) : Type 0 where
    pub item : PreparedEvent
    pub found : find_prepared id prepared ≡ some item
    pub signed : conflict_signature p ≡ conflict_signature item

  -- The event is prepared, and its id has an entry with the same signature.
  pub record Entered (prepared : Prepared) (e : ApmEvent) : Type 0 where
    pub own : PreparedEvent
    pub made : prepare_event hmac fingerprint m e keys ≡ ok own
    pub entry : Entry (hashed dumps sha256 own) e.event_id prepared

  -- The entries that there were keep their signatures, and every event has one.
  pub record Covers (events : List ApmEvent) (prepared prepared' : Prepared) : Type 0 where
    pub old :
        (k : String) (p : PreparedEvent) → find_prepared k prepared ≡ some p → Entry p k prepared'
    pub new : All (Entered prepared') events

  -- What does not conflict with the entry of its id leaves every signature in place.
  put_prepared-Entry :
      (id k : String) (p old : PreparedEvent) (prepared : Prepared)
      → conflicts (find_prepared id prepared) p ≡ false
      → find_prepared k prepared ≡ some old
      → Entry old k (put_prepared id p prepared)
  put_prepared-Entry id k p old prepared calm there = elim (Bool-cases (str_eq id k)) [
    | inl e ↦
        let same = (eq_iff id k).0 e in
        let there1 = ap (λ i. find_prepared i prepared) same ∙ there in
        let calm1 : conflicts (some old) p ≡ false =
          subst (λ o. conflicts o p ≡ false) there1 calm in
        record {
          item = p;
          found =
              subst (λ i. find_prepared i (put_prepared id p prepared) ≡ some p) same
                (put_prepared-find id p prepared);
          signed = same_signature-same old p (ground (arith, calm1));
        }
    | inr e ↦ record {
      item = old;
      found = put_prepared-find_other id k p prepared e ∙ there;
      signed = refl;
    }
  ]

  hashed-event : (p : PreparedEvent) → (hashed dumps sha256 p).event ≡ p.event
  unfolding hashed
  hashed-event p = refl

  put_prepared-IsUnique :
      (count : ℕ) (id : String) (p : PreparedEvent) (prepared : Prepared)
      → p.event.event_id ≡ id
      → IsPrepared hmac fingerprint dumps sha256 m keys p
      → IsUnique count prepared
      → IsUnique (suc count) (put_prepared id p prepared)
  put_prepared-IsUnique count id p prepared keyed answers u = record {
    dict = put_prepared-IsDict id p prepared keyed u.dict;
    entries =
        put_prepared-All (λ e. IsPrepared hmac fingerprint dumps sha256 m keys e.1) id p prepared
          answers u.entries;
    few = omega (arith, u.few, put_prepared-length id p prepared);
  }

  Entry-trans :
      (p : PreparedEvent) (k : String) (prepared prepared' : Prepared)
      → ((q : PreparedEvent) → find_prepared k prepared ≡ some q → Entry q k prepared')
      → Entry p k prepared
      → Entry p k prepared'
  Entry-trans p k prepared prepared' next e =
      let e' = next e.item e.found in
      record { item = e'.item; found = e'.found; signed = e.signed ∙ e'.signed }

  Covers-put :
      (e : ApmEvent) (events : List ApmEvent) (own : PreparedEvent) (prepared prepared' : Prepared)
      → prepare_event hmac fingerprint m e keys ≡ ok own
      → conflicts (find_prepared e.event_id prepared) (hashed dumps sha256 own) ≡ false
      → Covers events (put_prepared e.event_id (hashed dumps sha256 own) prepared) prepared'
      → Covers (e ∷ events) prepared prepared'
  Covers-put e events own prepared prepared' made calm c =
      let p = hashed dumps sha256 own in
      let before = put_prepared e.event_id p prepared in
      record {
        old = λ k q there.
            Entry-trans q k before prepared' (c.old k)
              (put_prepared-Entry e.event_id k p q prepared calm there);
        new = (
          record {
            own = own;
            made = made;
            entry = c.old e.event_id p (put_prepared-find e.event_id p prepared);
          },
          c.new,
        );
      }

  -- One event of the loop.
  record Step (index : ℕ) (e : ApmEvent) (events : List ApmEvent) (prepared prepared' : Prepared)
      : Type 0 where
    own : PreparedEvent
    made : prepare_event hmac fingerprint m e keys ≡ ok own
    small : ltb max_event_json_bytes (len (dumps own.payload)) ≡ false
    calm : conflicts (find_prepared e.event_id prepared) (hashed dumps sha256 own) ≡ false
    rest :
        prepare_from hmac fingerprint dumps sha256 m keys
          (suc index)
          events
          (put_prepared e.event_id (hashed dumps sha256 own) prepared)
        ≡ ok prepared'

  prepare_from-Step :
      (index : ℕ) (e : ApmEvent) (events : List ApmEvent) (prepared prepared' : Prepared)
      → prepare_from hmac fingerprint dumps sha256 m keys index (e ∷ events) prepared ≡ ok prepared'
      → Step index e events prepared prepared'
  unfolding prepare_from
  prepare_from-Step index e events prepared prepared' h =
      let (item, (made, rest)) = found_ok (prepare_event hmac fingerprint m e keys) _ prepared' h in
      let p = hashed dumps sha256 item in
      let next =
        prepare_from hmac fingerprint dumps sha256 m keys (suc index) events
          (put_prepared e.event_id p prepared) in
      let conflict = conflicts (find_prepared e.event_id prepared) p in
      let refused = failure_at 409 "event_id_conflict" index in
      let (small, rest1) =
        passes (ltb max_event_json_bytes (len (dumps item.payload)))
          (failure_at 413 "payload_too_large" index) (refuse_if conflict refused >> next) prepared'
          rest in
      let (calm, rest2) = passes conflict refused next prepared' rest1 in
      record { own = item; made = made; small = small; calm = calm; rest = rest2 }

  prepare_from-IsUnique :
      (index : ℕ) (events : List ApmEvent) (prepared prepared' : Prepared)
      → prepare_from hmac fingerprint dumps sha256 m keys index events prepared ≡ ok prepared'
      → IsUnique index prepared
      → IsUnique (index + length events) prepared' × Covers events prepared prepared'
  unfolding prepare_from
  prepare_from-IsUnique index [] prepared prepared' h u =
      let same : prepared ≡ prepared' = cc h in
      subst (λ p. IsUnique (index + 0) p × Covers [] prepared p) same
        (
          record { dict = u.dict; entries = u.entries; few = omega (arith, u.few) },
          record { old = λ k p there. record { item = p; found = there; signed = refl }; new = tt },
        )
  prepare_from-IsUnique index (e ∷ events) prepared prepared' h u =
      let s = prepare_from-Step index e events prepared prepared' h in
      let (keyed, answers) = prepare_event-ok hmac fingerprint dumps sha256 m keys e s.own s.made in
      let p = hashed dumps sha256 s.own in
      let keyed1 = ap (λ event. event.event_id) (hashed-event s.own) ∙ keyed in
      let (u1, c1) =
        prepare_from-IsUnique (suc index) events (put_prepared e.event_id p prepared) prepared'
          s.rest
          (put_prepared-IsUnique index e.event_id p prepared keyed1
            (hashed-IsPrepared hmac fingerprint dumps sha256 m keys s.own answers s.small) u) in
      (
        record { dict = u1.dict; entries = u1.entries; few = omega (arith, u1.few) },
        Covers-put e events s.own prepared prepared' s.made s.calm c1,
      )

  -- What a batch is prepared to.
  pub prepare_unique_events-IsUnique :
      (events : List ApmEvent) (prepared : Prepared)
      → prepare_unique_events hmac fingerprint dumps sha256 m events keys ≡ ok prepared
      → IsUnique (length events) prepared × All (Entered prepared) events
  unfolding prepare_unique_events
  prepare_unique_events-IsUnique events prepared h =
      let (u, c) =
        prepare_from-IsUnique 0 events [] prepared h
          (record { dict = tt; entries = tt; few = omega arith }) in
      (record { dict = u.dict; entries = u.entries; few = omega (arith, u.few) }, c.new)
