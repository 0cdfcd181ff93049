-- ===== src/Db/Inbox/Insert/Rows.antt =====
-- The table after the INSERT of `insert_batch` of db/inbox.py.
use mathlib.Core.List.{append_assoc, append-nil}
use android_apm_server.Prelude.{
  ℕ, suc, ◌≤◌, ◌≡◌, refl, sym, ap, ◌∙◌, ◌⊎◌, inl, inr, String, false, none, some, List, [], ◌∷◌,
  ◌++◌, length, arith, str_eq, eq_iff, eq_refl, All, Option-cases, subst,
}
use android_apm_server.Json.{Json}
use android_apm_server.Domain.{IngestMetadata}
use android_apm_server.Db.Models.{InboxStatus, InboxEvent}
use android_apm_server.Db.Inbox.Prepare.{PreparedEvent}
use android_apm_server.Db.Inbox.Batch.{Prepared}
use android_apm_server.Db.Inbox.Insert.{find_event, to_identity, to_row, next_row_id, insert_rows}

-- A dict whose keys are the ids of its events.
abbrev pub IsDict : Prepared → Type 0
IsDict [] = Unit
IsDict (e ∷ prepared) =
    (e.1.event.event_id ≡ e.0)
    × All (λ other. str_eq other.0 e.0 ≡ false) prepared
    × IsDict prepared

pub find_event-append_some :
    (t k : String) (xs ys : List InboxEvent) (row : InboxEvent)
    → find_event t k xs ≡ some row
    → find_event t k (xs ++ ys) ≡ some row
unfolding find_event
find_event-append_some t k [] ys row h = absurd (cc)
find_event-append_some t k (x ∷ xs) ys row h =
    ground (arith, h, find_event-append_some t k xs ys row)

pub find_event-append_none :
    (t k : String) (xs ys : List InboxEvent)
    → find_event t k xs ≡ none
    → find_event t k (xs ++ ys) ≡ find_event t k ys
unfolding find_event
find_event-append_none t k [] ys h = refl
find_event-append_none t k (x ∷ xs) ys h = ground (arith, h, find_event-append_none t k xs ys)

module _ (m : IngestMetadata) (bytes_of : Json → ℕ) (now : ℕ) where
  -- The row is the one that was there, or there was none and it is the event's.
  pub record Kept (rows rows' : List InboxEvent) (e : String × PreparedEvent) : Type 0 where
    pub row : InboxEvent
    pub there : find_event m.tenant_id e.0 rows' ≡ some row
    pub old_or_new :
        (find_event m.tenant_id e.0 rows ≡ some row)
        ⊎ ((find_event m.tenant_id e.0 rows ≡ none) × (row.identity ≡ to_identity m e.1))

  -- A row that nobody has tried to deliver.
  pub record IsFresh (row : InboxEvent) : Type 0 where
    pub scope : row.identity.tenant_id ≡ m.tenant_id
    pub pending : row.delivery.status ≡ InboxStatus.pending
    pub untried : row.delivery.attempt_count ≡ 0
    pub unclaimed : row.delivery.lease_owner ≡ none

  to_row-IsFresh : (p : PreparedEvent) (id : ℕ) → IsFresh (to_row m p bytes_of now id)
  unfolding to_row to_identity
  to_row-IsFresh p id = record { scope = refl; pending = refl; untried = refl; unclaimed = refl }

  pub insert_rows-append :
      (prepared : Prepared) (rows : List InboxEvent)
      → (added : List InboxEvent) × ((insert_rows m bytes_of now prepared rows).0 ≡ rows ++ added)
        × (length added ≡ (insert_rows m bytes_of now prepared rows).1)
        × All IsFresh added
  unfolding insert_rows
  insert_rows-append [] rows = ([], sym (append-nil rows), refl, tt)
  insert_rows-append ((key, p) ∷ prepared) rows =
      elim (Option-cases (find_event m.tenant_id p.event.event_id rows)) [
        | inl e ↦
            let new = to_row m p bytes_of now (next_row_id rows) in
            let (added, same, count, fresh) = insert_rows-append prepared (rows ++ new ∷ []) in
            (
              new ∷ added,
              rw e (same ∙ append_assoc rows (new ∷ []) added),
              rw e (ap (λ n. suc n) count),
              (to_row-IsFresh p (next_row_id rows), fresh),
            )
        | inr (row, e) ↦
            let (added, same, count, fresh) = insert_rows-append prepared rows in
            (added, rw e same, rw e count, fresh)
      ]

  pub insert_rows_le :
      (prepared : Prepared) (rows : List InboxEvent)
      → (insert_rows m bytes_of now prepared rows).1 ≤ length prepared
  unfolding insert_rows
  insert_rows_le [] rows = omega arith
  insert_rows_le ((key, p) ∷ prepared) rows =
      let new = to_row m p bytes_of now (next_row_id rows) in
      ground (arith, insert_rows_le prepared rows, insert_rows_le prepared (rows ++ new ∷ []))

  pub insert_rows-find :
      (prepared : Prepared) (rows : List InboxEvent) (t k : String) (row : InboxEvent)
      → find_event t k rows ≡ some row
      → find_event t k (insert_rows m bytes_of now prepared rows).0 ≡ some row
  insert_rows-find prepared rows t k row h =
      let (added, same, count, fresh) = insert_rows-append prepared rows in
      rw same (find_event-append_some t k rows added row h)

  new_row-find :
      (p : PreparedEvent) (id : ℕ) (key : String)
      → p.event.event_id ≡ key
      → find_event m.tenant_id key (to_row m p bytes_of now id ∷ [])
        ≡ some (to_row m p bytes_of now id)
  unfolding find_event to_row
  new_row-find p id key e = ground (arith, e, eq_iff p.event.event_id key, eq_refl m.tenant_id)

  other_row-find :
      (p : PreparedEvent) (id : ℕ) (key other : String)
      → p.event.event_id ≡ key
      → str_eq other key ≡ false
      → find_event m.tenant_id other (to_row m p bytes_of now id ∷ []) ≡ none
  unfolding find_event to_row
  other_row-find p id key other e apart =
      ground (arith, e, apart, eq_iff p.event.event_id other, eq_iff other key)

  -- A row for another id changes nothing for this one.
  Kept-behind :
      (p : PreparedEvent) (id : ℕ) (key : String) (rows rows' : List InboxEvent)
      (e : String × PreparedEvent)
      → p.event.event_id ≡ key
      → str_eq e.0 key ≡ false
      → Kept (rows ++ to_row m p bytes_of now id ∷ []) rows' e
      → Kept rows rows' e
  Kept-behind p id key rows rows' e same apart k = record {
    row = k.row;
    there = k.there;
    old_or_new = elim (Option-cases (find_event m.tenant_id e.0 rows)) [
      | inl missing ↦
          let before =
            find_event-append_none m.tenant_id e.0 rows (to_row m p bytes_of now id ∷ []) missing
            ∙ other_row-find p id key e.0 same apart in
          elim k.old_or_new [
            | inl old ↦ absurd (ground (arith, old, before))
            | inr (absent, new) ↦ inr (missing, new)
          ]
      | inr (row, found) ↦
          let before =
            find_event-append_some m.tenant_id e.0 rows (to_row m p bytes_of now id ∷ []) row
              found in
          elim k.old_or_new [
            | inl old ↦ inl (cc (found, before, old))
            | inr (absent, new) ↦ absurd (ground (arith, absent, before))
          ]
    ];
  }

  All-Kept-behind :
      (p : PreparedEvent) (id : ℕ) (key : String) (rows rows' : List InboxEvent)
      (prepared : Prepared)
      → p.event.event_id ≡ key
      → All (λ e. str_eq e.0 key ≡ false) prepared
      → All (Kept (rows ++ to_row m p bytes_of now id ∷ []) rows') prepared
      → All (Kept rows rows') prepared
  All-Kept-behind p id key rows rows' [] same apart k = tt
  All-Kept-behind p id key rows rows' (e ∷ prepared) same apart k = (
    Kept-behind p id key rows rows' e same apart.0 k.0,
    All-Kept-behind p id key rows rows' prepared same apart.1 k.1,
  )

  insert_rows_new :
      (key : String) (p : PreparedEvent) (prepared : Prepared) (rows : List InboxEvent)
      → find_event m.tenant_id p.event.event_id rows ≡ none
      → (insert_rows m bytes_of now prepared
          (rows ++ to_row m p bytes_of now (next_row_id rows) ∷ [])).0
        ≡ (insert_rows m bytes_of now ((key, p) ∷ prepared) rows).0
  unfolding insert_rows
  insert_rows_new key p prepared rows e = rw e

  insert_rows_old :
      (key : String) (p : PreparedEvent) (prepared : Prepared) (rows : List InboxEvent)
      (row : InboxEvent)
      → find_event m.tenant_id p.event.event_id rows ≡ some row
      → (insert_rows m bytes_of now prepared rows).0
        ≡ (insert_rows m bytes_of now ((key, p) ∷ prepared) rows).0
  unfolding insert_rows
  insert_rows_old key p prepared rows row e = rw e

  to_row-identity :
      (p : PreparedEvent) (id : ℕ) → (to_row m p bytes_of now id).identity ≡ to_identity m p
  unfolding to_row
  to_row-identity p id = refl

  -- After the INSERT every event has a row: the one that was there, or its own.
  pub insert_rows-Kept :
      (prepared : Prepared) (rows : List InboxEvent)
      → IsDict prepared
      → All (Kept rows (insert_rows m bytes_of now prepared rows).0) prepared
  insert_rows-Kept [] rows d = tt
  insert_rows-Kept ((key, p) ∷ prepared) rows (keyed, apart, d) =
      elim (Option-cases (find_event m.tenant_id p.event.event_id rows)) [
        | inl e ↦
            let id = next_row_id rows in
            let new = to_row m p bytes_of now id in
            let rows1 = rows ++ new ∷ [] in
            let missing : find_event m.tenant_id key rows ≡ none =
              subst (λ k. find_event m.tenant_id k rows ≡ none) keyed e in
            subst (λ r. All (Kept rows r) ((key, p) ∷ prepared))
              (insert_rows_new key p prepared rows e)
              (
                record {
                  row = new;
                  there = insert_rows-find prepared rows1 m.tenant_id key new (
                      find_event-append_none m.tenant_id key rows (new ∷ []) missing
                      ∙ new_row-find p id key keyed);
                  old_or_new = inr (missing, to_row-identity p id);
                },
                All-Kept-behind p id key rows (insert_rows m bytes_of now prepared rows1).0 prepared
                    keyed apart (insert_rows-Kept prepared rows1 d),
              )
        | inr (row, e) ↦
            let found : find_event m.tenant_id key rows ≡ some row =
              subst (λ k. find_event m.tenant_id k rows ≡ some row) keyed e in
            subst (λ r. All (Kept rows r) ((key, p) ∷ prepared))
              (insert_rows_old key p prepared rows row e)
              (
                record {
                  row = row;
                  there = insert_rows-find prepared rows m.tenant_id key row found;
                  old_or_new = inl found;
                },
                insert_rows-Kept prepared rows d,
              )
      ]
