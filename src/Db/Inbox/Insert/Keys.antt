-- ===== src/Db/Inbox/Insert/Keys.antt =====
-- The keys of the inbox rows, and the look-up by identity, in `insert_batch` of db/inbox.py.
use android_apm_server.Prelude.{
  ℕ, ◌<◌, ◌≡◌, refl, sym, ap, ◌∙◌, inl, inr, String, some, List, [], ◌∷◌, ◌++◌, arith, All,
  All-append, All-map, Option-cases, Bool-cases, str_eq, ◌&&◌, subst,
}
use android_apm_server.Json.{Json}
use android_apm_server.Domain.{IngestMetadata}
use android_apm_server.Db.Models.{InboxEvent}
use android_apm_server.Db.Table.{Ascending, Pointwise}
use android_apm_server.Db.Inbox.Prepare.{PreparedEvent}
use android_apm_server.Db.Inbox.Batch.{Prepared}
use android_apm_server.Db.Inbox.Insert.{has_key, find_event, to_row, next_row_id, insert_rows}

abbrev row_key : InboxEvent → ℕ
row_key row = row.id

below_next : (rows : List InboxEvent) → All (λ row. row.id < next_row_id rows) rows
below_next [] = tt
below_next (row ∷ rows) = (
  omega arith,
  All-map (λ r. r.id < next_row_id rows) (λ r h. omega (arith, h)) rows (below_next rows),
)

Ascending-append :
    (rows : List InboxEvent) (new : InboxEvent)
    → All (λ row. row.id < new.id) rows
    → Ascending row_key rows
    → Ascending row_key (rows ++ new ∷ [])
Ascending-append [] new h a = (tt, tt)
Ascending-append (row ∷ rows) new h a = (
  All-append (λ r. row.id < r.id) rows (new ∷ []) a.0 (h.0, tt),
  Ascending-append rows new h.1 a.1,
)

to_row-id :
    (m : IngestMetadata) (p : PreparedEvent) (bytes_of : Json → ℕ) (now id : ℕ)
    → (to_row m p bytes_of now id).id ≡ id
unfolding to_row
to_row-id m p bytes_of now id = refl

pub insert_rows-Ascending :
    (m : IngestMetadata) (bytes_of : Json → ℕ) (now : ℕ) (prepared : Prepared)
    (rows : List InboxEvent)
    → Ascending row_key rows
    → Ascending row_key (insert_rows m bytes_of now prepared rows).0
unfolding insert_rows
insert_rows-Ascending m bytes_of now [] rows h = h
insert_rows-Ascending m bytes_of now ((key, p) ∷ prepared) rows h =
    let new = to_row m p bytes_of now (next_row_id rows) in
    elim (Option-cases (find_event m.tenant_id p.event.event_id rows)) [
      | inl e ↦ rw e (
          insert_rows-Ascending m bytes_of now prepared (rows ++ new ∷ []) (
            Ascending-append rows new
              (subst (λ id. All (λ row. row.id < id) rows)
                (sym (to_row-id m p bytes_of now (next_row_id rows))) (below_next rows))
              h))
      | inr (row, e) ↦ rw e (insert_rows-Ascending m bytes_of now prepared rows h)
    ]

-- Every event that had a row still has one, with the same identity.
abbrev pub Persists : List InboxEvent → List InboxEvent → Type 0
Persists rows rows' =
    (t k : String) (row : InboxEvent)
    → find_event t k rows ≡ some row
    → (row' : InboxEvent) × (find_event t k rows' ≡ some row') × (row'.identity ≡ row.identity)

pub Persists-trans : (a b c : List InboxEvent) → Persists a b → Persists b c → Persists a c
Persists-trans a b c p q t k row h =
    let (row', there, same) = p t k row h in
    let (row'', there', same') = q t k row' there in (row'', there', same' ∙ same)

pub Pointwise-Persists :
    (rows rows' : List InboxEvent)
    → Pointwise (λ x y. y.identity ≡ x.identity) rows rows'
    → Persists rows rows'
unfolding find_event
Pointwise-Persists [] [] p t k row h = absurd (cc)
Pointwise-Persists [] (y ∷ ys) p t k row h = elim p [ ]
Pointwise-Persists (x ∷ xs) [] p t k row h = elim p [ ]
Pointwise-Persists (x ∷ xs) (y ∷ ys) p t k row h =
    let keys : has_key t k y ≡ has_key t k x =
      ap (λ i. str_eq i.tenant_id t && str_eq i.event_id k) p.0 in
    elim (Bool-cases (has_key t k x)) [
      | inl e ↦
          let same : x ≡ row = ground (arith, e, h) in
          (y, ground (arith, keys, e), p.0 ∙ ap (λ r. r.identity) same)
      | inr e ↦
          let (row', there, kept) = Pointwise-Persists xs ys p.1 t k row (ground (arith, e, h)) in
          (row', ground (arith, keys, e, there), kept)
    ]
