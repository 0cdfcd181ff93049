-- ===== src/Db/Worker/Counting.antt =====
-- The rowcounts of db/worker.py.
use android_apm_server.Prelude.{
  ℕ, suc, ◌<◌, ◌≡◌, refl, ◌∙◌, sym, ap, inl, inr, Bool, true, false, String, some, List, [], ◌∷◌,
  map, arith, length, take, select, contains, All, Bool-cases, eq_refl,
}
use android_apm_server.Db.Models.{InboxStatus, Delivery, InboxEvent}
use android_apm_server.Db.Table.{Pointwise, Ascending, update_where, count_where}
use android_apm_server.Db.Table.Rows.{
  update_where_none, Pointwise-update_where_of, All-update_where_of, count_where-Pointwise,
  count_where-update_where,
}
use android_apm_server.Db.Table.Claims.{update_chosen, count_chosen}
use android_apm_server.Db.Custody.{held, custody}
use android_apm_server.Db.Worker.{
  holds_lease, leased, lease, completes, delivered, complete, mark_delivered,
}

nothing_named :
    (owner : String) (observed : ℕ) (rows : List InboxEvent)
    → All (λ row. completes owner [] observed row ≡ false) rows
unfolding completes
nothing_named owner observed [] = tt
nothing_named owner observed (row ∷ rows) = (refl, nothing_named owner observed rows)

-- `mark_delivered` is one UPDATE, also where it is skipped for an empty list.
pub mark_delivered-update :
    (owner : String) (ids : List ℕ) (observed : ℕ) (rows : List InboxEvent)
    → ((mark_delivered owner ids observed rows).0
        ≡ update_where (completes owner ids observed) (complete observed) rows)
      × ((mark_delivered owner ids observed rows).1
          ≡ count_where (completes owner ids observed) rows)
unfolding mark_delivered
mark_delivered-update owner [] observed rows =
    let skipped =
      update_where_none (completes owner [] observed) (complete observed) rows
        (nothing_named owner observed rows) in
    (sym skipped.0, sym skipped.1)
mark_delivered-update owner (i ∷ ids) observed rows = (refl, refl)

pub IsHeld-holds :
    (owner : String) (u observed : ℕ) (d : Delivery)
    → observed < u
    → custody d ≡ held (some owner) (some u)
    → holds_lease owner observed d ≡ true
unfolding holds_lease custody
IsHeld-holds owner u observed d l h = ground (arith, eq_refl owner)

pub claimed_ids :
    (owner : String) (expiry : ℕ) (chosen : List InboxEvent)
    → map (λ row. row.id) (map (lease owner expiry) chosen) ≡ map (λ row. row.id) chosen
unfolding lease
claimed_ids owner expiry [] = refl
claimed_ids owner expiry (row ∷ chosen) = ap (◌∷◌ row.id) (claimed_ids owner expiry chosen)

pub claimed_length :
    (owner : String) (expiry : ℕ) (chosen : List InboxEvent)
    → length (map (lease owner expiry) chosen) ≡ length chosen
claimed_length owner expiry [] = refl
claimed_length owner expiry (row ∷ chosen) = ap suc (claimed_length owner expiry chosen)

-- The rows that a claim named are its claimant's until the lease ends.
pub claimed-held :
    (owner : String) (expiry : ℕ) (chosen rows : List InboxEvent)
    → All
        (λ row.
          contains (map (λ r. r.id) chosen) row.id ≡ true
          → custody row.delivery ≡ held (some owner) (some expiry))
        (update_chosen (λ r. r.id) chosen (lease owner expiry) rows)
unfolding update_chosen lease leased custody
claimed-held owner expiry chosen rows =
    All-update_where_of _ (λ row. contains (map (λ r. r.id) chosen) row.id) (lease owner expiry)
      rows (λ row e h. refl) (λ row e h. absurd (cc))

pub claimed-count :
    (owner : String) (expiry n : ℕ) (test : InboxEvent → Bool) (rows : List InboxEvent)
    → Ascending (λ r. r.id) rows
    → let chosen = take n (select test rows) in
      count_where
        (λ row. contains (map (λ r. r.id) chosen) row.id)
        (update_chosen (λ r. r.id) chosen (lease owner expiry) rows)
      ≡ length chosen
unfolding update_chosen lease
claimed-count owner expiry n test rows h =
    let ids = map (λ (r : InboxEvent). r.id) (take n (select test rows)) in
    count_where-update_where (λ row. contains ids row.id) (λ row. contains ids row.id)
      (lease owner expiry) rows (λ row. refl)
    ∙ count_chosen (λ r. r.id) n test rows h

-- Where every named row is still held, the completion counts the named rows.
pub completed-count :
    (owner : String) (u observed : ℕ) (ids : List ℕ) (R : InboxEvent → InboxEvent → Type 0)
    (xs ys : List InboxEvent)
    → observed < u
    → ((x y : InboxEvent) → R x y → y.id ≡ x.id)
    → ((x y : InboxEvent)
        → R x y
        → custody x.delivery ≡ held (some owner) (some u)
        → custody y.delivery ≡ held (some owner) (some u))
    → All (λ row. contains ids row.id ≡ true → custody row.delivery ≡ held (some owner) (some u)) xs
    → Pointwise R xs ys
    → count_where (completes owner ids observed) ys ≡ count_where (λ row. contains ids row.id) xs
unfolding completes
completed-count owner u observed ids R xs ys l same kept h p = sym (
    count_where-Pointwise _ R (λ row. contains ids row.id) (completes owner ids observed) xs ys
      (λ x y hx r. elim (Bool-cases (contains ids x.id)) [
        | inl e ↦ rw (same x y r, e, IsHeld-holds owner u observed y.delivery l (kept x y r (hx e)))
        | inr e ↦ rw (same x y r, e)
      ])
      h p)

-- The key stays, and a row whose key is among `ids` is delivered.
abbrev pub IsDelivered : List ℕ → InboxEvent → InboxEvent → Type 0
IsDelivered ids before now =
    (now.id ≡ before.id)
    × (contains ids before.id ≡ true → now.delivery.status ≡ InboxStatus.delivered)

-- Where every named row is still held, the completion delivers the named rows.
pub completed-IsDelivered :
    (owner : String) (u observed : ℕ) (ids : List ℕ) (rows : List InboxEvent)
    → observed < u
    → All
        (λ row. contains ids row.id ≡ true → custody row.delivery ≡ held (some owner) (some u))
        rows
    → Pointwise
        (IsDelivered ids)
        rows
        (update_where (completes owner ids observed) (complete observed) rows)
unfolding completes complete delivered
completed-IsDelivered owner u observed ids rows l h =
    Pointwise-update_where_of
      (λ row. contains ids row.id ≡ true → custody row.delivery ≡ held (some owner) (some u))
      (IsDelivered ids) (completes owner ids observed) (complete observed) rows
      (λ row k e. (refl, λ named. refl))
      (λ row k e. (
        refl,
        λ named.
            let holds = IsHeld-holds owner u observed row.delivery l (k named) in
            absurd (ground (arith, named, holds, e)),
      ))
      h
