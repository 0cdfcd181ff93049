-- ===== src/Db/Worker/Refinement.antt =====
-- The operations of db/worker.py as steps of the custody machine.
use android_apm_server.Prelude.{
  ℕ, ◌+◌, String, ◌≡◌, refl, ◌⊎◌, inl, inr, Bool, true, ◌&&◌, Option, none, some, List, [], ◌∷◌,
  arith, eq_iff, All, &&-true, Bool-cases,
}
use android_apm_server.Db.Models.{InboxStatus, Delivery, InboxEvent, seconds}
use android_apm_server.Db.Table.{Pointwise, Ascending, update_where}
use android_apm_server.Db.Table.Rows.{
  Pointwise-update_where, Pointwise-update_first, Pointwise-refl, Pointwise-trans,
}
use android_apm_server.Db.Table.Claims.{update_chosen-first}
use android_apm_server.Db.Custody.{
  At, waiting, finished, discarded, custody, HasLapsed, IsActive, grant, settle, one_move,
  Evolution, Evolution-refl, Evolution-trans,
}
use android_apm_server.Db.Worker.{
  holds_lease, claimable, candidate, lease, claim_batch, completes, complete, mark_delivered,
  should_retry, Failure, failed, fail, mark_failed,
}

claimable-waiting :
    (observed : ℕ) (d : Delivery)
    → claimable observed d ≡ true
    → (custody d ≡ waiting) ⊎ HasLapsed observed (custody d)
unfolding claimable custody
claimable-waiting observed d h = go d.status d.lease_expires_at refl refl
  where
    go :
        (s : InboxStatus) (e : Option ℕ)
        → d.status ≡ s
        → d.lease_expires_at ≡ e
        → (custody d ≡ waiting) ⊎ HasLapsed observed (custody d)
    go InboxStatus.pending e p q = inl (ground arith)
    go InboxStatus.processing none p q = absurd (ground arith)
    go InboxStatus.processing (some u) p q = inr (d.lease_owner, u, ground arith, ground arith)
    go InboxStatus.delivered e p q = absurd (ground arith)
    go InboxStatus.dead_letter e p q = absurd (ground arith)
    go InboxStatus.awaiting_symbols e p q = absurd (ground arith)

pub holds_lease-IsActive :
    (owner : String) (observed : ℕ) (d : Delivery)
    → holds_lease owner observed d ≡ true
    → IsActive owner observed (custody d)
unfolding holds_lease custody
holds_lease-IsActive owner observed d h =
    go d.status d.lease_owner d.lease_expires_at refl refl refl
  where
    go :
        (s : InboxStatus) (o : Option String) (e : Option ℕ)
        → d.status ≡ s
        → d.lease_owner ≡ o
        → d.lease_expires_at ≡ e
        → IsActive owner observed (custody d)
    go InboxStatus.processing (some o) (some u) p q r =
        (u, ground (arith, eq_iff o owner), ground arith)
    go _ _ _ p q r = absurd (ground arith)

&&-left : (a b : Bool) → (a && b) ≡ true → a ≡ true
&&-left a b h = ground arith

lease-Evolution :
    (owner : String) (lease_seconds observed : ℕ) (locked : ℕ → Bool) (row : InboxEvent)
    → candidate observed locked row ≡ true
    → Evolution owner (At observed) row (lease owner (observed + seconds lease_seconds) row)
unfolding candidate lease custody
lease-Evolution owner lease_seconds observed locked row h = record {
  same_id = refl;
  same_identity = refl;
  trail = one_move observed refl (
      grant (observed + seconds lease_seconds)
        (claimable-waiting observed row.delivery (&&-left _ _ (&&-left _ _ h))) (omega arith) refl);
}

complete-Evolution :
    (owner : String) (ids : List ℕ) (observed : ℕ) (row : InboxEvent)
    → completes owner ids observed row ≡ true
    → Evolution owner (At observed) row (complete observed row)
unfolding completes complete custody
complete-Evolution owner ids observed row h = record {
  same_id = refl;
  same_identity = refl;
  trail =
      one_move observed refl
        (settle (holds_lease-IsActive owner observed row.delivery (&&-true _ _ h).1) (inl refl));
}

failed-custody :
    (failure : Failure) (attempts observed : ℕ) (d : Delivery)
    → let to = custody (failed failure attempts observed d) in
      (to ≡ finished) ⊎ ((to ≡ discarded) ⊎ (to ≡ waiting))
unfolding failed custody
failed-custody failure attempts observed d =
    elim (Bool-cases (should_retry failure.retryable failure.max_attempts attempts)) [
      | inl e ↦ inr (inr (rw e))
      | inr e ↦ inr (inl (rw e))
    ]

fail-Evolution :
    (owner : String) (ids : List ℕ) (failure : Failure) (attempts observed : ℕ) (at : ℕ → Type 0)
    (row : InboxEvent)
    → at observed
    → completes owner ids observed row ≡ true
    → Evolution owner at row (fail failure attempts observed row)
unfolding completes fail
fail-Evolution owner ids failure attempts observed at row l h = record {
  same_id = refl;
  same_identity = refl;
  trail = one_move observed l (
      settle (holds_lease-IsActive owner observed row.delivery (&&-true _ _ h).1)
        (failed-custody failure attempts observed row.delivery));
}

-- A claim hands rows that wait, or whose lease has lapsed, to the claimant, and touches no other.
pub claim_batch-Evolution :
    (owner : String) (limit lease_seconds observed : ℕ) (locked : ℕ → Bool) (rows : List InboxEvent)
    → Ascending (λ row. row.id) rows
    → Pointwise
        (Evolution owner (At observed))
        rows
        (claim_batch owner limit lease_seconds observed locked rows).1
unfolding claim_batch
claim_batch-Evolution owner limit lease_seconds observed locked rows h =
    rw
      (update_chosen-first (λ row. row.id) limit (candidate observed locked)
        (lease owner (observed + seconds lease_seconds)) rows h)
      (Pointwise-update_first (Evolution owner (At observed)) limit (candidate observed locked)
        (lease owner (observed + seconds lease_seconds)) rows
        (lease-Evolution owner lease_seconds observed locked) (Evolution-refl owner (At observed)))

pub mark_delivered-Evolution :
    (owner : String) (ids : List ℕ) (observed : ℕ) (rows : List InboxEvent)
    → Pointwise (Evolution owner (At observed)) rows (mark_delivered owner ids observed rows).0
unfolding mark_delivered
mark_delivered-Evolution owner [] observed rows =
    Pointwise-refl (Evolution owner (At observed)) rows (Evolution-refl owner (At observed))
mark_delivered-Evolution owner (i ∷ ids) observed rows =
    Pointwise-update_where (Evolution owner (At observed)) (completes owner (i ∷ ids) observed)
      (complete observed) rows (complete-Evolution owner (i ∷ ids) observed)
      (Evolution-refl owner (At observed))

pub mark_failed-Evolution :
    (owner : String) (events : List (InboxEvent × ℕ)) (failure : Failure) (at : ℕ → Type 0)
    (rows : List InboxEvent)
    → All (λ e. at e.1) events
    → Pointwise (Evolution owner at) rows (mark_failed owner events failure rows).0
unfolding mark_failed
mark_failed-Evolution owner [] failure at rows h =
    Pointwise-refl (Evolution owner at) rows (Evolution-refl owner at)
mark_failed-Evolution owner ((event, observed) ∷ events) failure at rows h =
    Pointwise-trans (Evolution owner at) rows
      (update_where (completes owner (event.id ∷ []) observed)
        (fail failure event.delivery.attempt_count observed) rows)
      (mark_failed owner ((event, observed) ∷ events) failure rows).0 (Evolution-trans owner at)
      (Pointwise-update_where (Evolution owner at) (completes owner (event.id ∷ []) observed)
        (fail failure event.delivery.attempt_count observed) rows
        (λ row.
          fail-Evolution owner (event.id ∷ []) failure event.delivery.attempt_count observed at row
            h.0)
        (Evolution-refl owner at))
      (mark_failed-Evolution owner events failure at
        (update_where (completes owner (event.id ∷ []) observed)
          (fail failure event.delivery.attempt_count observed) rows)
        h.1)
