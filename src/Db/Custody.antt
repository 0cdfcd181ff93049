-- ===== src/Db/Custody.antt =====
-- What one inbox row's delivery columns mean for the workers, without the columns' encoding: an
-- abstract machine of one row, whose steps are `Move`.
use android_apm_server.Prelude.{ℕ, ◌≤◌, ◌<◌, String, ◌≡◌, ◌≢◌, refl, ◌⊎◌, Option, some, arith}
use android_apm_server.Db.Models.{InboxStatus, Delivery, InboxEvent}

pub data Custody : Type 0 where
  waiting finished discarded parked : Custody
  held : Option String → Option ℕ → Custody

unfoldable pub custody : Delivery → Custody
custody d = elim d.status [
  | InboxStatus.pending ↦ waiting
  | InboxStatus.processing ↦ held d.lease_owner d.lease_expires_at
  | InboxStatus.delivered ↦ finished
  | InboxStatus.dead_letter ↦ discarded
  | InboxStatus.awaiting_symbols ↦ parked
]

-- A lease that has run out by `t`.
abbrev pub HasLapsed : ℕ → Custody → Type 0
HasLapsed t c = (o : Option String) × (u : ℕ) × (c ≡ held o (some u)) × (u ≤ t)

-- A lease of `actor` that is active at `t`.
abbrev pub IsActive : String → ℕ → Custody → Type 0
IsActive actor t c = (u : ℕ) × (c ≡ held (some actor) (some u)) × (t < u)

-- One transaction of `actor` at time `t`.
pub data Move (actor : String) (t : ℕ) (from to : Custody) : Type 0 where
  rest : to ≡ from → Move actor t from to
  grant :
      (until : ℕ)
      → (from ≡ waiting) ⊎ HasLapsed t from
      → t ≤ until
      → to ≡ held (some actor) (some until)
      → Move actor t from to
  settle :
      IsActive actor t from
      → (to ≡ finished) ⊎ ((to ≡ discarded) ⊎ (to ≡ waiting))
      → Move actor t from to
  park : from ≡ waiting → to ≡ parked → Move actor t from to
  unpark : from ≡ parked → to ≡ waiting → Move actor t from to

-- Exactly one time.
abbrev pub At : ℕ → ℕ → Type 0
At t s = s ≡ t

-- Some transactions of `actor`, each at a time of `at`.
pub data Trail (actor : String) (at : ℕ → Type 0) (from : Custody) : Custody → Type 0 where
  here : Trail actor at from from
  next :
      {mid to : Custody} (t : ℕ)
      → Trail actor at from mid
      → at t
      → Move actor t mid to
      → Trail actor at from to

module _ {actor : String} {t : ℕ} {from to : Custody} where
  Move-finished : Move actor t from to → from ≡ finished → to ≡ finished
  Move-finished (rest e) h = cc
  Move-finished (grant u w l e) h = ground arith
  Move-finished (settle a e) h = ground arith
  Move-finished (park f e) h = ground arith
  Move-finished (unpark f e) h = ground arith

  Move-discarded : Move actor t from to → from ≡ discarded → to ≡ discarded
  Move-discarded (rest e) h = cc
  Move-discarded (grant u w l e) h = ground arith
  Move-discarded (settle a e) h = ground arith
  Move-discarded (park f e) h = ground arith
  Move-discarded (unpark f e) h = ground arith

  -- Nobody but its owner moves a row whose lease is active.
  Move-held :
      (owner : String) (u : ℕ)
      → Move actor t from to
      → from ≡ held (some owner) (some u)
      → t < u
      → actor ≢ owner
      → to ≡ held (some owner) (some u)
  Move-held owner u (rest e) h l n = cc
  Move-held owner u (grant v w m e) h l n = ground arith
  Move-held owner u (settle a e) h l n = absurd (ground arith)
  Move-held owner u (park f e) h l n = ground arith
  Move-held owner u (unpark f e) h l n = ground arith

pub Trail-finished :
    {actor : String} {at : ℕ → Type 0} {from to : Custody}
    → Trail actor at from to
    → from ≡ finished
    → to ≡ finished
Trail-finished here h = h
Trail-finished (next t r l m) h = Move-finished m (Trail-finished r h)

pub Trail-discarded :
    {actor : String} {at : ℕ → Type 0} {from to : Custody}
    → Trail actor at from to
    → from ≡ discarded
    → to ≡ discarded
Trail-discarded here h = h
Trail-discarded (next t r l m) h = Move-discarded m (Trail-discarded r h)

pub Trail-held :
    {actor : String} {at : ℕ → Type 0} {from to : Custody} (owner : String) (u : ℕ)
    → Trail actor at from to
    → from ≡ held (some owner) (some u)
    → ((t : ℕ) → at t → t < u)
    → actor ≢ owner
    → to ≡ held (some owner) (some u)
Trail-held owner u here h l n = h
Trail-held owner u (next t r k m) h l n = Move-held owner u m (Trail-held owner u r h l n) (l t k) n

pub Trail-trans :
    {actor : String} {at : ℕ → Type 0} {a b c : Custody}
    → Trail actor at a b
    → Trail actor at b c
    → Trail actor at a c
Trail-trans p here = p
Trail-trans p (next t r l m) = next t (Trail-trans p r) l m

pub one_move :
    {actor : String} {at : ℕ → Type 0} {from to : Custody} (t : ℕ)
    → at t
    → Move actor t from to
    → Trail actor at from to
one_move t l m = next t here l m

-- What an operation may do to a row: its key and its identity stay, its custody follows the machine.
pub record Evolution (actor : String) (at : ℕ → Type 0) (before now : InboxEvent) : Type 0 where
  pub same_id : now.id ≡ before.id
  pub same_identity : now.identity ≡ before.identity
  pub trail : Trail actor at (custody before.delivery) (custody now.delivery)

pub Evolution-refl :
    (actor : String) (at : ℕ → Type 0) (row : InboxEvent) → Evolution actor at row row
Evolution-refl actor at row = record { same_id = refl; same_identity = refl; trail = here }

pub Evolution-trans :
    (actor : String) (at : ℕ → Type 0) (a b c : InboxEvent)
    → Evolution actor at a b
    → Evolution actor at b c
    → Evolution actor at a c
Evolution-trans actor at a b c p q = record {
  same_id = cc (p.same_id, q.same_id);
  same_identity = cc (p.same_identity, q.same_identity);
  trail = Trail-trans p.trail q.trail;
}
