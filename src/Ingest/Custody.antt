-- ===== src/Ingest/Custody.antt =====
-- The delivery columns of the inbox rows over the histories of Ingest/History.antt.
use android_apm_server.Prelude.{
  ℕ, ◌<◌, ◌≡◌, refl, sym, ◌∙◌, inl, inr, String, Option, List, [], ◌∷◌, All, subst, arith,
}
use android_apm_server.Json.{Json}
use android_apm_server.Domain.{ApmEvent}
use android_apm_server.Db.Models.{InboxStatus, Delivery, InboxEvent, SymbolizationJob}
use android_apm_server.Db.Table.{Ascending}
use android_apm_server.Db.Table.Rows.{Pointwise-map}
use android_apm_server.Db.Table.Growth.{Grows}
use android_apm_server.Db.Custody.{custody}
use android_apm_server.Db.Maintenance.{RetentionSettings}
use android_apm_server.Db.Maintenance.Pruning.{IsKeptOrPruned, maintain_once-IsKeptOrPruned}
use android_apm_server.Db.System.{symbols, enqueues}
use android_apm_server.Db.System.Custody.{
  IsSettled, IsSettled-refl, IsSettled-trans, act-IsSettled, Keeps, Keeps-refl, Keeps-trans, IsHeld,
  Stranger, act-IsHeld,
}
use android_apm_server.Ingest.Transaction.{Store}
use android_apm_server.Ingest.History.{Happening, process, history}
use android_apm_server.Ingest.Growth.{Step, history-Grows}

Pruned-IsSettled :
    (settings : RetentionSettings) (observed : ℕ) (jobs : List SymbolizationJob) (x y : InboxEvent)
    → IsKeptOrPruned settings observed jobs x y
    → IsSettled x y
Pruned-IsSettled settings observed jobs x y (inl e) = subst (IsSettled x) (sym e) (IsSettled-refl x)
Pruned-IsSettled settings observed jobs x y (inr p) = (p.0, p.1, λ h. p.2 ∙ h, λ h. p.2 ∙ h)

settled-free :
    (owner : String) (u : ℕ) (d : Delivery)
    → IsHeld owner u (custody d)
    → d.status ≡ InboxStatus.processing
unfolding custody
settled-free owner u d h = go d.status refl
  where
    go : (s : InboxStatus) → d.status ≡ s → d.status ≡ InboxStatus.processing
    go InboxStatus.processing e = e
    go InboxStatus.pending e = absurd (ground (arith, e, h))
    go InboxStatus.delivered e = absurd (ground (arith, e, h))
    go InboxStatus.dead_letter e = absurd (ground (arith, e, h))
    go InboxStatus.awaiting_symbols e = absurd (ground (arith, e, h))

-- A row that somebody holds is not pruned.
Pruned-Keeps :
    (owner : String) (u : ℕ) (settings : RetentionSettings) (observed : ℕ)
    (jobs : List SymbolizationJob) (x y : InboxEvent)
    → IsKeptOrPruned settings observed jobs x y
    → Keeps (IsHeld owner u) x y
Pruned-Keeps owner u settings observed jobs x y (inl e) =
    subst (Keeps (IsHeld owner u) x) (sym e) (Keeps-refl (IsHeld owner u) x)
Pruned-Keeps owner u settings observed jobs x y (inr p) = record {
  same_id = p.0;
  same_identity = p.1;
  kept = λ h.
      let busy = settled-free owner u x.delivery h in
      elim p.7 [
        | inl (e, l) ↦ absurd (cc (sym e ∙ busy))
        | inr (e, l) ↦ absurd (cc (sym e ∙ busy))
      ];
}

everything : (hs : List Happening) → All (λ h. Unit {0}) hs
everything [] = tt
everything (h ∷ hs) = (tt, everything hs)

settling : Step IsSettled (λ h. Unit {0})
settling = record {
  same = IsSettled-refl;
  chain = IsSettled-trans;
  acts = λ a db h allowed. act-IsSettled a db h;
  enqueues_jobs = λ q db h. act-IsSettled (symbols (enqueues q)) db h;
  maintains = λ settings observed locked db h.
      Pointwise-map (IsKeptOrPruned settings observed db.symbolization_jobs) IsSettled
        db.inbox_events _ (Pruned-IsSettled settings observed db.symbolization_jobs)
        (maintain_once-IsKeptOrPruned settings observed locked db h);
}

-- The export workers among the processes act for others than `owner`, and before `u`.
abbrev pub SparesHolder : String → ℕ → Happening → Type 0
SparesHolder owner u (process a) = Stranger owner u a
SparesHolder owner u _ = Unit

holding : (owner : String) (u : ℕ) → 0 < u → Step (Keeps (IsHeld owner u)) (SparesHolder owner u)
holding owner u positive = record {
  same = Keeps-refl (IsHeld owner u);
  chain = Keeps-trans (IsHeld owner u);
  acts = λ a db h allowed. act-IsHeld owner u positive a db h allowed;
  enqueues_jobs = λ q db h. act-IsHeld owner u positive (symbols (enqueues q)) db h tt;
  maintains = λ settings observed locked db h.
      Pointwise-map (IsKeptOrPruned settings observed db.symbolization_jobs)
        (Keeps (IsHeld owner u)) db.inbox_events _
        (Pruned-Keeps owner u settings observed db.symbolization_jobs)
        (maintain_once-IsKeptOrPruned settings observed locked db h);
}

module _ (hmac : List ℕ → List ℕ → String) (fingerprint : ApmEvent → Option String)
    (dumps : Json → String) (sha256 : String → String) (bytes_of : Json → ℕ) where
  -- From an inbox whose keys ascend, over any history of requests, actions of the workers and
  -- maintenance cycles, every row keeps its place, its key and its occurrence identity; a delivered row
  -- stays delivered, and a dead letter stays one. New rows stand behind the old ones.
  pub history-IsSettled :
      (hs : List Happening) (store : Store)
      → Ascending (λ row. row.id) store.database.inbox_events
      → Grows IsSettled store.database.inbox_events
          (history hmac fingerprint dumps sha256 bytes_of hs store).database.inbox_events
  history-IsSettled hs store a =
      history-Grows hmac fingerprint dumps sha256 bytes_of settling hs store a (everything hs)

  -- From an inbox whose keys ascend, over any history of requests, actions of the workers and
  -- maintenance cycles, a row that `owner` holds with a lease until a time `u` above 0 stays held by
  -- `owner` until `u`, as long as every claim, completion and failure of an export worker is by another
  -- owner and reads the clock before `u`. Every row keeps its place, its key and its identity.
  pub history-IsHeld :
      (owner : String) (u : ℕ) (hs : List Happening) (store : Store)
      → 0 < u
      → Ascending (λ row. row.id) store.database.inbox_events
      → All (SparesHolder owner u) hs
      → Grows
          (Keeps (IsHeld owner u))
          store.database.inbox_events
          (history hmac fingerprint dumps sha256 bytes_of hs store).database.inbox_events
  history-IsHeld owner u hs store positive a spare =
      history-Grows hmac fingerprint dumps sha256 bytes_of (holding owner u positive) hs store a
        spare
