-- ===== src/Ingest/History.antt =====
-- Histories of the tables: batches that arrive, the actions of Db/System.antt and maintenance, one
-- committed transaction after the other, in any order.
use android_apm_server.Prelude.{ℕ, ◌≡◌, refl, ap, inl, inr, String, Bool, Option, List, [], ◌∷◌}
use android_apm_server.Json.{Json}
use android_apm_server.Domain.{ApmEvent, IngestMetadata}
use android_apm_server.Identity.{InstallationHmacKeyRing}
use android_apm_server.Auth.{IngestPrincipal}
use android_apm_server.Db.Models.{InboxEvent, Database}
use android_apm_server.Db.Table.{Ascending, Pointwise}
use android_apm_server.Db.Table.Rows.{Pointwise-map, Ascending-Pointwise}
use android_apm_server.Db.Inbox.Insert.Keys.{Persists, Persists-trans, Pointwise-Persists}
use android_apm_server.Db.Maintenance.{RetentionSettings, maintain_once}
use android_apm_server.Db.Maintenance.Pruning.{IsKeptOrPruned, maintain_once-IsKeptOrPruned}
use android_apm_server.Db.System.{Action, act}
use android_apm_server.Db.System.Custody.{IsSettled, act-IsSettled}
use android_apm_server.Ingest.Transaction.{Store, Moment, IngestSettings, commit_batch}

-- One request, with the state of the inbox at the first read of its transaction.
pub record IngestRequest : Type 0 where
  pub moment : Moment
  pub principal : IngestPrincipal
  pub metadata : IngestMetadata
  pub events : List ApmEvent
  pub keys : Option InstallationHmacKeyRing
  pub seen : List InboxEvent

pub data Happening : Type 0 where
  request : IngestSettings → IngestRequest → Happening
  process : Action → Happening
  maintenance : RetentionSettings → ℕ → (ℕ → Bool) → Happening

-- The rows of the inbox keep their identities and the order of their keys.
pub record Lasts (rows rows' : List InboxEvent) : Type 0 where
  pub persists : Persists rows rows'
  pub ascending : Ascending (λ (row : InboxEvent). row.id) rows'

module _ (hmac : List ℕ → List ℕ → String) (fingerprint : ApmEvent → Option String)
    (dumps : Json → String) (sha256 : String → String) (bytes_of : Json → ℕ) where
  unfoldable pub happen : Happening → Store → Store
  happen (request settings r) store =
      (commit_batch hmac fingerprint dumps sha256 bytes_of settings r.moment r.principal r.metadata
        r.events r.keys r.seen store).1
  happen (process a) store = record store { database = act a store.database }
  happen (maintenance settings observed locked) store = record store {
    database = (maintain_once settings observed locked store.database).0;
  }

  unfoldable pub history : List Happening → Store → Store
  unfolding happen
  history [] store = store
  history (h ∷ hs) store = history hs (happen h store)

Lasts-Pointwise :
    (R : InboxEvent → InboxEvent → Type 0) (rows rows' : List InboxEvent)
    → ((x y : InboxEvent) → R x y → y.id ≡ x.id)
    → ((x y : InboxEvent) → R x y → y.identity ≡ x.identity)
    → Ascending (λ row. row.id) rows
    → Pointwise R rows rows'
    → Lasts rows rows'
Lasts-Pointwise R rows rows' same_id same_identity h p = record {
  persists =
      Pointwise-Persists rows rows'
        (Pointwise-map R (λ x y. y.identity ≡ x.identity) rows rows' same_identity p);
  ascending = Ascending-Pointwise (λ row. row.id) R rows rows' same_id p h;
}

pub act-Lasts :
    (a : Action) (db : Database)
    → Ascending (λ row. row.id) db.inbox_events
    → Lasts db.inbox_events (act a db).inbox_events
act-Lasts a db h =
    Lasts-Pointwise IsSettled db.inbox_events (act a db).inbox_events (λ x y s. s.0) (λ x y s. s.1)
      h (act-IsSettled a db h)

pub maintain_once-Lasts :
    (settings : RetentionSettings) (observed : ℕ) (locked : ℕ → Bool) (db : Database)
    → Ascending (λ row. row.id) db.inbox_events
    → Lasts db.inbox_events (maintain_once settings observed locked db).0.inbox_events
maintain_once-Lasts settings observed locked db h =
    Lasts-Pointwise (IsKeptOrPruned settings observed db.symbolization_jobs) db.inbox_events _
      (λ x y s. elim s [ inl e ↦ ap (λ r. r.id) e | inr p ↦ p.0 ])
      (λ x y s. elim s [ inl e ↦ ap (λ r. r.identity) e | inr p ↦ p.1 ]) h
      (maintain_once-IsKeptOrPruned settings observed locked db h)

pub Lasts-refl : (rows : List InboxEvent) → Ascending (λ row. row.id) rows → Lasts rows rows
Lasts-refl rows h = record { persists = λ t k row there. (row, there, refl); ascending = h }

pub Lasts-trans : (a b c : List InboxEvent) → Lasts a b → Lasts b c → Lasts a c
Lasts-trans a b c p q = record {
  persists = Persists-trans a b c p.persists q.persists;
  ascending = q.ascending;
}
