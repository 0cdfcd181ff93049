-- ===== src/Db/Symbolization/Creation.antt =====
-- `enqueue_symbolization_jobs` of db/symbolization.py: the jobs of the crash events of one request.
use android_apm_server.Prelude.{
  ℕ, ◌+◌, max, String, Bool, true, false, not, ◌&&◌, Option, none, some, List, [], ◌∷◌, ◌++◌, map,
  ◌==◌, contains, any, select, str_eq, if◌then◌else◌,
}
use android_apm_server.Domain.{ApmEvent}
use android_apm_server.Db.Models.{
  InboxStatus, SymbolStatus, JobType, InboxEvent, SymbolizationJob, Database, is_pending,
}
use android_apm_server.Db.Table.{update_where, count_where}
use android_apm_server.Db.Symbolization.Identity.{job_type, stack_value, has_symbol_identity}

-- The type of the last relevant event with this id: `relevant[event_id]`.
unfoldable pub relevant : String → List ApmEvent → Option JobType
unfolding job_type
relevant k [] = none
relevant k (e ∷ es) = elim (relevant k es) [
  | some t ↦ some t
  | none ↦ if str_eq e.event_id k then job_type e else none
]

unfoldable pub enqueue_status : Bool → InboxEvent → JobType → String → SymbolStatus
unfolding has_symbol_identity
enqueue_status enabled row kind stack =
    if not enabled
    then SymbolStatus.disabled
    else if has_symbol_identity row kind stack
    then SymbolStatus.pending
    else SymbolStatus.metadata_missing

-- The parameters of one ingest request.
pub record Enqueue : Type 0 where
  pub tenant_id : String
  pub events : List ApmEvent
  pub enabled : Bool
  pub now : ℕ
  pub sha256 : String → String

-- The values for one row of the query, unless the row is no relevant event of the request. The id
-- is the database's to give.
unfoldable pub job_value : Enqueue → InboxEvent → Option SymbolizationJob
unfolding relevant enqueue_status stack_value
job_value q row =
    if not (str_eq row.identity.tenant_id q.tenant_id)
    then none
    else elim (relevant row.identity.event_id q.events) [
      | none ↦ none
      | some kind ↦
          let stack = stack_value row.evidence.payload_json kind in
          some (record {
            id = 0;
            inbox_event_id = row.id;
            tenant_id = q.tenant_id;
            event_id = row.identity.event_id;
            job_type = kind;
            status = enqueue_status q.enabled row kind stack;
            artifact_id = none;
            input_sha256 = q.sha256 stack;
            fingerprint_sha256 = none;
            attempt_count = 0;
            next_attempt_at = q.now;
            lease_owner = none;
            lease_expires_at = none;
            last_error_code = none;
            last_error_message = none;
          })
    ]

abbrev pub with_value : Option SymbolizationJob → List SymbolizationJob → List SymbolizationJob
with_value none vs = vs
with_value (some v) vs = v ∷ vs

unfoldable pub job_values : Enqueue → List InboxEvent → List SymbolizationJob
unfolding job_value
job_values q [] = []
job_values q (row ∷ rows) = with_value (job_value q row) (job_values q rows)

-- The key that the next inserted row gets.
unfoldable pub next_id : List SymbolizationJob → ℕ
next_id [] = 1
next_id (j ∷ js) = max (j.id + 1) (next_id js)

abbrev pub for_inbox : ℕ → SymbolizationJob → Bool
for_inbox i j = j.inbox_event_id == i

-- INSERT ... ON CONFLICT (inbox_event_id) DO NOTHING RETURNING inbox_event_id
unfoldable pub insert_jobs :
    List SymbolizationJob → List SymbolizationJob → List SymbolizationJob × List ℕ
unfolding next_id
insert_jobs [] jobs = (jobs, [])
insert_jobs (v ∷ vs) jobs =
    let taken = insert_jobs vs jobs in
    let added = insert_jobs vs (jobs ++ record v { id = next_id jobs } ∷ []) in
    if any (for_inbox v.inbox_event_id) jobs then taken else (added.0, v.inbox_event_id ∷ added.1)

abbrev pub is_pending_job : SymbolizationJob → Bool
is_pending_job j = elim j.status [ SymbolStatus.pending ↦ true | _ ↦ false ]

unfoldable pub park : InboxEvent → InboxEvent
park row = record row { delivery = record row.delivery { status = InboxStatus.awaiting_symbols } }

unfoldable pub enqueue_symbolization_jobs : Enqueue → Database → Database × ℕ
unfolding job_values insert_jobs park
enqueue_symbolization_jobs q db =
    let values = job_values q db.inbox_events in
    let waiting = map (λ j. j.inbox_event_id) (select is_pending_job values) in
    let (jobs, inserted) = insert_jobs values db.symbolization_jobs in
    let inserted_waiting = select (contains waiting) inserted in
    (
      record {
        inbox_events =
            update_where (λ row. contains inserted_waiting row.id && is_pending row.delivery.status)
              park db.inbox_events;
        symbolization_jobs = jobs;
      },
      count_where (λ i. true) inserted_waiting,
    )
