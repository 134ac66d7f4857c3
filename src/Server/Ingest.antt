-- ===== src/Server/Ingest.antt =====
-- Event ingestion: `ingest_events` and `_validate_transition` of server/app/services.py. The run is
-- an object of the session: it is threaded through the loop and written back with each event.
pub mod Step
pub mod Terminal
pub mod Pushes
pub mod Projection
pub mod Replay
pub mod Log
use run_buoy.Prelude.{
  ℕ, ◌+◌, max, Bool, true, false, not, ◌&&◌, ◌||◌, Option, none, some, String, List, [], ◌∷◌, ◌++◌,
  ◌==◌, leb, ltb, if◌then◌else◌, is_none, or_else,
}
use run_buoy.Prelude.Table.{find_where, exists_where, update_where, insert}
use run_buoy.Prelude.Exec.{pure, raise, gets, modify, ◌>>=◌, ◌>>◌, on_option}
use run_buoy.Server.Enums.{
  ExecutionStatus, AttentionStatus, EventType, is_terminal, event_status, is_allowed_transition,
  is_start_event, is_created_event,
}
use run_buoy.Server.Rows.{EventPayload, Progress, Run, RunEvent}
use run_buoy.Server.Schedule.{schedule_run_pushes}
use run_buoy.Server.Database.{
  Database, Settings, Error, terminal_immutable, event_replay_mismatch, sequence_taken,
  out_of_order, ownership_mismatch, illegal_transition, Handler, new_id,
}

-- schemas.RunEvent
pub record EventInput : Type 0 where
  pub schema_version : ℕ
  pub event_id : ℕ
  pub run_id : ℕ
  pub machine_id : ℕ
  pub seq : ℕ
  pub type : EventType
  pub occurred_at : ℕ
  pub payload : EventPayload

-- sorted(events, key=lambda item: item.seq), which is stable
unfoldable pub insert_by_seq : EventInput → List EventInput → List EventInput
insert_by_seq e [] = e ∷ []
insert_by_seq e (x ∷ xs) = if leb e.seq x.seq then e ∷ x ∷ xs else x ∷ insert_by_seq e xs

unfoldable pub sort_by_seq : List EventInput → List EventInput
unfolding insert_by_seq
sort_by_seq [] = []
sort_by_seq (e ∷ es) = insert_by_seq e (sort_by_seq es)

abbrev pub type_eq : EventType → EventType → Bool
type_eq EventType.run_created EventType.run_created = true
type_eq EventType.run_starting EventType.run_starting = true
type_eq EventType.run_started EventType.run_started = true
type_eq EventType.run_progress EventType.run_progress = true
type_eq EventType.run_phase_changed EventType.run_phase_changed = true
type_eq EventType.run_message EventType.run_message = true
type_eq EventType.run_attention_required EventType.run_attention_required = true
type_eq EventType.run_heartbeat EventType.run_heartbeat = true
type_eq EventType.run_succeeded EventType.run_succeeded = true
type_eq EventType.run_failed EventType.run_failed = true
type_eq EventType.run_cancelled EventType.run_cancelled = true
type_eq EventType.run_lost EventType.run_lost = true
type_eq _ _ = false

abbrev pub next_status_of : Run → EventInput → ExecutionStatus
next_status_of run e = or_else (event_status e.type) run.execution_status

-- _validate_transition: `none` where it returns
unfoldable pub validate_transition : Run → EventInput → Option Error
validate_transition run e =
    if is_terminal run.execution_status
    then some terminal_immutable
    else elim (event_status e.type) [
      | none ↦ none
      | some next ↦
          if is_allowed_transition run.execution_status next
          then none
          else some (illegal_transition run.execution_status next)
    ]

-- The checks between the replay test and the first write.
unfoldable pub rejection : Database → Run → EventInput → Option Error
unfolding validate_transition
rejection db run e =
    if exists_where (λ (r : RunEvent). r.run_id == run.id && r.seq == e.seq) db.events
    then some sequence_taken
    else if leb e.seq run.last_seq
    then some out_of_order
    else if not (e.run_id == run.id) || not (e.machine_id == run.machine_id)
    then some ownership_mismatch
    else validate_transition run e

unfoldable pub new_event : Run → EventInput → ℕ → ℕ → RunEvent
new_event run e now id = record {
  id = id;
  schema_version = e.schema_version;
  event_id = e.event_id;
  run_id = run.id;
  machine_id = run.machine_id;
  seq = e.seq;
  type = e.type;
  occurred_at = e.occurred_at;
  received_at = now;
  payload = e.payload;
}

-- `if key in payload: field = payload[key]`
abbrev pub assigned {ℓ} : {A : Type ℓ} → Option A → A → A
assigned none old = old
assigned (some v) old = v

-- The same for attention_status, where a null is passed over.
abbrev pub assigned_value {ℓ} : {A : Type ℓ} → Option (Option A) → A → A
assigned_value (some (some v)) old = v
assigned_value _ old = old

-- The assignments to the run.
unfoldable pub project_event : Run → EventInput → Run
project_event run e = record run {
  updated_at = if run.last_seq == 0 then e.occurred_at else max run.updated_at e.occurred_at;
  last_seq = e.seq;
  created_at = if is_created_event e.type then e.occurred_at else run.created_at;
  execution_status = next_status_of run e;
  started_at =
      if is_start_event e.type && is_none run.started_at
      then some e.occurred_at
      else run.started_at;
  ended_at = elim (event_status e.type) [
    | none ↦ run.ended_at
    | some next ↦ if is_terminal next then some e.occurred_at else run.ended_at
  ];
  progress = assigned e.payload.progress run.progress;
  phase = assigned e.payload.phase run.phase;
  safe_message = assigned e.payload.message run.safe_message;
  attention_status = assigned_value e.payload.attention_status run.attention_status;
  exit_code = assigned e.payload.exit_code run.exit_code;
  termination_reason = assigned e.payload.termination_reason run.termination_reason;
  safe_log_tail = assigned e.payload.safe_log_tail run.safe_log_tail;
}

unfoldable pub save_run : Run → Handler Unit
save_run run =
    modify
      (λ db. record db { runs = update_where (λ (r : Run). r.id == run.id) (λ _. run) db.runs })

-- What the loop carries from one event to the next.
pub record Progressed : Type 0 where
  pub run : Run
  pub inserted : List ℕ
  pub duplicates : List ℕ

unfoldable pub is_replay : Run → EventInput → RunEvent → Bool
is_replay run e r = r.run_id == run.id && r.seq == e.seq && type_eq r.type e.type

module _ (settings : Settings) (id_text : ℕ → String) (now : ℕ) where
  -- An event that passed every check.
  unfoldable pub accept_event : Run → EventInput → Handler Run
  accept_event run e = do
    id ← new_id
    modify (λ db. record db { events = insert (new_event run e now id) db.events })
    let next = project_event run e
    save_run next
    schedule_run_pushes settings id_text next e.type run.progress now
    pure next

  -- One round of the loop.
  unfoldable pub ingest_event : Progressed → EventInput → Handler Progressed
  ingest_event p e = do
    existing ← gets (λ db. find_where (λ (r : RunEvent). r.event_id == e.event_id) db.events)
    on_option existing
        (do
          rejected ← gets (λ db. rejection db p.run e)
          on_option rejected
              (do
                next ← accept_event p.run e
                pure (record p { run = next; inserted = p.inserted ++ e.event_id ∷ [] }))
              raise)
        (λ r.
          if is_replay p.run e r
          then pure (record p { duplicates = p.duplicates ++ e.event_id ∷ [] })
          else raise event_replay_mismatch)

  unfoldable pub ingest_loop : Progressed → List EventInput → Handler Progressed
  ingest_loop p [] = pure p
  ingest_loop p (e ∷ es) = do q ← ingest_event p e; ingest_loop q es

  unfoldable pub ingest_events : Run → List EventInput → Handler Progressed
  ingest_events run events =
      ingest_loop (record { run = run; inserted = []; duplicates = [] }) (sort_by_seq events)
