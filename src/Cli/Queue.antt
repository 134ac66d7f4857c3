-- ===== src/Cli/Queue.antt =====
-- The local queue of events: `EventQueue` of cli/src/runbuoy/persistence/store.py. Each method is one
-- transaction on the tables `runs`, `events` and `machine_metadata_outbox`. A JSON column keeps its
-- value, and an event keeps the model that its text decodes to. Identifiers stand in the order of
-- their texts; instants are microseconds, and their texts in UTC have the same order.
pub mod Sequence
pub mod Order
use text.Mathlib.Text.{◌==◌ as str_eq}
use run_buoy.Prelude.{
  ℕ, ◌+◌, max, Bool, true, false, not, ◌&&◌, ◌||◌, Option, none, some, String, List, [], ◌∷◌, map,
  ◌==◌, leb, ltb, if◌then◌else◌, or_else, length, take, is_none, is_some,
}
use run_buoy.Prelude.Table.{
  is_one_of, select_where, find_where, exists_where, count_where, update_where, delete_where,
  insert,
}
use run_buoy.Prelude.Sort.{select_page}
use run_buoy.Prelude.Exec.{Exec, ok, pure, raise, gets, modify, ◌>>=◌, ◌>>◌, on_option}
use run_buoy.Server.Enums.{ExecutionStatus, EventType, is_terminal, event_status}
use run_buoy.Cli.Redaction.{Json, string, object, Fields, done, field, unsafe_key}
use run_buoy.Cli.Store.{
  LocalRun, QueuedEvent, RemoteError, EventRow, MetadataRow, Store, QueueError, Queue, is_run,
  is_of, http_status, transport, run_disappeared, forbidden_field, unknown_run, already_terminal,
  run_exists,
}

abbrev pub or_some {ℓ} : {A : Type ℓ} → Option A → Option A → Option A
or_some none d = d
or_some (some x) d = some x

-- A dict keeps the last value of a key.
unfoldable pub get_field : String → Fields → Option Json
get_field key done = none
get_field key (field k x fs) = or_some (get_field key fs) (if str_eq k key then some x else none)

-- status in TERMINAL_STATUSES, for an optional status
abbrev pub ends_run : Option ExecutionStatus → Bool
ends_run none = false
ends_run (some status) = is_terminal status

abbrev pub is_started_event : EventType → Bool
is_started_event EventType.run_started = true
is_started_event _ = false

-- The UPDATE of a run by an event that was appended to it.
unfoldable pub apply_event : QueuedEvent → LocalRun → LocalRun
apply_event e r = record r {
  updated_at = e.occurred_at;
  status = or_else (event_status e.type) r.status;
  started_at = if is_started_event e.type then some e.occurred_at else r.started_at;
  ended_at = if ends_run (event_status e.type) then some e.occurred_at else r.ended_at;
  exit_code =
      if ends_run (event_status e.type) then get_field "exit_code" e.payload else r.exit_code;
  progress_json = or_some (get_field "progress" e.payload) r.progress_json;
  phase = or_some (get_field "phase" e.payload) r.phase;
  safe_message = or_some (get_field "message" e.payload) r.safe_message;
}

-- COALESCE(MAX(seq), 0) of a run
abbrev pub last_seq_of : ℕ → List EventRow → ℕ
last_seq_of id [] = 0
last_seq_of id (r ∷ rs) =
    let rest = last_seq_of id rs in if is_of id r then max r.event.seq rest else rest

unfoldable pub new_row : QueuedEvent → EventRow
new_row e = record {
  event = e;
  delivered = false;
  attempt_count = 0;
  next_attempt_at = 0;
  last_error = none;
  created_at = e.occurred_at;
}

-- uuid7 of cli/src/runbuoy/ids.py: identifiers that no row has.
unfoldable pub uuid7 : Queue ℕ
uuid7 s = ok (s.next_id, record s { next_id = s.next_id + 1 })

unfoldable pub new_queued_event : LocalRun → EventType → Fields → ℕ → ℕ → ℕ → QueuedEvent
new_queued_event r type payload occurred_at seq id = record {
  event_id = id;
  run_id = r.run_id;
  machine_id = r.machine_id;
  seq = seq;
  type = type;
  occurred_at = occurred_at;
  payload = payload;
}

unfoldable pub store_event : QueuedEvent → Queue Unit
store_event e = do
  modify (λ s. record s { events = insert (new_row e) s.events })
  modify (λ s. record s { runs = update_where (is_run e.run_id) (apply_event e) s.runs })

unfoldable pub append_to_run : EventType → Fields → ℕ → LocalRun → Queue QueuedEvent
append_to_run type payload occurred_at r =
    if is_terminal r.status then raise (already_terminal r.run_id) else (do
      last ← gets (λ s. last_seq_of r.run_id s.events)
      id ← uuid7
      let e = new_queued_event r type payload occurred_at (last + 1) id
      store_event e
      pure e)

-- _append_event_in_transaction, and append_event, which makes the same check once more before
unfoldable pub append_event : ℕ → EventType → Fields → ℕ → Queue QueuedEvent
append_event run_id type payload occurred_at =
    on_option (unsafe_key (object payload))
      (do
        row ← gets (λ s. find_where (is_run run_id) s.runs)
        on_option row (raise (unknown_run run_id)) (append_to_run type payload occurred_at))
      (λ key. raise (forbidden_field key))

-- The keyword arguments of create_run.
pub record RunFiles : Type 0 where
  pub manifest_path : String
  pub log_path : String
  pub result_path : String
  pub socket_path : String
  pub tmux_session : Option String

unfoldable pub new_local_run : ℕ → ℕ → String → String → String → RunFiles → ℕ → LocalRun
new_local_run run_id machine_id title source policy files now = record {
  run_id = run_id;
  machine_id = machine_id;
  title = title;
  source = source;
  status = ExecutionStatus.created;
  progress_json = none;
  phase = none;
  safe_message = none;
  exit_code = none;
  started_at = none;
  updated_at = now;
  ended_at = none;
  manifest_path = files.manifest_path;
  log_path = files.log_path;
  result_path = files.result_path;
  socket_path = files.socket_path;
  tmux_session = files.tmux_session;
  worker_pid = none;
  process_group = none;
  remote_initialized = false;
  live_activity_policy = policy;
}

abbrev pub created_payload : String → String → Fields
created_payload title source = field "title" (string title) (
    field "source" (string source)
      (field "health_status" (string "HEALTHY") (field "attention_status" (string "NONE") done)))

-- create_run; the primary key refuses a run that is there.
unfoldable pub create_run : ℕ → ℕ → String → String → String → RunFiles → ℕ → Queue QueuedEvent
create_run run_id machine_id title source policy files now = do
  taken ← gets (λ s. exists_where (is_run run_id) s.runs)
  if taken then raise (run_exists run_id) else (do
    modify (λ s. record s {
      runs = insert (new_local_run run_id machine_id title source policy files now) s.runs;
    })
    append_event run_id EventType.run_created (created_payload title source) now)

unfoldable pub set_runtime : Option ℕ → Option ℕ → LocalRun → LocalRun
set_runtime worker_pid process_group r = record r {
  worker_pid = or_some worker_pid r.worker_pid;
  process_group = or_some process_group r.process_group;
}

unfoldable pub update_runtime : ℕ → Option ℕ → Option ℕ → Queue Unit
update_runtime run_id worker_pid process_group = modify (λ s. record s {
  runs = update_where (is_run run_id) (set_runtime worker_pid process_group) s.runs;
})

unfoldable pub mark_remote_initialized : ℕ → Queue Unit
mark_remote_initialized run_id = modify (λ s. record s {
  runs = update_where (is_run run_id) (λ r. record r { remote_initialized = true }) s.runs;
})

abbrev pub has_undelivered : ℕ → Store → Bool
has_undelivered run_id s = exists_where (λ r. is_of run_id r && not r.delivered) s.events

-- The WHERE clause of terminal_runs_before.
unfoldable pub is_removable : ℕ → Bool → Store → LocalRun → Bool
is_removable cutoff include_unsynced s r =
    is_terminal r.status
    && ltb (or_else r.ended_at r.updated_at) cutoff
    && (include_unsynced || not (has_undelivered r.run_id s))

-- ORDER BY COALESCE(ended_at, updated_at) ASC
abbrev pub ends_before : LocalRun → LocalRun → Bool
ends_before a b = leb (or_else a.ended_at a.updated_at) (or_else b.ended_at b.updated_at)

unfoldable pub terminal_runs_before : ℕ → Bool → ℕ → Store → List LocalRun
terminal_runs_before cutoff include_unsynced limit s =
    select_page (is_removable cutoff include_unsynced s) ends_before limit s.runs

unfoldable pub delete_runs : List ℕ → Queue Unit
delete_runs ids = modify (λ s. record s {
  events = delete_where (λ (r : EventRow). is_one_of ids r.event.run_id) s.events;
  runs = delete_where (λ (r : LocalRun). is_one_of ids r.run_id) s.runs;
})

-- ORDER BY run_id, seq
abbrev pub comes_before : EventRow → EventRow → Bool
comes_before a b =
    ltb a.event.run_id b.event.run_id
    || a.event.run_id == b.event.run_id && leb a.event.seq b.event.seq

abbrev pub is_deliverable_row : Option ℕ → ℕ → EventRow → Bool
is_deliverable_row run_id now r =
    not r.delivered
    && leb r.next_attempt_at now
    && elim run_id [ none ↦ true | some id ↦ is_of id r ]

unfoldable pub pending_rows : ℕ → Option ℕ → ℕ → Store → List EventRow
pending_rows limit run_id now s =
    select_page (is_deliverable_row run_id now) comes_before limit s.events

unfoldable pub pending_events : ℕ → Option ℕ → ℕ → Store → List QueuedEvent
unfolding pending_rows
pending_events limit run_id now s =
    map (λ (r : EventRow). r.event) (pending_rows limit run_id now s)

unfoldable pub pending_event_count : Store → ℕ
pending_event_count s = count_where (λ (r : EventRow). not r.delivered) s.events

unfoldable pub retry_all_pending_now : Queue Unit
retry_all_pending_now = modify (λ s. record s {
  events =
      update_where (λ (r : EventRow). not r.delivered) (λ r. record r { next_attempt_at = 0 })
        s.events;
  metadata = map (λ (m : MetadataRow). record m { next_attempt_at = 0 }) s.metadata;
})

unfoldable pub mark_delivered : List ℕ → Queue Unit
mark_delivered ids = modify (λ s. record s {
  events =
      update_where (λ (r : EventRow). is_one_of ids r.event.event_id)
        (λ r. record r { delivered = true; last_error = none }) s.events;
})

unfoldable pub mark_failed : List ℕ → RemoteError → ℕ → ℕ → Queue Unit
mark_failed ids error delay now = modify (λ s. record s {
  events =
      update_where (λ (r : EventRow). is_one_of ids r.event.event_id)
        (λ r. record r {
          attempt_count = r.attempt_count + 1;
          last_error = some error;
          next_attempt_at = now + delay;
        })
        s.events;
})
