-- ===== src/Tests/Queue.antt =====
-- The queue of one run, from its creation to its upload.
use run_buoy.Prelude.{
  arith, ℕ, ◌+◌, ◌*◌, ◌≤◌, ◌≡◌, refl, ◌⊎◌, true, false, none, some, String, [], ◌∷◌, ◌++◌, length,
}
use run_buoy.Prelude.Exec.{ok, err, ◌>>=◌, on_option}
use run_buoy.Server.Rows.{pos}
use run_buoy.Server.Enums.{EventType}
use run_buoy.Cli.Redaction.{
  Json, null, number, object, array, item, nil, Fields, done, field, lower_code, lower,
  is_forbidden, first_some, unsafe_key, Occurs, unsafe_key_lem,
}
use run_buoy.Cli.Queue.{
  pending_event_count, get_field, apply_event, new_row, uuid7, new_queued_event, store_event,
  append_to_run, append_event, RunFiles, new_local_run, create_run, pending_rows, pending_events,
  mark_delivered, mark_failed, mark_remote_initialized,
}
use run_buoy.Cli.Store.{QueuedEvent, Store, already_terminal}
use run_buoy.Cli.Queue.Sequence.{
  IsContiguous, queued_seqs, append_event-IsContiguous, terminal_event_closes,
}
use run_buoy.Cli.Queue.Order.{Upload, pending_rows-Upload}
use run_buoy.Cli.Metadata.{
  newest_due, mark_machine_metadata_delivered, mark_machine_metadata_failed,
}
use run_buoy.Cli.Sync.{
  Request, Response, answered, request_error, retry_delay, send_metadata, flush_metadata,
  initialize_remote, upload_group, flush_group, flush_groups, flush_pending, drain_pending,
}
use run_buoy.Cli.Sync.Kept.{Faithful, drain_pending-Faithful}
use run_buoy.Cli.Sync.Bounds.{drain_pending_bound}
use run_buoy.Cli.Sync.Unbounded.{DrainsAll, drain_pending-DrainsAll}
use run_buoy.Tests.Fixtures.{value_or}

abbrev files : RunFiles
files = record {
  manifest_path = "m";
  log_path = "l";
  result_path = "r";
  socket_path = "s";
  tmux_session = none;
}

abbrev empty : Store
empty = record { runs = []; events = []; metadata = []; next_id = 1 }

abbrev no_event : QueuedEvent
no_event = record {
  event_id = 0;
  run_id = 0;
  machine_id = 0;
  seq = 0;
  type = EventType.run_heartbeat;
  occurred_at = 0;
  payload = done;
}

-- Opens what appending and uploading call.
abbrev queueing : Unit {0}
unfolding ◌>>=◌ on_option lower_code lower is_forbidden first_some unsafe_key get_field apply_event
    new_row uuid7 new_queued_event store_event append_to_run append_event new_local_run create_run
    pending_rows pending_events mark_delivered mark_failed mark_remote_initialized newest_due
    mark_machine_metadata_delivered mark_machine_metadata_failed request_error retry_delay
    send_metadata flush_metadata initialize_remote upload_group flush_group flush_groups
    flush_pending drain_pending
queueing = tt

opened : QueuedEvent × Store
opened = value_or (create_run 7 2 "python" "cli" "automatic" files 1000 empty) (no_event, empty)

abbrev exit_payload : Fields
exit_payload = field "exit_code" (number (pos 0)) done

closed : QueuedEvent × Store
closed = value_or (append_event 7 EventType.run_succeeded exit_payload 2000 opened.1) opened

closed_ok : append_event 7 EventType.run_succeeded exit_payload 2000 opened.1 ≡ ok closed
unfolding queueing opened closed
closed_ok = refl

opened-IsContiguous : IsContiguous opened.1
unfolding queueing opened
opened-IsContiguous = record { at_run = λ id. ground arith }

append_event-IsContiguous_example :
    IsContiguous closed.1
    × (closed.0.seq ≡ length (queued_seqs 7 opened.1.events) + 1)
    × (queued_seqs 7 closed.1.events ≡ queued_seqs 7 opened.1.events ++ closed.0.seq ∷ [])
append_event-IsContiguous_example =
    append_event-IsContiguous 7 EventType.run_succeeded exit_payload 2000 opened.1 {e = closed.0}
      {t = closed.1} opened-IsContiguous closed_ok

exit_payload_safe : unsafe_key (object exit_payload) ≡ none
unfolding queueing
exit_payload_safe = refl

terminal_event_closes_example :
    append_event 7 EventType.run_heartbeat exit_payload 3000 closed.1 ≡ err (already_terminal 7)
terminal_event_closes_example =
    terminal_event_closes 7 EventType.run_succeeded EventType.run_heartbeat exit_payload
      exit_payload 2000 3000 opened.1 {e = closed.0} {t = closed.1} refl exit_payload_safe closed_ok

pending_rows-Upload_example : Upload none 5000 1 closed.1.events (pending_rows 1 none 5000 closed.1)
pending_rows-Upload_example = pending_rows-Upload 1 none 5000 closed.1

abbrev command_inside : Json
command_inside = object (field "items" (array (item (object (field "Command" null done)) nil)) done)

unsafe_key_example :
    ((unsafe_key command_inside ≡ none)
      × ((key : String) → Occurs key command_inside → is_forbidden key ≡ false))
    ⊎ ((key : String) × (unsafe_key command_inside ≡ some key)
        × Occurs key command_inside
        × (is_forbidden key ≡ true))
unsafe_key_example = unsafe_key_lem command_inside

command_inside_refused : unsafe_key command_inside ≡ some "Command"
unfolding queueing
command_inside_refused = refl

-- A server that accepts every request.
abbrev accepting : ℕ → Request → Response
accepting _ _ = answered 200

sent : ℕ × Store
sent = value_or (drain_pending accepting (λ n. 5000 + n) 1 none 5 0 0 closed.1) (0, empty)

sent_ok : drain_pending accepting (λ n. 5000 + n) 1 none 5 0 0 closed.1 ≡ ok sent
unfolding queueing opened closed sent
sent_ok = refl

sent_all : sent.0 ≡ 2
unfolding queueing opened closed sent
sent_all = refl

drain_pending-Faithful_example : Faithful accepting closed.1.events sent.1.events
drain_pending-Faithful_example =
    drain_pending-Faithful accepting (λ n. 5000 + n) 1 none 5 closed.1 {n = sent.0} {t = sent.1}
      sent_ok

drain_pending_bound_example :
    (n : ℕ) × (t : Store) × (drain_pending accepting (λ n. 5000 + n) 1 none 5 0 0 closed.1
      ≡ ok (n, t))
    × (n ≤ 5 * 1)
drain_pending_bound_example = drain_pending_bound accepting (λ n. 5000 + n) 1 none 5 closed.1

drain_pending-DrainsAll_example :
    (n : ℕ) × (t : Store) × DrainsAll accepting (λ n. 5000 + n) 1 none 0 0 closed.1 n t
    × (drain_pending accepting
          (λ n. 5000 + n)
          1
          none
          (pending_event_count closed.1 + 1)
          0
          0
          closed.1
        ≡ ok (n, t))
drain_pending-DrainsAll_example =
    drain_pending-DrainsAll accepting (λ n. 5000 + n) 1 none closed.1 (omega arith)
