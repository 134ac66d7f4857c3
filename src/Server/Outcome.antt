-- ===== src/Server/Outcome.antt =====
-- What `OutboxProcessor.process_one` of server/app/outbox.py writes into the rows: the assignments to
-- an item, a binding and a device, and the row of an attempt.
use run_buoy.Prelude.{ℕ, ◌+◌, ◌-◌, ◌/◌, ◌%◌, ◌^◌, min, none, some, ltb, if◌then◌else◌}
use run_buoy.Server.Enums.{OutboxStatus, BindingState, is_live_start}
use run_buoy.Server.Rows.{
  seconds, Device, Binding, pending_activity, PushError, PushOutbox, PushAttempt,
}
use run_buoy.Server.Payload.{ApnsResult}

unfoldable pub settle : OutboxStatus → PushError → ℕ → PushOutbox → PushOutbox
settle status error now o = record o { status = status; last_error = some error; updated_at = now }

-- The binding that an accepted start leaves until the device names its activity.
unfoldable pub started_binding : PushOutbox → ℕ → ℕ → ℕ → Binding
started_binding item run_id now id = record {
  id = id;
  run_id = run_id;
  device_id = item.target_id;
  activity_id = pending_activity item.id;
  update_push_token_encrypted = none;
  token_generation = 0;
  schema_version = 1;
  state = BindingState.active;
  last_sequence = 0;
  started_at = now;
  ended_at = none;
  invalidated_at = none;
}

unfoldable pub end_binding : BindingState → ℕ → Binding → Binding
end_binding state now b = record b { state = state; ended_at = some now }

unfoldable pub invalidate_binding : ℕ → Binding → Binding
invalidate_binding now b = record b {
  invalidated_at = some now;
  state = BindingState.invalidated;
  update_push_token_encrypted = none;
}

-- min(300, 2 ** min(attempt_count, 8))
unfoldable pub backoff_seconds : ℕ → ℕ
backoff_seconds attempts = min 300 (2 ^ min attempts 8)

-- The assignments to an item whose request was answered; the attempt count comes first.
unfoldable pub counted : PushOutbox → PushOutbox
counted o = record o { attempt_count = o.attempt_count + 1 }

unfoldable pub mark_sent : ℕ → PushOutbox → PushOutbox
mark_sent now o = record (counted o) { status = OutboxStatus.sent; updated_at = now }

unfoldable pub mark_failed : PushError → ℕ → PushOutbox → PushOutbox
mark_failed error now o = settle OutboxStatus.failed error now (counted o)

unfoldable pub mark_retry : PushError → ℕ → PushOutbox → PushOutbox
mark_retry error now o = record (counted o) {
  status = OutboxStatus.pending;
  available_at = now + seconds (backoff_seconds (o.attempt_count + 1));
  last_error = some error;
  updated_at = now;
}

unfoldable pub clear_token : PushOutbox → Device → Device
clear_token item d =
    if is_live_start item.kind
    then record d { push_to_start_token_encrypted = none }
    else record d { notification_token_encrypted = none }

-- round(duration * 1000), to the nearest millisecond and to an even one between two
rounded_ms : ℕ → ℕ
rounded_ms t =
    if ltb (t % 1000) 500
    then t / 1000
    else if ltb 500 (t % 1000)
    then t / 1000 + 1
    else t / 1000 + t / 1000 % 2

unfoldable pub new_attempt : PushOutbox → ApnsResult → ℕ → ℕ → ℕ → PushAttempt
unfolding rounded_ms
new_attempt item result latency now id = record {
  id = id;
  outbox_id = item.id;
  attempted_at = now;
  queue_latency_ms = rounded_ms (now - item.created_at);
  provider_latency_ms = latency;
  status_code = result.status_code;
  apns_id = result.apns_id;
  reason = result.reason;
}
