-- ===== src/Server/Schedule.antt =====
-- The pushes that one event of a run causes: `schedule_run_pushes` of server/app/services.py.
pub mod Stable
pub mod Frame
use run_buoy.Prelude.{
  ℕ, ◌+◌, ◌-◌, ◌*◌, ◌<◌, max, Bool, true, false, not, ◌&&◌, ◌||◌, Option, none, some, String, List,
  [], ◌∷◌, ◌==◌, ltb, if◌then◌else◌, is_none, is_some, opt_eq, or_else,
}
use run_buoy.Prelude.Table.{find_where, exists_where, select_where, update_where}
use run_buoy.Prelude.Exec.{pure, gets, modify, ◌>>=◌, ◌>>◌, on_option, for_each}
use run_buoy.Server.Enums.{
  ExecutionStatus, EventType, PushKind, live_start, live_update, live_end, TargetType, OutboxStatus,
  Level, is_terminal, is_failure, is_succeeded, is_start_event, is_progress_event, is_pending,
  is_sent, is_live_start, is_deliverable, is_disabled, is_immediate,
}
use run_buoy.Server.Rows.{
  seconds, Progress, Device, Machine, Run, Binding, PushOutbox, CoalesceKey, live_key,
  live_start_key, terminal_fallback, key_eq,
}
use run_buoy.Server.Payload.{live_payload, priority_of, text_or, fraction_of, within}
use run_buoy.Server.Outbox.{PushRequest, coalesce_outbox}
use run_buoy.Server.Notify.{NotificationCreate, is_subscribed, create_fallback_notification}
use run_buoy.Server.Database.{Database, Settings, Handler}

-- The display name of the run's machine; `missing` is what stands for an unknown machine.
unfoldable pub machine_name_of : Database → Run → String → String
machine_name_of db run missing =
    elim (find_where (λ (m : Machine). m.id == run.machine_id) db.machines) [
      | none ↦ missing
      | some m ↦ m.display_name
    ]

-- _subscribed_devices
unfoldable pub subscribed_devices : Database → Run → List Device
subscribed_devices db run =
    select_where (λ d. is_subscribed db.subscriptions run.machine_id d.id && is_none d.revoked_at)
      db.devices

unfoldable pub wants_live_start : Run → Device → Bool
wants_live_start run d =
    not (is_disabled run.live_activity_policy)
    && d.live_activities_enabled
    && is_some d.push_to_start_token_encrypted

unfoldable pub start_request : Settings → Run → ℕ → String → Device → PushRequest
start_request settings run now machine_name d = record {
  kind = live_start;
  target_type = TargetType.device;
  target_id = d.id;
  run_id = some run.id;
  payload = live_payload run live_start now machine_name;
  priority = priority_of run live_start none none;
  available_at =
      or_else run.started_at now
      + seconds (
          if is_immediate run.live_activity_policy
          then 0
          else settings.live_activity_start_delay_seconds);
  coalesce_key = live_start_key run.id d.id;
}

-- The branch for `run.started` and `run.starting`.
unfoldable pub schedule_starts : Settings → Run → ℕ → String → Handler Unit
schedule_starts settings run now machine_name = do
  devices ← gets (λ db. subscribed_devices db run)
  for_each devices (λ d.
      if wants_live_start run d
      then (coalesce_outbox (start_request settings run now machine_name d) now >> pure tt)
      else pure tt)

abbrev pub is_start_of : Run → PushOutbox → Bool
is_start_of run o = opt_eq o.run_id (some run.id) && is_live_start o.kind

abbrev pub is_pending_start : Run → PushOutbox → Bool
is_pending_start run o = is_start_of run o && is_pending o.status

unfoldable pub refresh_start : Run → ℕ → String → PushOutbox → PushOutbox
refresh_start run now machine_name o = record o {
  desired_payload = live_payload run live_start now machine_name;
  priority = max o.priority (priority_of run live_start none none);
  updated_at = now;
}

unfoldable pub cancel_start : ℕ → PushOutbox → PushOutbox
cancel_start now o = record o { status = OutboxStatus.cancelled; updated_at = now }

unfoldable pub refresh_starts : Run → ℕ → String → Handler Unit
refresh_starts run now machine_name = modify (λ db. record db {
  outbox = update_where (is_pending_start run) (refresh_start run now machine_name) db.outbox;
})

unfoldable pub cancel_starts : Run → ℕ → Handler Unit
cancel_starts run now =
    modify (λ db. record db {
      outbox = update_where (is_pending_start run) (cancel_start now) db.outbox;
    })

abbrev pub sent_start_exists : Database → Run → Bool
sent_start_exists db run = exists_where (λ o. is_start_of run o && is_sent o.status) db.outbox

-- `duration is not None and duration > 5`
abbrev pub ran_longer_than_five_seconds : Run → Bool
ran_longer_than_five_seconds run = elim run.started_at [
  | none ↦ false
  | some s ↦ elim run.ended_at [ none ↦ false | some e ↦ ltb (s + seconds 5) e ]
]

unfoldable pub fallback_body : Run → Level → String → NotificationCreate
fallback_body run level default = record {
  title = run.title;
  subtitle = none;
  body = text_or run.safe_message default;
  level = level;
  run_id = some run.id;
  expires_at = none;
}

-- `f"Run {run.execution_status.lower()}"` for the two failures
abbrev pub failure_text : Run → String
failure_text run = elim run.execution_status [
  | ExecutionStatus.lost ↦ "Run lost"
  | _ ↦ "Run failed"
]

-- The notification that a terminal run falls back to when no Live Activity was started for it.
unfoldable pub terminal_fallback_push : Settings → Run → ℕ → Handler Unit
terminal_fallback_push settings run now = do
  sent ← gets (λ db. sent_start_exists db run)
  if is_failure run.execution_status && not sent
      then create_fallback_notification settings run.workspace_id run.machine_id
          (fallback_body run Level.error (failure_text run)) (terminal_fallback run.id) now
      else if is_succeeded run.execution_status && ran_longer_than_five_seconds run && not sent
      then create_fallback_notification settings run.workspace_id run.machine_id
          (fallback_body run Level.success "Run succeeded") (terminal_fallback run.id) now
      else pure tt

unfoldable pub is_delivering : Run → Binding → Bool
is_delivering run b =
    b.run_id == run.id
    && is_deliverable b.state
    && is_none b.invalidated_at
    && is_some b.update_push_token_encrypted

abbrev later : Option ℕ → ℕ → Option ℕ
later none t = some t
later (some s) t = some (max s t)

-- The instant of the last push that was sent under a key: ORDER BY updated_at DESC LIMIT 1.
unfoldable pub latest_sent : CoalesceKey → List PushOutbox → Option ℕ
latest_sent key [] = none
latest_sent key (o ∷ rest) =
    let found = latest_sent key rest in
    if key_eq o.coalesce_key key && is_sent o.status then later found o.updated_at else found

unfoldable pub update_interval : Settings → Database → Binding → ℕ
update_interval settings db b = elim (find_where (λ (d : Device). d.id == b.device_id) db.devices) [
  | none ↦ settings.live_activity_update_interval_seconds
  | some d ↦
      if d.frequent_live_activity_updates_enabled
      then settings.live_activity_update_interval_seconds
      else max settings.live_activity_update_interval_seconds 15
]

-- When an update may go out: a progress update waits for the interval since the last one sent, and a
-- change of less than one percent waits for a whole interval from now.
unfoldable pub binding_available_at :
    Settings → Database → Run → EventType → Option Progress → ℕ → Binding → ℕ
binding_available_at settings db run event_type previous_progress now b =
    if is_terminal run.execution_status
    then now
    else if not (is_progress_event event_type)
    then now
    else if within 10000 (fraction_of run.progress) (fraction_of previous_progress)
    then now + seconds (update_interval settings db b)
    else elim (latest_sent (live_key run.id b.device_id) db.outbox) [
      | none ↦ now
      | some t ↦ max now (t + seconds (update_interval settings db b))
    ]

unfoldable pub binding_request :
    Settings → Database → Run → EventType → Option Progress → ℕ → String → Binding → PushRequest
binding_request settings db run event_type previous_progress now machine_name b =
    let kind : PushKind = if is_terminal run.execution_status then live_end else live_update in
    record {
      kind = kind;
      target_type = TargetType.activity;
      target_id = b.id;
      run_id = some run.id;
      payload = live_payload run kind now machine_name;
      priority = priority_of run kind (some event_type) previous_progress;
      available_at = binding_available_at settings db run event_type previous_progress now b;
      coalesce_key = live_key run.id b.device_id;
    }

unfoldable pub schedule_binding :
    Settings → Run → EventType → Option Progress → ℕ → String → Binding → Handler Unit
schedule_binding settings run event_type previous_progress now machine_name b = do
  request ←
      gets (λ db. binding_request settings db run event_type previous_progress now machine_name b)
  coalesce_outbox request now
  pure tt

unfoldable pub schedule_bindings :
    Settings → Run → EventType → Option Progress → ℕ → String → Handler Unit
schedule_bindings settings run event_type previous_progress now machine_name = do
  bindings ← gets (λ db. select_where (is_delivering run) db.bindings)
  for_each bindings (schedule_binding settings run event_type previous_progress now machine_name)

-- schedule_run_pushes; `id_text` is the machine's identifier as a text.
unfoldable pub schedule_run_pushes :
    Settings → (ℕ → String) → Run → EventType → Option Progress → ℕ → Handler Unit
schedule_run_pushes settings id_text run event_type previous_progress now = do
  machine_name ← gets (λ db. machine_name_of db run (id_text run.machine_id))
  if is_start_event event_type then schedule_starts settings run now machine_name else do
    refresh_starts run now machine_name
    if is_terminal run.execution_status
        then (cancel_starts run now >> terminal_fallback_push settings run now)
        else pure tt
    schedule_bindings settings run event_type previous_progress now machine_name
