-- ===== src/Server/Runs.antt =====
-- The endpoints of server/app/api.py that a machine calls for its runs, after their rate limits.
pub mod Quota
pub mod Authority
use run_buoy.Prelude.{
  ℕ, ◌+◌, Bool, true, false, not, ◌&&◌, ◌||◌, Option, none, some, String, List, [], ◌∷◌, ◌==◌, ltb,
  leb, length, if◌then◌else◌, is_none, is_some, or_else,
}
use run_buoy.Prelude.Table.{find_where, count_where, update_where, insert}
use run_buoy.Prelude.Exec.{pure, raise, gets, modify, ◌>>=◌, ◌>>◌, on_option}
use run_buoy.Server.Enums.{
  ExecutionStatus, HealthStatus, AttentionStatus, Policy, NotificationPolicy, is_terminal,
  status_eq,
}
use run_buoy.Server.Rows.{Progress, Machine, Run}
use run_buoy.Server.Accounts.{machine_active_runs_lock}
use run_buoy.Server.Auth.{Principal, is_device_principal}
use run_buoy.Server.Quota.{acquire_quota_lock}
use run_buoy.Server.Notify.{bump_workspace_revision}
use run_buoy.Server.Ingest.{EventInput, Progressed, ingest_events}
use run_buoy.Server.Database.{
  Database, Settings, machine_ownership_mismatch, machine_not_found, run_not_found,
  run_ownership_mismatch, terminal_run_immutable, resource_quota_exceeded, event_batch_too_large,
  Handler,
}

-- schemas.RunUpsert; the instant and the progress of the body are read by the webhooks only.
pub record RunUpsert : Type 0 where
  pub machine_id : ℕ
  pub title : String
  pub source : Option String
  pub cli_version : Option String
  pub execution_status : ExecutionStatus
  pub health_status : HealthStatus
  pub attention_status : AttentionStatus
  pub progress : Option Progress
  pub phase : Option String
  pub safe_message : Option String
  pub started_at : Option ℕ
  pub live_activity_policy : Policy
  pub notification_policy : NotificationPolicy

-- _machine_owned
unfoldable pub machine_owned : Principal → ℕ → Handler Machine
machine_owned principal machine_id =
    if is_device_principal principal.kind || not (principal.subject_id == machine_id)
    then raise machine_ownership_mismatch
    else do
      found ← gets (λ db. find_where (λ (m : Machine). m.id == machine_id) db.machines)
      on_option found (raise machine_not_found)
          (λ m. if is_some m.revoked_at then raise machine_not_found else pure m)

-- The run's machine was seen, and tells its version.
unfoldable pub touch_machine : RunUpsert → ℕ → Machine → Machine
touch_machine body now m = record m {
  last_seen_at = now;
  cli_version = if is_some body.cli_version then body.cli_version else m.cli_version;
}

-- The status in a body is not taken over: events alone change it.
unfoldable pub new_run : Principal → ℕ → RunUpsert → ℕ → Run
new_run principal run_id body now = record {
  id = run_id;
  workspace_id = principal.workspace_id;
  machine_id = body.machine_id;
  title = body.title;
  source = body.source;
  execution_status = ExecutionStatus.created;
  health_status = HealthStatus.healthy;
  attention_status = AttentionStatus.nothing;
  progress = none;
  phase = none;
  safe_message = none;
  safe_log_tail = none;
  created_at = now;
  started_at = none;
  updated_at = now;
  ended_at = none;
  exit_code = none;
  termination_reason = none;
  live_activity_policy = body.live_activity_policy;
  notification_policy = body.notification_policy;
  last_seq = 0;
  external_key = none;
}

-- The assignments to a run that is there.
unfoldable pub describe_run : RunUpsert → Run → Run
describe_run body r = record r {
  title = body.title;
  source = body.source;
  health_status = body.health_status;
  attention_status = body.attention_status;
  live_activity_policy = body.live_activity_policy;
  notification_policy = body.notification_policy;
}

abbrev pub is_active_of : ℕ → Run → Bool
is_active_of machine_id r = r.machine_id == machine_id && not (is_terminal r.execution_status)

abbrev pub is_run : ℕ → Run → Bool
is_run id r = r.id == id

-- A run that is not there, within the quota of its machine.
unfoldable pub register_run : Settings → Principal → ℕ → RunUpsert → ℕ → Handler Run
register_run settings principal run_id body now = do
  acquire_quota_lock (machine_active_runs_lock body.machine_id) now
  active ← gets (λ db. count_where (is_active_of body.machine_id) db.runs)
  if leb settings.max_active_runs_per_machine active
      then raise (resource_quota_exceeded "active_runs" settings.max_active_runs_per_machine)
      else do
        modify (λ db. record db { runs = insert (new_run principal run_id body now) db.runs })
        pure (new_run principal run_id body now)

unfoldable pub refresh_run : Principal → RunUpsert → Run → Handler Run
refresh_run principal body r =
    if not (r.machine_id == principal.subject_id)
    then raise run_ownership_mismatch
    else if is_terminal r.execution_status
        && not (status_eq body.execution_status r.execution_status)
    then raise terminal_run_immutable
    else do
      modify (λ db. record db { runs = update_where (is_run r.id) (describe_run body) db.runs })
      pure (describe_run body r)

-- upsert_run
unfoldable pub upsert_run : Settings → Principal → ℕ → RunUpsert → ℕ → Handler Run
upsert_run settings principal run_id body now = do
  machine_owned principal body.machine_id
  modify (λ db. record db {
    machines = update_where (λ m. m.id == body.machine_id) (touch_machine body now) db.machines;
  })
  found ← gets (λ db. find_where (is_run run_id) db.runs)
  run ←
      on_option found (register_run settings principal run_id body now) (refresh_run principal body)
  bump_workspace_revision principal.workspace_id
  pure run

-- ingest_run_events
unfoldable pub ingest_run_events :
    Settings → (ℕ → String) → Principal → ℕ → List EventInput → ℕ → Handler Progressed
ingest_run_events settings id_text principal run_id events now =
    if ltb settings.max_events_per_batch (length events)
    then raise (event_batch_too_large settings.max_events_per_batch (length events))
    else do
      found ← gets (λ db. find_where (is_run run_id) db.runs)
      on_option found (raise run_not_found) (λ run. do
        machine_owned principal run.machine_id
        result ← ingest_events settings id_text now run events
        if leb (length result.inserted) 0
            then pure tt
            else (bump_workspace_revision principal.workspace_id >> pure tt)
        pure result)
