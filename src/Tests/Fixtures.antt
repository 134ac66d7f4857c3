-- ===== src/Tests/Fixtures.antt =====
-- A workspace with one machine, one device that receives from it, and one run.
use run_buoy.Prelude.{ℕ, true, false, none, some, String, List, [], ◌∷◌}
use run_buoy.Prelude.Exec.{Result, ok, err}
use run_buoy.Server.Enums.{
  ExecutionStatus, HealthStatus, AttentionStatus, EventType, Policy, PushKind, TargetType,
  OutboxStatus, NotificationPolicy,
}
use run_buoy.Server.Rows.{seconds, Device, Run, EventPayload, PushOutbox, alert, notification_key}
use run_buoy.Server.Enums.{Level}
use run_buoy.Server.Database.{Database, Settings}
use run_buoy.Server.Ingest.{EventInput}

abbrev pub value_or {ℓ} : {E A : Type ℓ} → Result E A → A → A
value_or (ok a) d = a
value_or (err e) d = d

abbrev pub settings : Settings
settings = record {
  live_activity_start_delay_seconds = 5;
  live_activity_update_interval_seconds = 1;
  live_activity_max_per_device = 2;
  live_activity_pending_ttl_seconds = 300;
  outbox_max_attempts = 6;
  rate_limit_fail_open = false;
  rate_limit_bucket_retention_seconds = 3600;
  max_notifications_per_workspace_day = 1000;
  event_retention_hours = 24;
  run_retention_days = 30;
  notification_retention_days = 30;
  push_attempt_retention_days = 7;
  outbox_terminal_retention_days = 7;
  safe_log_tail_retention_hours = 24;
  retention_cleanup_batch_size = 500;
  workspace_deletion_challenge_ttl_seconds = 300;
  max_events_per_batch = 100;
  pairing_ttl_seconds = 300;
  pairing_retention_hours = 24;
  audit_retention_days = 90;
  max_machines_per_workspace = 25;
  max_active_runs_per_machine = 100;
  max_pending_pairings_per_ip = 10;
  max_webhooks_per_workspace = 50;
  rate_limit_device_bootstrap_per_hour = 20;
  rate_limit_pairing_create_per_hour = 30;
  rate_limit_pairing_poll_per_minute = 120;
  rate_limit_run_upsert_per_minute = 120;
  rate_limit_event_batch_per_minute = 240;
  rate_limit_notification_per_minute = 60;
  rate_limit_webhook_event_per_minute = 240;
}

abbrev pub id_text : ℕ → String
id_text _ = "machine"

abbrev pub phone : Device
phone = record {
  id = 3;
  workspace_id = 1;
  installation_id = 30;
  app_version = none;
  os_version = none;
  notification_token_encrypted = some 31;
  notification_token_generation = 1;
  push_to_start_token_encrypted = some 32;
  push_to_start_token_generation = 1;
  live_activities_enabled = true;
  frequent_live_activity_updates_enabled = true;
  failure_notifications_enabled = true;
  success_notifications_enabled = true;
  last_seen_at = 0;
  revoked_at = none;
}

abbrev pub new_run : Run
new_run = record {
  id = 10;
  workspace_id = 1;
  machine_id = 2;
  title = "python";
  source = some "cli";
  execution_status = ExecutionStatus.created;
  health_status = HealthStatus.healthy;
  attention_status = AttentionStatus.nothing;
  progress = none;
  phase = none;
  safe_message = none;
  safe_log_tail = none;
  created_at = 0;
  started_at = none;
  updated_at = 0;
  ended_at = none;
  exit_code = none;
  termination_reason = none;
  live_activity_policy = Policy.automatic;
  notification_policy = NotificationPolicy.failures;
  last_seq = 0;
  external_key = none;
}

abbrev pub paired : Database
paired = record {
  workspaces = (record { id = 1; created_at = 0; revision = 0 }) ∷ [];
  challenges = [];
  devices = phone ∷ [];
  device_credentials = [];
  machines =
      (record {
        id = 2;
        workspace_id = 1;
        display_name = "Build Mac";
        hostname = none;
        platform = none;
        architecture = none;
        cli_version = none;
        last_seen_at = 0;
        paired_at = 0;
        revoked_at = none;
      })
      ∷ [];
  machine_credentials = [];
  subscriptions = (record { id = 4; machine_id = 2; device_id = 3; created_at = 0 }) ∷ [];
  buckets = [];
  runs = new_run ∷ [];
  events = [];
  notifications = [];
  bindings = [];
  outbox = [];
  attempts = [];
  pairings = [];
  webhooks = [];
  quota_locks = [];
  audit_logs = [];
  next_id = 100;
  is_postgresql = true;
  signals = 0;
}

abbrev pub no_payload : EventPayload
no_payload = record {
  progress = none;
  phase = none;
  message = none;
  attention_status = none;
  exit_code = none;
  termination_reason = none;
  safe_log_tail = none;
}

abbrev pub event_at : ℕ → EventType → EventInput
event_at seq type = record {
  schema_version = 1;
  event_id = seq;
  run_id = 10;
  machine_id = 2;
  seq = seq;
  type = type;
  occurred_at = seconds seq;
  payload = no_payload;
}

-- A batch out of order, which the code sorts.
abbrev pub start_batch : List EventInput
start_batch = event_at 2 EventType.run_started ∷ event_at 1 EventType.run_created ∷ []

abbrev pub end_batch : List EventInput
end_batch = event_at 3 EventType.run_failed ∷ []

abbrev pub waiting : ℕ → ℕ → ℕ → PushOutbox
waiting id priority at = record {
  id = id;
  kind = PushKind.notification;
  target_type = TargetType.device;
  target_id = 3;
  run_id = none;
  desired_payload = alert "Done" "Build" none id Level.info none;
  priority = priority;
  available_at = at;
  attempt_count = 0;
  status = OutboxStatus.pending;
  last_error = none;
  coalesce_key = notification_key id 3;
  created_at = at;
  updated_at = at;
}
