-- ===== src/Server/Database.antt =====
-- The tables that the modelled code reads and writes, the settings of server/app/config.py that it
-- uses, and the errors that it raises.
use run_buoy.Prelude.{ℕ, ◌+◌, Bool, String, List}
use run_buoy.Prelude.Exec.{Exec, ok}
use run_buoy.Server.Enums.{ExecutionStatus}
use run_buoy.Server.Rows.{
  Workspace, DeletionChallenge, Device, Credential, Machine, Subscription, Bucket, Run, RunEvent,
  Notification, Binding, PushOutbox, PushAttempt,
}
use run_buoy.Server.Accounts.{PairingSession, Webhook, QuotaLock, AuditLog}

-- `next_id` is the next identifier that `new_id` gives out; `signals` counts the calls of pg_notify.
pub record Database : Type 0 where
  pub workspaces : List Workspace
  pub challenges : List DeletionChallenge
  pub devices : List Device
  pub device_credentials : List Credential
  pub machines : List Machine
  pub machine_credentials : List Credential
  pub subscriptions : List Subscription
  pub buckets : List Bucket
  pub runs : List Run
  pub events : List RunEvent
  pub notifications : List Notification
  pub bindings : List Binding
  pub outbox : List PushOutbox
  pub attempts : List PushAttempt
  pub pairings : List PairingSession
  pub webhooks : List Webhook
  pub quota_locks : List QuotaLock
  pub audit_logs : List AuditLog
  pub next_id : ℕ
  pub is_postgresql : Bool
  pub signals : ℕ

pub record Settings : Type 0 where
  pub live_activity_start_delay_seconds : ℕ
  pub live_activity_update_interval_seconds : ℕ
  pub live_activity_max_per_device : ℕ
  pub live_activity_pending_ttl_seconds : ℕ
  pub outbox_max_attempts : ℕ
  pub rate_limit_fail_open : Bool
  pub rate_limit_bucket_retention_seconds : ℕ
  pub max_notifications_per_workspace_day : ℕ
  pub event_retention_hours : ℕ
  pub run_retention_days : ℕ
  pub notification_retention_days : ℕ
  pub push_attempt_retention_days : ℕ
  pub outbox_terminal_retention_days : ℕ
  pub safe_log_tail_retention_hours : ℕ
  pub retention_cleanup_batch_size : ℕ
  pub workspace_deletion_challenge_ttl_seconds : ℕ
  pub max_events_per_batch : ℕ
  pub pairing_ttl_seconds : ℕ
  pub pairing_retention_hours : ℕ
  pub audit_retention_days : ℕ
  pub max_machines_per_workspace : ℕ
  pub max_active_runs_per_machine : ℕ
  pub max_pending_pairings_per_ip : ℕ
  pub max_webhooks_per_workspace : ℕ
  pub rate_limit_device_bootstrap_per_hour : ℕ
  pub rate_limit_pairing_create_per_hour : ℕ
  pub rate_limit_pairing_poll_per_minute : ℕ
  pub rate_limit_run_upsert_per_minute : ℕ
  pub rate_limit_event_batch_per_minute : ℕ
  pub rate_limit_notification_per_minute : ℕ
  pub rate_limit_webhook_event_per_minute : ℕ

pub data Error : Type 0 where
  terminal_immutable event_replay_mismatch sequence_taken out_of_order ownership_mismatch : Error
  illegal_transition : ExecutionStatus → ExecutionStatus → Error
  rate_limit_exceeded : String → ℕ → ℕ → ℕ → Error
  notification_quota_exceeded : ℕ → ℕ → Error
  accounting_unavailable token_undecryptable : Error
  workspace_missing : ℕ → Error
  -- auth.py and lifecycle.py
  missing_credential invalid_credential missing_scope : Error
  device_credential_required machine_credential_required : Error
  device_ownership_mismatch machine_ownership_mismatch : Error
  subscription_not_found machine_not_found device_not_found workspace_not_found : Error
  confirmation_mismatch invalid_deletion_challenge : Error
  -- abuse.py and api.py
  resource_quota_exceeded : String → ℕ → Error
  installation_already_registered stale_token_generation : Error
  pairing_not_found pairing_expired pairing_already_claimed pairing_challenge_mismatch : Error
  machine_already_paired invalid_pairing_secret pairing_not_claimed : Error
  pairing_already_exchanged run_not_found run_ownership_mismatch terminal_run_immutable : Error
  event_batch_too_large : ℕ → ℕ → Error
  invalid_history_cursor sync_cursor_ahead missing_sync_scopes : Error
  webhook_not_found invalid_webhook_credential webhook_machine_mismatch : Error

-- A handler in its transaction.
abbrev pub Handler : Type 0 → Type 0
Handler A = Exec Error Database A

-- new_id: the generator of server/app/security.py gives out growing values.
unfoldable pub new_id : Handler ℕ
new_id db = ok (db.next_id, record db { next_id = db.next_id + 1 })
