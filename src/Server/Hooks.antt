-- ===== src/Server/Hooks.antt =====
-- Notifications and webhooks of server/app/api.py, after their rate limits.
pub mod Replay
use run_buoy.Prelude.{
  ℕ, ◌+◌, Bool, true, false, not, ◌&&◌, ◌||◌, Option, none, some, String, List, [], ◌∷◌, ◌==◌, leb,
  length, if◌then◌else◌, is_none, is_some, or_else,
}
use run_buoy.Prelude.Table.{find_where, count_where, update_where, insert}
use run_buoy.Prelude.Exec.{pure, raise, gets, modify, ◌>>=◌, ◌>>◌, on_option}
use run_buoy.Server.Enums.{EventType, AttentionStatus, is_terminal}
use run_buoy.Server.Rows.{
  ℤ, Progress, EventPayload, Run, DedupeKey, api_key, hook_key, Notification,
}
use run_buoy.Server.Accounts.{Webhook, workspace_webhooks_lock, machine_active_runs_lock}
use run_buoy.Server.Auth.{Principal}
use run_buoy.Server.Quota.{acquire_quota_lock}
use run_buoy.Server.Notify.{NotificationCreate, create_notification, bump_workspace_revision}
use run_buoy.Server.Ingest.{EventInput, Progressed, ingest_events}
use run_buoy.Server.Runs.{RunUpsert, is_active_of, is_run}
use run_buoy.Server.Database.{
  Database, Settings, resource_quota_exceeded, terminal_run_immutable, run_not_found,
  webhook_not_found, invalid_webhook_credential, webhook_machine_mismatch, Handler, new_id,
}

-- post_notification
unfoldable pub post_notification :
    Settings → Principal → NotificationCreate → Option ℕ → ℕ → Handler Notification
post_notification settings principal body idempotency_key now =
    create_notification settings principal.workspace_id (some principal.subject_id) body
      (elim idempotency_key [ none ↦ none | some k ↦ some (api_key principal.subject_id k) ]) now

abbrev pub is_hook : ℕ → Webhook → Bool
is_hook id w = w.id == id

unfoldable pub is_live_hook : ℕ → Webhook → Bool
is_live_hook workspace_id w = w.workspace_id == workspace_id && is_none w.revoked_at

unfoldable pub new_hook : Principal → String → ℕ → ℕ → ℕ → Webhook
new_hook principal name digest now id = record {
  id = id;
  workspace_id = principal.workspace_id;
  machine_id = principal.subject_id;
  name = name;
  token_hash = digest;
  created_at = now;
  revoked_at = none;
}

-- create_webhook; the digest is that of a new random secret.
unfoldable pub create_webhook : Settings → Principal → String → ℕ → ℕ → Handler ℕ
create_webhook settings principal name digest now = do
  acquire_quota_lock (workspace_webhooks_lock principal.workspace_id) now
  hooks ← gets (λ db. count_where (is_live_hook principal.workspace_id) db.webhooks)
  if leb settings.max_webhooks_per_workspace hooks
      then raise (resource_quota_exceeded "webhooks" settings.max_webhooks_per_workspace)
      else do
        id ← new_id
        modify (λ db. record db {
          webhooks = insert (new_hook principal name digest now id) db.webhooks;
        })
        pure id

-- revoke_webhook
unfoldable pub revoke_webhook : Principal → ℕ → ℕ → Handler Unit
revoke_webhook principal hook_id now = do
  found ← gets (λ db. find_where (is_hook hook_id) db.webhooks)
  on_option found (raise webhook_not_found) (λ w.
      if not (w.machine_id == principal.subject_id)
      then raise webhook_not_found
      else modify (λ db. record db {
        webhooks =
            update_where (is_hook hook_id) (λ v. record v { revoked_at = some now }) db.webhooks;
      }))

-- _webhook_auth, with the digest of the bearer value
unfoldable pub webhook_auth : ℕ → ℕ → Handler Webhook
webhook_auth hook_id digest = do
  found ← gets (λ db. find_where (is_hook hook_id) db.webhooks)
  on_option found (raise invalid_webhook_credential) (λ w.
      if is_some w.revoked_at || not (w.token_hash == digest)
      then raise invalid_webhook_credential
      else pure w)

-- webhook_notification
unfoldable pub webhook_notification :
    Settings → Webhook → NotificationCreate → Option ℕ → ℕ → Handler Notification
webhook_notification settings hook body idempotency_key now =
    create_notification settings hook.workspace_id (some hook.machine_id) body
      (elim idempotency_key [ none ↦ none | some k ↦ some (hook_key hook.id k) ]) now

-- The run as the body describes it.
unfoldable pub new_hook_run : Webhook → ℕ → ℕ → RunUpsert → ℕ → Run
new_hook_run hook external_run_id run_id body now = record {
  id = run_id;
  workspace_id = hook.workspace_id;
  machine_id = hook.machine_id;
  title = body.title;
  source = some (or_else body.source "webhook");
  execution_status = body.execution_status;
  health_status = body.health_status;
  attention_status = body.attention_status;
  progress = body.progress;
  phase = body.phase;
  safe_message = body.safe_message;
  safe_log_tail = none;
  created_at = now;
  started_at = body.started_at;
  updated_at = now;
  ended_at = none;
  exit_code = none;
  termination_reason = none;
  live_activity_policy = body.live_activity_policy;
  notification_policy = body.notification_policy;
  last_seq = 0;
  external_key = some (hook.id, external_run_id);
}

-- `source or run.source`
unfoldable pub rename_run : RunUpsert → Run → Run
rename_run body r = record r {
  title = body.title;
  source = if is_some body.source then body.source else r.source;
}

-- schemas.WebhookRunEvent
pub record WebhookRunEvent : Type 0 where
  pub type : EventType
  pub occurred_at : Option ℕ
  pub progress : Option Progress
  pub phase : Option String
  pub message : Option String
  pub exit_code : Option ℤ
  pub termination_reason : Option String
  pub attention_status : Option AttentionStatus

-- exclude_none: a value that is there, or no key
abbrev pub present : {A : Type 0} → Option A → Option (Option A)
present none = none
present (some a) = some (some a)

unfoldable pub payload_of : WebhookRunEvent → EventPayload
payload_of body = record {
  progress = present body.progress;
  phase = present body.phase;
  message = present body.message;
  attention_status = present body.attention_status;
  exit_code = present body.exit_code;
  termination_reason = present body.termination_reason;
  safe_log_tail = none;
}

unfoldable pub hook_event : Webhook → Run → WebhookRunEvent → ℕ → ℕ → EventInput
hook_event hook run body event_id now = record {
  schema_version = 1;
  event_id = event_id;
  run_id = run.id;
  machine_id = hook.machine_id;
  seq = run.last_seq + 1;
  type = body.type;
  occurred_at = or_else body.occurred_at now;
  payload = payload_of body;
}

abbrev pub event_id_for : (ℕ → ℕ) → Option ℕ → ℕ → ℕ
event_id_for of_key none random = random
event_id_for of_key (some k) random = of_key k

-- `run_id_of` is `deterministic_webhook_run_id`, and `event_id_of` the name-based identifier of an
-- event; both are digests of their arguments.
module _ (run_id_of event_id_of : ℕ → ℕ → ℕ) where
  unfoldable pub register_hook_run : Settings → Webhook → ℕ → ℕ → RunUpsert → ℕ → Handler Run
  register_hook_run settings hook external_run_id run_id body now = do
    acquire_quota_lock (machine_active_runs_lock hook.machine_id) now
    active ← gets (λ db. count_where (is_active_of hook.machine_id) db.runs)
    if not (is_terminal body.execution_status) && leb settings.max_active_runs_per_machine active
        then raise (resource_quota_exceeded "active_runs" settings.max_active_runs_per_machine)
        else do
          let run = new_hook_run hook external_run_id run_id body now
          modify (λ db. record db { runs = insert run db.runs })
          pure run

  -- webhook_run_upsert
  unfoldable pub webhook_run_upsert : Settings → Webhook → ℕ → RunUpsert → ℕ → Handler Run
  webhook_run_upsert settings hook external_run_id body now =
      if not (body.machine_id == hook.machine_id) then raise webhook_machine_mismatch else do
        let run_id = run_id_of hook.id external_run_id
        found ← gets (λ db. find_where (is_run run_id) db.runs)
        run ←
            on_option found (register_hook_run settings hook external_run_id run_id body now) (λ r.
              if is_terminal r.execution_status then raise terminal_run_immutable else (do
                modify (λ db. record db {
                  runs = update_where (is_run run_id) (rename_run body) db.runs;
                })
                pure (rename_run body r)))
        bump_workspace_revision hook.workspace_id
        pure run

  -- webhook_run_event; without a key the identifier is a new random one.
  unfoldable pub webhook_run_event :
      Settings
      → (ℕ → String)
      → Webhook
      → ℕ
      → WebhookRunEvent
      → Option ℕ
      → ℕ
      → ℕ
      → Handler Progressed
  webhook_run_event settings id_text hook external_run_id body idempotency_key random now = do
    found ← gets (λ db. find_where (is_run (run_id_of hook.id external_run_id)) db.runs)
    on_option found (raise run_not_found) (λ run. do
      result ← ingest_events settings id_text now run (
          hook_event hook run body (event_id_for (event_id_of hook.id) idempotency_key random) now
          ∷ [])
      if leb (length result.inserted) 0
          then pure tt
          else (bump_workspace_revision hook.workspace_id >> pure tt)
      pure result)
