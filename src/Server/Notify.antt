-- ===== src/Server/Notify.antt =====
-- Notifications of server/app/services.py, and the revision of server/app/sync.py.
use run_buoy.Prelude.{
  ℕ, ◌+◌, Bool, true, false, not, ◌&&◌, ◌||◌, Option, none, some, String, List, ◌==◌, if◌then◌else◌,
  is_none, is_some,
}
use run_buoy.Prelude.Table.{find_where, exists_where, select_where, update_where, insert}
use run_buoy.Prelude.Exec.{pure, raise, gets, modify, ◌>>=◌, ◌>>◌, on_option, catch, for_each}
use run_buoy.Server.Enums.{Level, PushKind, TargetType, is_success_level, is_error_level}
use run_buoy.Server.Rows.{
  Device, Subscription, DedupeKey, Notification, notification_key, dedupe_eq,
}
use run_buoy.Server.Payload.{normal_payload}
use run_buoy.Server.Quota.{enforce_notification_daily_quota}
use run_buoy.Server.Outbox.{PushRequest, coalesce_outbox}
use run_buoy.Server.Database.{
  Database, Settings, Error, notification_quota_exceeded, workspace_missing, Handler, new_id,
}

-- bump_workspace_revision
unfoldable pub bump_workspace_revision : ℕ → Handler ℕ
bump_workspace_revision workspace_id = do
  row ← gets (λ db. find_where (λ w. w.id == workspace_id) db.workspaces)
  on_option row (raise (workspace_missing workspace_id)) (λ w. do
    modify (λ db. record db {
      workspaces =
          update_where (λ v. v.id == workspace_id) (λ v. record v { revision = v.revision + 1 })
            db.workspaces;
    })
    pure (w.revision + 1))

-- schemas.NotificationCreate
pub record NotificationCreate : Type 0 where
  pub title : String
  pub subtitle : Option String
  pub body : String
  pub level : Level
  pub run_id : Option ℕ
  pub expires_at : Option ℕ

unfoldable pub is_subscribed : List Subscription → ℕ → ℕ → Bool
is_subscribed subs machine_id device_id =
    exists_where (λ s. s.machine_id == machine_id && s.device_id == device_id) subs

-- The query of `_schedule_notification_push`; the join keeps a device once, since a machine and a
-- device have one subscription.
unfoldable pub wants_notification : Database → Notification → Device → Bool
wants_notification db n d =
    d.workspace_id == n.workspace_id
    && is_none d.revoked_at
    && is_some d.notification_token_encrypted
    && elim n.machine_id [ none ↦ true | some m ↦ is_subscribed db.subscriptions m d.id ]

-- The two `continue` statements of its loop.
unfoldable pub is_muted : Level → Device → Bool
is_muted level d =
    is_success_level level && not d.success_notifications_enabled
    || is_error_level level && not d.failure_notifications_enabled

unfoldable pub notification_request : Notification → ℕ → ℕ → Device → PushRequest
notification_request n priority now d = record {
  kind = PushKind.notification;
  target_type = TargetType.device;
  target_id = d.id;
  run_id = n.run_id;
  payload = normal_payload n;
  priority = priority;
  available_at = now;
  coalesce_key = notification_key n.id d.id;
}

-- _schedule_notification_push
unfoldable pub schedule_notification_push : Notification → ℕ → ℕ → Handler Unit
schedule_notification_push n priority now = do
  devices ← gets (λ db. select_where (wants_notification db n) db.devices)
  for_each devices (λ d.
      if is_muted n.level d
      then pure tt
      else (coalesce_outbox (notification_request n priority now d) now >> pure tt))

unfoldable pub has_dedupe_key : ℕ → DedupeKey → Notification → Bool
has_dedupe_key workspace_id key n =
    n.workspace_id == workspace_id && elim n.dedupe_key [ none ↦ false | some k ↦ dedupe_eq k key ]

unfoldable pub new_notification :
    ℕ → Option ℕ → NotificationCreate → Option DedupeKey → ℕ → ℕ → Notification
new_notification workspace_id machine_id body dedupe_key now id = record {
  id = id;
  workspace_id = workspace_id;
  machine_id = machine_id;
  run_id = body.run_id;
  title = body.title;
  subtitle = body.subtitle;
  body = body.body;
  level = body.level;
  dedupe_key = dedupe_key;
  created_at = now;
  expires_at = body.expires_at;
}

unfoldable pub add_notification : Notification → Handler Unit
add_notification n = modify (λ db. record db { notifications = insert n db.notifications })

unfoldable pub publish_notification : Notification → ℕ → Handler Notification
publish_notification n now = do
  add_notification n
  bump_workspace_revision n.workspace_id
  schedule_notification_push n 10 now
  pure n

-- The part of `create_notification` after its dedupe test.
unfoldable pub insert_notification :
    Settings → ℕ → Option ℕ → NotificationCreate → Option DedupeKey → ℕ → Handler Notification
insert_notification settings workspace_id machine_id body dedupe_key now = do
  enforce_notification_daily_quota settings workspace_id now
  id ← new_id
  publish_notification (new_notification workspace_id machine_id body dedupe_key now id) now

-- create_notification
unfoldable pub create_notification :
    Settings → ℕ → Option ℕ → NotificationCreate → Option DedupeKey → ℕ → Handler Notification
create_notification settings workspace_id machine_id body dedupe_key now = do
  existing ← gets (λ db. elim dedupe_key [
    | none ↦ none
    | some key ↦ find_where (has_dedupe_key workspace_id key) db.notifications
  ])
  on_option existing (insert_notification settings workspace_id machine_id body dedupe_key now) pure

-- Only an exhausted daily quota is swallowed.
unfoldable pub quota_only : Error → Handler Unit
quota_only (notification_quota_exceeded limit retry_after) = pure tt
quota_only e = raise e

-- _create_fallback_notification
unfoldable pub create_fallback_notification :
    Settings → ℕ → ℕ → NotificationCreate → DedupeKey → ℕ → Handler Unit
unfolding quota_only
create_fallback_notification settings workspace_id machine_id body dedupe_key now =
    catch
      (create_notification settings workspace_id (some machine_id) body (some dedupe_key) now
        >> pure tt)
      quota_only
