-- ===== src/Server/Devices.antt =====
-- The endpoints of server/app/api.py that a device calls for itself, after their rate limits.
pub mod Bootstrap
use run_buoy.Prelude.{
  ℕ, ◌+◌, Bool, true, false, not, ◌&&◌, ◌||◌, Option, none, some, String, List, [], ◌∷◌, ◌==◌, ltb,
  if◌then◌else◌, is_none, is_some, or_else,
}
use run_buoy.Prelude.Table.{find_where, exists_where, update_where, insert}
use run_buoy.Prelude.Exec.{pure, raise, gets, modify, ◌>>=◌, ◌>>◌, on_option}
use run_buoy.Server.Enums.{
  Scope, runs_read, machines_read, notifications_read, devices_register_token,
  live_activities_register_token, pairing_claim, preferences_write, subscriptions_delete,
  device_principal,
}
use run_buoy.Server.Rows.{Device}
use run_buoy.Server.Accounts.{AuditAction, device_bootstrap_lock}
use run_buoy.Server.Auth.{Principal, is_device_principal, audit}
use run_buoy.Server.Quota.{acquire_quota_lock}
use run_buoy.Server.Notify.{bump_workspace_revision}
use run_buoy.Server.Lifecycle.{stop_receiving_subscription}
use run_buoy.Server.Database.{
  Database, device_ownership_mismatch, device_not_found, installation_already_registered,
  stale_token_generation, Handler, new_id,
}

-- DEVICE_SCOPES
abbrev pub device_scopes : List Scope
device_scopes =
    runs_read ∷ machines_read ∷ notifications_read ∷ devices_register_token
    ∷ live_activities_register_token ∷ pairing_claim ∷ preferences_write ∷ subscriptions_delete ∷ []

-- schemas.DeviceBootstrapRequest
pub record DeviceBootstrapRequest : Type 0 where
  pub installation_id : ℕ
  pub app_version : Option String
  pub os_version : Option String

unfoldable pub new_device : DeviceBootstrapRequest → ℕ → ℕ → ℕ → Device
new_device body workspace_id now id = record {
  id = id;
  workspace_id = workspace_id;
  installation_id = body.installation_id;
  app_version = body.app_version;
  os_version = body.os_version;
  notification_token_encrypted = none;
  notification_token_generation = 0;
  push_to_start_token_encrypted = none;
  push_to_start_token_generation = 0;
  live_activities_enabled = true;
  frequent_live_activity_updates_enabled = true;
  failure_notifications_enabled = true;
  success_notifications_enabled = true;
  last_seen_at = now;
  revoked_at = none;
}

-- The principal that a new device has.
abbrev pub device_principal_for : ℕ → ℕ → Principal
device_principal_for device_id workspace_id = record {
  kind = device_principal;
  subject_id = device_id;
  workspace_id = workspace_id;
  scopes = device_scopes;
}

-- The rows of a new workspace with its device; the digest is that of a new random token.
unfoldable pub add_device : DeviceBootstrapRequest → ℕ → ℕ → Handler Principal
add_device body digest now = do
  workspace_id ← new_id
  modify (λ db. record db {
    workspaces =
        insert (record { id = workspace_id; created_at = now; revision = 0 }) db.workspaces;
  })
  device_id ← new_id
  modify
      (λ db. record db { devices = insert (new_device body workspace_id now device_id) db.devices })
  credential_id ← new_id
  modify (λ db. record db {
    device_credentials =
        insert
          (record {
            id = credential_id;
            subject_id = device_id;
            token_hash = digest;
            scopes = device_scopes;
            created_at = now;
            revoked_at = none;
          })
          db.device_credentials;
  })
  audit (device_principal_for device_id workspace_id) AuditAction.device_bootstrap now
  pure (device_principal_for device_id workspace_id)

-- bootstrap_device
unfoldable pub bootstrap_device : DeviceBootstrapRequest → ℕ → ℕ → Handler Principal
bootstrap_device body digest now = do
  acquire_quota_lock (device_bootstrap_lock body.installation_id) now
  registered ←
      gets
        (λ db. exists_where (λ (d : Device). d.installation_id == body.installation_id) db.devices)
  if registered then raise installation_already_registered else add_device body digest now

-- _device_owned
unfoldable pub device_owned : Principal → ℕ → Handler Device
device_owned principal device_id =
    if not (is_device_principal principal.kind) || not (principal.subject_id == device_id)
    then raise device_ownership_mismatch
    else do
      found ← gets (λ db. find_where (λ (d : Device). d.id == device_id) db.devices)
      on_option found (raise device_not_found)
          (λ d. if is_some d.revoked_at then raise device_not_found else pure d)

unfoldable pub change_device : ℕ → (Device → Device) → Handler Unit
change_device device_id f =
    modify (λ db. record db { devices = update_where (λ d. d.id == device_id) f db.devices })

-- schemas.TokenRegistration; a generation is at least one.
pub record TokenRegistration : Type 0 where
  pub token : ℕ
  pub generation : Option ℕ

-- `generation is not None and generation < current`
unfoldable pub is_stale_generation : Option ℕ → ℕ → Bool
is_stale_generation generation current = elim generation [ none ↦ false | some g ↦ ltb g current ]

-- `encrypt` is the cipher of the stored tokens.
module _ (encrypt : ℕ → ℕ) where
  unfoldable pub set_notification_token : TokenRegistration → ℕ → Device → Device
  set_notification_token body now d = record d {
    notification_token_encrypted = some (encrypt body.token);
    notification_token_generation = or_else body.generation (d.notification_token_generation + 1);
    last_seen_at = now;
  }

  unfoldable pub set_push_to_start_token : TokenRegistration → ℕ → Device → Device
  set_push_to_start_token body now d = record d {
    push_to_start_token_encrypted = some (encrypt body.token);
    push_to_start_token_generation = or_else body.generation (d.push_to_start_token_generation + 1);
    last_seen_at = now;
  }

  -- register_notification_token
  unfoldable pub register_notification_token : Principal → ℕ → TokenRegistration → ℕ → Handler Unit
  register_notification_token principal device_id body now = do
    d ← device_owned principal device_id
    if is_stale_generation body.generation d.notification_token_generation
        then raise stale_token_generation
        else change_device device_id (set_notification_token body now)

  -- register_push_to_start_token
  unfoldable pub register_push_to_start_token : Principal → ℕ → TokenRegistration → ℕ → Handler Unit
  register_push_to_start_token principal device_id body now = do
    d ← device_owned principal device_id
    if is_stale_generation body.generation d.push_to_start_token_generation
        then raise stale_token_generation
        else change_device device_id (set_push_to_start_token body now)

-- schemas.DevicePreferencesPatch
pub record DevicePreferencesPatch : Type 0 where
  pub live_activities_enabled : Option Bool
  pub failure_notifications_enabled : Option Bool
  pub success_notifications_enabled : Option Bool

unfoldable pub set_preferences : DevicePreferencesPatch → Device → Device
set_preferences body d = record d {
  live_activities_enabled = or_else body.live_activities_enabled d.live_activities_enabled;
  failure_notifications_enabled =
      or_else body.failure_notifications_enabled d.failure_notifications_enabled;
  success_notifications_enabled =
      or_else body.success_notifications_enabled d.success_notifications_enabled;
}

-- update_preferences
unfoldable pub update_preferences : Principal → DevicePreferencesPatch → Handler Device
update_preferences principal body = do
  d ← device_owned principal principal.subject_id
  change_device principal.subject_id (set_preferences body)
  pure (set_preferences body d)

-- delete_subscription
unfoldable pub delete_subscription : Principal → ℕ → ℕ → Handler Unit
delete_subscription principal subscription_id now = do
  stop_receiving_subscription principal subscription_id now
  bump_workspace_revision principal.workspace_id
  pure tt
