-- ===== src/Server/Lifecycle.antt =====
-- Revocation and reset of server/app/lifecycle.py.
pub mod Deletion
pub mod Ownership
pub mod Revoked
pub mod Deleted
pub mod Challenge
use run_buoy.Prelude.{
  ℕ, Bool, true, false, not, ◌&&◌, ◌||◌, Option, none, some, List, [], ◌∷◌, ◌++◌, map, ◌==◌,
  if◌then◌else◌, is_none,
}
use run_buoy.Prelude.Table.{
  find_where, select_where, exists_where, count_where, update_where, delete_where, is_one_of,
}
use run_buoy.Prelude.Exec.{pure, raise, gets, modify, ◌>>=◌, ◌>>◌, on_option}
use run_buoy.Server.Enums.{OutboxStatus, BindingState, is_pending, is_device}
use run_buoy.Server.Rows.{
  Device, Credential, Machine, Subscription, Run, Notification, Binding, CoalesceKey,
  notification_key, PushError, device_reset, machine_revoked, stopped_receiving, PushOutbox, key_eq,
}
use run_buoy.Server.Accounts.{Webhook, AuditAction}
use run_buoy.Server.Notify.{bump_workspace_revision}
use run_buoy.Server.Auth.{Principal, is_device_principal, require_device, require_machine, audit}
use run_buoy.Server.Database.{
  Database, subscription_not_found, machine_not_found, device_not_found, device_ownership_mismatch,
  machine_ownership_mismatch, Handler,
}

-- _machine_run_ids
unfoldable pub machine_run_ids : ℕ → Database → List ℕ
machine_run_ids machine_id db =
    map (λ (r : Run). r.id) (select_where (λ r. r.machine_id == machine_id) db.runs)

-- _device_binding_ids
unfoldable pub device_binding_ids : ℕ → List ℕ → List Binding → List ℕ
device_binding_ids device_id run_ids bindings =
    map (λ (b : Binding). b.id)
      (select_where (λ b. b.device_id == device_id && is_one_of run_ids b.run_id) bindings)

abbrev pub binding_ids_of_each : List ℕ → List ℕ → List Binding → List ℕ
binding_ids_of_each [] run_ids bindings = []
binding_ids_of_each (d ∷ ds) run_ids bindings =
    device_binding_ids d run_ids bindings ++ binding_ids_of_each ds run_ids bindings

abbrev pub keys_of_each : List Notification → List ℕ → List CoalesceKey
keys_of_each [] device_ids = []
keys_of_each (n ∷ ns) device_ids =
    map (notification_key n.id) device_ids ++ keys_of_each ns device_ids

abbrev pub is_of_machine : ℕ → Option ℕ → Bool
is_of_machine machine_id none = false
is_of_machine machine_id (some m) = m == machine_id

-- _machine_notification_keys
unfoldable pub machine_notification_keys : ℕ → List ℕ → Database → List CoalesceKey
machine_notification_keys machine_id device_ids db =
    keys_of_each
      (select_where (λ (n : Notification). is_of_machine machine_id n.machine_id) db.notifications)
      device_ids

abbrev pub is_id_among : List ℕ → Option ℕ → Bool
is_id_among ids none = false
is_id_among ids (some i) = is_one_of ids i

-- The WHERE clause of `_cancel_pending_pushes`.
unfoldable pub is_push_to : ℕ → List ℕ → Database → PushOutbox → Bool
is_push_to machine_id device_ids db o =
    let run_ids = machine_run_ids machine_id db in
    let binding_ids = binding_ids_of_each device_ids run_ids db.bindings in
    is_pending o.status
    && (is_id_among run_ids o.run_id
          && (is_device o.target_type && is_one_of device_ids o.target_id
              || not (is_device o.target_type) && is_one_of binding_ids o.target_id)
        || exists_where (key_eq o.coalesce_key)
            (machine_notification_keys machine_id device_ids db))

unfoldable pub cancel_push : PushError → ℕ → PushOutbox → PushOutbox
cancel_push reason now o = record o {
  status = OutboxStatus.cancelled;
  last_error = some reason;
  updated_at = now;
}

-- _cancel_pending_pushes; without devices it cancels nothing, since its clause then holds of no row.
unfoldable pub cancel_pending_pushes : ℕ → List ℕ → PushError → ℕ → Handler ℕ
cancel_pending_pushes machine_id device_ids reason now = do
  cancelled ← gets (λ db. count_where (is_push_to machine_id device_ids db) db.outbox)
  modify (λ db. record db {
    outbox = update_where (is_push_to machine_id device_ids db) (cancel_push reason now) db.outbox;
  })
  pure cancelled

-- stop_receiving_subscription
unfoldable pub stop_receiving_subscription : Principal → ℕ → ℕ → Handler Unit
stop_receiving_subscription principal subscription_id now = do
  require_device principal
  found ← gets (λ db. find_where (λ (s : Subscription). s.id == subscription_id) db.subscriptions)
  on_option found (raise subscription_not_found) (λ s. do
    owner ← gets (λ db. find_where (λ (m : Machine). m.id == s.machine_id) db.machines)
    on_option owner (raise subscription_not_found) (λ m.
        if s.device_id == principal.subject_id && m.workspace_id == principal.workspace_id
        then (do
          cancelled ←
              cancel_pending_pushes s.machine_id (principal.subject_id ∷ []) stopped_receiving now
          modify (λ db. record db {
            subscriptions = delete_where (λ t. t.id == subscription_id) db.subscriptions;
          })
          audit principal (AuditAction.subscription_stop_receiving m.id cancelled) now)
        else raise subscription_not_found))

unfoldable pub revoke_credential : ℕ → Credential → Credential
revoke_credential now c = record c { revoked_at = some now }

unfoldable pub revoke_hook : ℕ → Webhook → Webhook
revoke_hook now w = record w { revoked_at = some now }

unfoldable pub close_binding : ℕ → Binding → Binding
close_binding now b = record b {
  state = BindingState.invalidated;
  invalidated_at = some now;
  ended_at = some now;
  update_push_token_encrypted = none;
}

unfoldable pub subscriber_ids : ℕ → Database → List ℕ
subscriber_ids machine_id db =
    map (λ (s : Subscription). s.device_id)
      (select_where (λ s. s.machine_id == machine_id) db.subscriptions)

abbrev pub is_credential_of : ℕ → Credential → Bool
is_credential_of id c = c.subject_id == id && is_none c.revoked_at

-- The five updates of `_revoke_machine` after the pushes.
unfoldable pub close_machine : ℕ → ℕ → Database → Database
close_machine machine_id now db =
    let run_ids = machine_run_ids machine_id db in
    record db {
      machine_credentials =
          update_where (is_credential_of machine_id) (revoke_credential now) db.machine_credentials;
      webhooks =
          update_where (λ w. w.machine_id == machine_id && is_none w.revoked_at) (revoke_hook now)
            db.webhooks;
      subscriptions = delete_where (λ s. s.machine_id == machine_id) db.subscriptions;
      bindings =
          update_where (λ b. is_one_of run_ids b.run_id && is_none b.invalidated_at)
            (close_binding now) db.bindings;
      machines =
          update_where (λ m. m.id == machine_id) (λ m. record m { revoked_at = some now })
            db.machines;
    }

-- _revoke_machine
unfoldable pub revoke_found_machine : Principal → Machine → ℕ → Handler Unit
revoke_found_machine principal machine now = do
  device_ids ← gets (subscriber_ids machine.id)
  cancelled ← cancel_pending_pushes machine.id device_ids machine_revoked now
  credentials ← gets (λ db. count_where (is_credential_of machine.id) db.machine_credentials)
  modify (close_machine machine.id now)
  audit principal (AuditAction.machine_revoke machine.id credentials cancelled) now
  bump_workspace_revision machine.workspace_id
  pure tt

-- The common part of the two endpoints, after their checks of the principal.
unfoldable pub revoke_owned_machine : Principal → ℕ → ℕ → Handler Unit
revoke_owned_machine principal machine_id now = do
  found ← gets (λ db. find_where (λ (m : Machine). m.id == machine_id) db.machines)
  on_option found (raise machine_not_found) (λ m.
      if not (m.workspace_id == principal.workspace_id)
      then raise machine_not_found
      else if is_none m.revoked_at
      then revoke_found_machine principal m now
      else pure tt)

-- revoke_machine
unfoldable pub revoke_machine : Principal → ℕ → ℕ → Handler Unit
revoke_machine principal machine_id now =
    require_device principal >> revoke_owned_machine principal machine_id now

-- revoke_machine_self
unfoldable pub revoke_machine_self : Principal → ℕ → ℕ → Handler Unit
revoke_machine_self principal machine_id now = do
  require_machine principal
  if principal.subject_id == machine_id
      then revoke_owned_machine principal machine_id now
      else raise machine_ownership_mismatch

-- The pending pushes to a device and to its bindings.
unfoldable pub is_push_to_device : ℕ → Database → PushOutbox → Bool
is_push_to_device device_id db o =
    let binding_ids =
      map (λ (b : Binding). b.id) (select_where (λ b. b.device_id == device_id) db.bindings) in
    is_pending o.status
    && (is_device o.target_type && o.target_id == device_id
        || not (is_device o.target_type) && is_one_of binding_ids o.target_id)

-- The updates of `reset_device`.
unfoldable pub close_device : ℕ → ℕ → Database → Database
close_device device_id now db = record db {
  outbox = update_where (is_push_to_device device_id db) (cancel_push device_reset now) db.outbox;
  device_credentials =
      update_where (is_credential_of device_id) (revoke_credential now) db.device_credentials;
  bindings = update_where (λ b. b.device_id == device_id) (close_binding now) db.bindings;
  subscriptions = delete_where (λ s. s.device_id == device_id) db.subscriptions;
  challenges = delete_where (λ c. c.device_id == device_id) db.challenges;
  devices =
      update_where (λ d. d.id == device_id)
        (λ d. record d {
          notification_token_encrypted = none;
          push_to_start_token_encrypted = none;
        })
        db.devices;
}

-- reset_device
unfoldable pub reset_device : Principal → ℕ → ℕ → Handler Unit
reset_device principal device_id now = do
  require_device principal
  if not (principal.subject_id == device_id) then raise device_ownership_mismatch else do
    found ← gets (λ db. find_where (λ (d : Device). d.id == device_id) db.devices)
    on_option found (raise device_not_found) (λ d.
        if not (d.workspace_id == principal.workspace_id) then raise device_not_found else do
          cancelled ← gets (λ db. count_where (is_push_to_device device_id db) db.outbox)
          modify (close_device device_id now)
          audit principal (AuditAction.device_reset cancelled) now
          bump_workspace_revision principal.workspace_id
          pure tt)
