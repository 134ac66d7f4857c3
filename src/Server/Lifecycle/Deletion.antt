-- ===== src/Server/Lifecycle/Deletion.antt =====
-- The deletion of a workspace in server/app/lifecycle.py.
use run_buoy.Prelude.{
  ℕ, ◌+◌, Bool, not, ◌&&◌, ◌||◌, none, some, List, [], ◌∷◌, ◌++◌, map, ◌==◌, leb, if◌then◌else◌,
  is_none,
}
use run_buoy.Prelude.Table.{
  find_where, select_where, exists_where, update_where, delete_where, insert, is_one_of,
}
use run_buoy.Prelude.Exec.{pure, raise, gets, modify, ◌>>=◌, ◌>>◌, on_option}
use run_buoy.Server.Enums.{is_device}
use run_buoy.Server.Rows.{
  seconds, Workspace, DeletionChallenge, Device, Machine, Subject, workspace_subject,
  machine_subject, webhook_subject, pairing_subject, subject_eq, Run, Binding, PushOutbox,
}
use run_buoy.Server.Accounts.{
  PairingSession, Webhook, AuditAction, LockKey, workspace_machines_lock, workspace_webhooks_lock,
  workspace_notifications_lock, machine_active_runs_lock, device_bootstrap_lock, lock_eq,
}
use run_buoy.Server.Auth.{Principal, require_device, audit}
use run_buoy.Server.Lifecycle.{is_id_among}
use run_buoy.Server.Database.{
  Database, Settings, workspace_not_found, confirmation_mismatch, invalid_deletion_challenge,
  Handler, new_id,
}

-- The challenge that is sent to the phone, and its end.
pub record IssuedChallenge : Type 0 where
  pub challenge : ℕ
  pub expires_at : ℕ

-- `token_hash` is the keyed digest of a token, and `raw` a new random token.
module _ (token_hash : ℕ → ℕ) where
  unfoldable pub new_challenge : Settings → Principal → ℕ → ℕ → ℕ → DeletionChallenge
  new_challenge settings principal raw now id = record {
    id = id;
    workspace_id = principal.workspace_id;
    device_id = principal.subject_id;
    token_hash = token_hash raw;
    created_at = now;
    expires_at = now + seconds settings.workspace_deletion_challenge_ttl_seconds;
    consumed_at = none;
  }

  -- create_workspace_deletion_challenge; `is_confirmed` says whether the text is "DELETE".
  unfoldable pub create_workspace_deletion_challenge :
      Settings → Principal → ℕ → Bool → ℕ → ℕ → Handler IssuedChallenge
  create_workspace_deletion_challenge settings principal workspace_id is_confirmed raw now = do
    require_device principal
    if not (workspace_id == principal.workspace_id)
        then raise workspace_not_found
        else if not is_confirmed
        then raise confirmation_mismatch
        else do
          modify (λ db. record db {
            challenges =
                delete_where
                  (λ c. c.workspace_id == workspace_id && c.device_id == principal.subject_id)
                  db.challenges;
          })
          id ← new_id
          modify (λ db. record db {
            challenges = insert (new_challenge settings principal raw now id) db.challenges;
          })
          audit principal AuditAction.workspace_deletion_challenge now
          pure (record {
            challenge = raw;
            expires_at = now + seconds settings.workspace_deletion_challenge_ttl_seconds;
          })

-- The rows that belong to a workspace through others.
pub record Owned : Type 0 where
  pub device_ids : List ℕ
  pub installation_ids : List ℕ
  pub machine_ids : List ℕ
  pub webhook_ids : List ℕ
  pub pairing_ids : List ℕ
  pub run_ids : List ℕ
  pub binding_ids : List ℕ
  pub outbox_ids : List ℕ

unfoldable pub owned_rows : ℕ → Database → Owned
owned_rows w db =
    let device_ids =
      map (λ (d : Device). d.id) (select_where (λ d. d.workspace_id == w) db.devices) in
    let run_ids = map (λ (r : Run). r.id) (select_where (λ r. r.workspace_id == w) db.runs) in
    let binding_ids =
      map (λ (b : Binding). b.id)
        (select_where (λ b. is_one_of device_ids b.device_id || is_one_of run_ids b.run_id)
          db.bindings) in
    record {
      device_ids = device_ids;
      installation_ids =
          map (λ (d : Device). d.installation_id)
            (select_where (λ d. d.workspace_id == w) db.devices);
      machine_ids =
          map (λ (m : Machine). m.id) (select_where (λ m. m.workspace_id == w) db.machines);
      webhook_ids =
          map (λ (h : Webhook). h.id) (select_where (λ h. h.workspace_id == w) db.webhooks);
      pairing_ids =
          map (λ (p : PairingSession). p.id)
            (select_where (λ p. is_id_among (w ∷ []) p.workspace_id) db.pairings);
      run_ids = run_ids;
      binding_ids = binding_ids;
      outbox_ids =
          map (λ (o : PushOutbox). o.id)
            (select_where
              (λ o.
                is_id_among run_ids o.run_id
                || is_device o.target_type && is_one_of device_ids o.target_id
                || not (is_device o.target_type) && is_one_of binding_ids o.target_id)
              db.outbox);
    }

-- rate_subject_keys
unfoldable pub rate_subject_keys : ℕ → Owned → List Subject
rate_subject_keys w owned =
    workspace_subject w ∷ map machine_subject owned.machine_ids
    ++ map webhook_subject owned.webhook_ids
    ++ map pairing_subject owned.pairing_ids

-- quota_lock_keys
unfoldable pub quota_lock_keys : ℕ → Owned → List LockKey
quota_lock_keys w owned =
    workspace_machines_lock w
      ∷ workspace_webhooks_lock w
      ∷ workspace_notifications_lock w
      ∷ map machine_active_runs_lock owned.machine_ids
    ++ map device_bootstrap_lock owned.installation_ids

-- _delete_workspace_rows
unfoldable pub delete_workspace_rows : ℕ → Database → Database
delete_workspace_rows w db =
    let owned = owned_rows w db in
    record db {
      buckets =
          delete_where (λ b. exists_where (subject_eq b.subject_key) (rate_subject_keys w owned))
            db.buckets;
      quota_locks =
          delete_where (λ l. exists_where (lock_eq l.lock_key) (quota_lock_keys w owned))
            db.quota_locks;
      attempts = delete_where (λ a. is_one_of owned.outbox_ids a.outbox_id) db.attempts;
      outbox = delete_where (λ o. is_one_of owned.outbox_ids o.id) db.outbox;
      events = delete_where (λ e. is_one_of owned.run_ids e.run_id) db.events;
      bindings = delete_where (λ b. is_one_of owned.run_ids b.run_id) db.bindings;
      subscriptions =
          delete_where
            (λ s.
              is_one_of owned.machine_ids s.machine_id || is_one_of owned.device_ids s.device_id)
            db.subscriptions;
      notifications = delete_where (λ n. n.workspace_id == w) db.notifications;
      webhooks = delete_where (λ h. h.workspace_id == w) db.webhooks;
      pairings = delete_where (λ p. is_id_among (w ∷ []) p.workspace_id) db.pairings;
      challenges = delete_where (λ c. c.workspace_id == w) db.challenges;
      audit_logs = delete_where (λ a. is_id_among (w ∷ []) a.workspace_id) db.audit_logs;
      device_credentials =
          delete_where (λ c. is_one_of owned.device_ids c.subject_id) db.device_credentials;
      machine_credentials =
          delete_where (λ c. is_one_of owned.machine_ids c.subject_id) db.machine_credentials;
      runs = delete_where (λ r. is_one_of owned.run_ids r.id) db.runs;
      devices = delete_where (λ d. d.workspace_id == w) db.devices;
      machines = delete_where (λ m. m.workspace_id == w) db.machines;
      workspaces = delete_where (λ v. v.id == w) db.workspaces;
    }

-- An expired challenge is deleted in a transaction that is committed before the request is refused.
pub data Deletion : Type 0 where
  deleted expired_challenge : Deletion

unfoldable pub is_open_challenge : ℕ → ℕ → DeletionChallenge → Bool
is_open_challenge workspace_id device_id c =
    c.workspace_id == workspace_id && c.device_id == device_id && is_none c.consumed_at

-- delete_workspace, with the digest of the challenge that was sent
unfoldable pub delete_workspace : Principal → ℕ → ℕ → ℕ → Handler Deletion
delete_workspace principal workspace_id digest now = do
  require_device principal
  if not (workspace_id == principal.workspace_id) then raise workspace_not_found else do
    found ←
        gets (λ db. find_where (is_open_challenge workspace_id principal.subject_id) db.challenges)
    on_option found (raise invalid_deletion_challenge) (λ c.
        if not (c.token_hash == digest)
        then raise invalid_deletion_challenge
        else if leb c.expires_at now
        then (modify
              (λ db. record db { challenges = delete_where (λ d. d.id == c.id) db.challenges })
            >> pure expired_challenge)
        else (do
          workspace ←
              gets (λ db. find_where (λ (v : Workspace). v.id == workspace_id) db.workspaces)
          on_option workspace (raise workspace_not_found) (λ _. do
            modify (λ db. record db {
              challenges =
                  update_where (λ d. d.id == c.id) (λ d. record d { consumed_at = some now })
                    db.challenges;
            })
            modify (delete_workspace_rows workspace_id)
            pure deleted)))
