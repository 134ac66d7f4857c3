-- ===== src/Server/Accounts.antt =====
-- More rows of server/app/models.py: pairing sessions, webhooks, quota locks and the audit log.
use run_buoy.Prelude.{ℕ, Bool, false, Option, String, ◌==◌}
use run_buoy.Server.Enums.{PrincipalKind}
use run_buoy.Server.Rows.{Subject, subject_eq}

-- schemas.MachineMetadata
pub record MachineMetadata : Type 0 where
  pub machine_id : Option ℕ
  pub display_name : String
  pub hostname : Option String
  pub platform : Option String
  pub architecture : Option String
  pub cli_version : Option String

pub record PairingSession : Type 0 where
  pub id : ℕ
  pub challenge : ℕ
  pub short_code : ℕ
  pub exchange_secret_hash : ℕ
  pub requested_machine_metadata : MachineMetadata
  pub expires_at : ℕ
  pub claimed_at : Option ℕ
  pub exchanged_at : Option ℕ
  pub workspace_id : Option ℕ
  pub machine_id : Option ℕ
  pub creator_key : Option Subject

pub record Webhook : Type 0 where
  pub id : ℕ
  pub workspace_id : ℕ
  pub machine_id : ℕ
  pub name : String
  pub token_hash : ℕ
  pub created_at : ℕ
  pub revoked_at : Option ℕ

-- `{namespace}:{digest}`
pub data LockKey : Type 0 where
  workspace_machines_lock workspace_webhooks_lock workspace_notifications_lock : ℕ → LockKey
  machine_active_runs_lock device_bootstrap_lock : ℕ → LockKey
  pending_pairings_lock : Subject → LockKey

abbrev pub lock_eq : LockKey → LockKey → Bool
lock_eq (workspace_machines_lock a) (workspace_machines_lock b) = a == b
lock_eq (workspace_webhooks_lock a) (workspace_webhooks_lock b) = a == b
lock_eq (workspace_notifications_lock a) (workspace_notifications_lock b) = a == b
lock_eq (machine_active_runs_lock a) (machine_active_runs_lock b) = a == b
lock_eq (device_bootstrap_lock a) (device_bootstrap_lock b) = a == b
lock_eq (pending_pairings_lock a) (pending_pairings_lock b) = subject_eq a b
lock_eq _ _ = false

pub record QuotaLock : Type 0 where
  pub lock_key : LockKey
  pub last_used_at : ℕ

-- The actions that are logged, with what their metadata says: the machine, the credentials revoked
-- and the pushes cancelled.
pub data AuditAction : Type 0 where
  device_bootstrap workspace_deletion_challenge : AuditAction
  device_reset : ℕ → AuditAction
  subscription_stop_receiving : ℕ → ℕ → AuditAction
  machine_revoke : ℕ → ℕ → ℕ → AuditAction

pub record AuditLog : Type 0 where
  pub id : ℕ
  pub workspace_id : Option ℕ
  pub actor_type : PrincipalKind
  pub actor_id : ℕ
  pub action : AuditAction
  pub created_at : ℕ
