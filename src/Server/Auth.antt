-- ===== src/Server/Auth.antt =====
-- The principals of server/app/auth.py and the checks on them, with `_audit` of
-- server/app/lifecycle.py.
use run_buoy.Prelude.{
  ℕ, Bool, true, false, ◌&&◌, Option, none, some, List, ◌==◌, if◌then◌else◌, is_none,
}
use run_buoy.Prelude.Table.{find_where, exists_where, insert}
use run_buoy.Prelude.Exec.{pure, raise, gets, modify, ◌>>=◌, on_option}
use run_buoy.Server.Enums.{Scope, PrincipalKind, device_principal, machine_principal, scope_code}
use run_buoy.Server.Rows.{Device, Machine, Credential}
use run_buoy.Server.Accounts.{AuditAction}
use run_buoy.Server.Database.{
  Database, missing_credential, invalid_credential, missing_scope, device_credential_required,
  machine_credential_required, Handler, new_id,
}

pub record Principal : Type 0 where
  pub kind : PrincipalKind
  pub subject_id : ℕ
  pub workspace_id : ℕ
  pub scopes : List Scope

abbrev pub is_device_principal : PrincipalKind → Bool
is_device_principal device_principal = true
is_device_principal machine_principal = false

-- The query for a credential by its digest.
unfoldable pub is_live_credential : ℕ → Credential → Bool
is_live_credential digest c = c.token_hash == digest && is_none c.revoked_at

-- The first half of `authenticate`; the device of a credential is there by its foreign key.
unfoldable pub device_of : Database → ℕ → Option Principal
device_of db digest = elim (find_where (is_live_credential digest) db.device_credentials) [
  | none ↦ none
  | some c ↦ elim (find_where (λ (d : Device). d.id == c.subject_id) db.devices) [
    | none ↦ none
    | some d ↦
        if is_none d.revoked_at
        then some (record {
          kind = device_principal;
          subject_id = c.subject_id;
          workspace_id = d.workspace_id;
          scopes = c.scopes;
        })
        else none
  ]
]

-- The second half.
unfoldable pub machine_of : Database → ℕ → Option Principal
machine_of db digest = elim (find_where (is_live_credential digest) db.machine_credentials) [
  | none ↦ none
  | some c ↦ elim (find_where (λ (m : Machine). m.id == c.subject_id) db.machines) [
    | none ↦ none
    | some m ↦
        if is_none m.revoked_at
        then some (record {
          kind = machine_principal;
          subject_id = c.subject_id;
          workspace_id = m.workspace_id;
          scopes = c.scopes;
        })
        else none
  ]
]

-- authenticate, from the digest of the bearer value, if there is one
unfoldable pub authenticate : Option ℕ → Handler Principal
authenticate bearer = on_option bearer (raise missing_credential) (λ digest. do
  device ← gets (λ db. device_of db digest)
  machine ← gets (λ db. machine_of db digest)
  on_option device (on_option machine (raise invalid_credential) pure) pure)

abbrev pub scope_eq : Scope → Scope → Bool
scope_eq a b = scope_code a == scope_code b

-- require_scope
unfoldable pub require_scope : Scope → Principal → Handler Principal
require_scope scope p =
    if exists_where (scope_eq scope) p.scopes then pure p else raise missing_scope

-- _require_device
unfoldable pub require_device : Principal → Handler Unit
require_device p = if is_device_principal p.kind then pure tt else raise device_credential_required

-- _require_machine
unfoldable pub require_machine : Principal → Handler Unit
require_machine p =
    if is_device_principal p.kind then raise machine_credential_required else pure tt

-- _audit
unfoldable pub audit : Principal → AuditAction → ℕ → Handler Unit
audit p action now = do
  id ← new_id
  modify (λ db. record db {
    audit_logs =
        insert
          (record {
            id = id;
            workspace_id = some p.workspace_id;
            actor_type = p.kind;
            actor_id = p.subject_id;
            action = action;
            created_at = now;
          })
          db.audit_logs;
  })
