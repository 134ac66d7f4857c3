-- ===== src/Server/Devices/Bootstrap.antt =====
-- What a phone gets when it registers.
use run_buoy.Prelude.{ℕ, ◌+◌, ◌≡◌, refl, arith, true, false, none, some, ◌==◌, is_none, ==-refl}
use run_buoy.Prelude.Table.{find_where, exists_where, insert, find-insert-none}
use run_buoy.Prelude.Absent.{find_none_of, exists-insert}
use run_buoy.Prelude.Exec.{ok, err, ◌>>=◌, on_option}
use run_buoy.Server.Rows.{Device, Credential}
use run_buoy.Server.Enums.{device_principal}
use run_buoy.Server.Accounts.{AuditAction, device_bootstrap_lock}
use run_buoy.Server.Auth.{is_live_credential, device_of, authenticate, audit}
use run_buoy.Server.Quota.{acquire_quota_lock, touch_lock}
use run_buoy.Server.Pairing.Exchange.{no_live_credential}
use run_buoy.Server.Devices.{
  DeviceBootstrapRequest, new_device, device_scopes, device_principal_for, add_device,
  bootstrap_device,
}
use run_buoy.Server.Database.{Database, installation_already_registered, new_id}

device_of-eq :
    (db : Database) (digest : ℕ) (c : Credential) (d : Device)
    → find_where (is_live_credential digest) db.device_credentials ≡ some c
    → find_where (λ (x : Device). x.id == c.subject_id) db.devices ≡ some d
    → is_none d.revoked_at ≡ true
    → device_of db digest
      ≡ some (record {
        kind = device_principal;
        subject_id = c.subject_id;
        workspace_id = d.workspace_id;
        scopes = c.scopes;
      })
unfolding device_of
device_of-eq db digest c d found device live = rw (found, device, live, device_of) refl

device_of-some :
    (db : Database) (digest : ℕ) (c : Credential) (d : Device)
    → find_where (is_live_credential digest) db.device_credentials ≡ some c
    → find_where (λ (x : Device). x.id == c.subject_id) db.devices ≡ some d
    → is_none d.revoked_at ≡ true
    → authenticate (some digest) db
      ≡ ok (
        record {
          kind = device_principal;
          subject_id = c.subject_id;
          workspace_id = d.workspace_id;
          scopes = c.scopes;
        },
        db,
      )
unfolding authenticate ◌>>=◌ on_option
device_of-some db digest c d found device live =
    rw (device_of-eq db digest c d found device live) refl

-- An installation that is not known gets a device of a new workspace, and its token, if no other has
-- its digest, authenticates as this device there; the installation is refused from then on.
pub bootstrap_device-authenticate :
    (body body' : DeviceBootstrapRequest) (digest digest' now later : ℕ) (db : Database)
    → exists_where (λ (d : Device). d.installation_id == body.installation_id) db.devices ≡ false
    → exists_where (λ (d : Device). d.id == db.next_id + 1) db.devices ≡ false
    → exists_where (λ c. c.token_hash == digest) db.device_credentials ≡ false
    → body'.installation_id ≡ body.installation_id
    → (db' : Database) × (bootstrap_device body digest now db
        ≡ ok (device_principal_for (db.next_id + 1) db.next_id, db'))
      × (authenticate (some digest) db'
          ≡ ok (device_principal_for (db.next_id + 1) db.next_id, db'))
      × (bootstrap_device body' digest' later db' ≡ err installation_already_registered)
unfolding bootstrap_device add_device new_device is_live_credential acquire_quota_lock audit new_id
    ◌>>=◌
bootstrap_device-authenticate body body' digest digest' now later db unknown fresh no_other same =
    let device : Device = new_device body db.next_id now (db.next_id + 1) in
    let principal = device_principal_for (db.next_id + 1) db.next_id in
    let credential : Credential = record {
      id = db.next_id + 1 + 1;
      subject_id = db.next_id + 1;
      token_hash = digest;
      scopes = device_scopes;
      created_at = now;
      revoked_at = none;
    } in
    let db' : Database = record db {
      quota_locks = touch_lock (device_bootstrap_lock body.installation_id) now db.quota_locks;
      workspaces =
          insert (record { id = db.next_id; created_at = now; revision = 0 }) db.workspaces;
      devices = insert device db.devices;
      device_credentials = insert credential db.device_credentials;
      audit_logs =
          insert
            (record {
              id = db.next_id + 1 + 1 + 1;
              workspace_id = some db.next_id;
              actor_type = device_principal;
              actor_id = db.next_id + 1;
              action = AuditAction.device_bootstrap;
              created_at = now;
            })
            db.audit_logs;
      next_id = db.next_id + 1 + 1 + 1 + 1;
    } in
    let found : find_where (is_live_credential digest) db'.device_credentials ≡ some credential =
      find-insert-none (is_live_credential digest) db.device_credentials credential
        (find_none_of (is_live_credential digest) db.device_credentials
          (no_live_credential digest db.device_credentials no_other))
        (ground (arith, ==-refl digest)) in
    let device_found : find_where (λ (d : Device). d.id == db.next_id + 1) db'.devices
        ≡ some device =
      find-insert-none (λ d. d.id == db.next_id + 1) db.devices device
        (find_none_of (λ d. d.id == db.next_id + 1) db.devices fresh) (==-refl (db.next_id + 1)) in
    let registered : exists_where (λ (d : Device). d.installation_id == body'.installation_id)
          db'.devices
        ≡ true =
      exists-insert (λ d. d.installation_id == body'.installation_id) db.devices device
        (rw same (==-refl body.installation_id)) in
    (
      db',
      rw unknown refl,
      device_of-some db' digest credential device found device_found refl,
      rw registered refl,
    )
