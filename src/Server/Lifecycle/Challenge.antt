-- ===== src/Server/Lifecycle/Challenge.antt =====
-- The challenge that confirms the deletion of a workspace.
use run_buoy.Prelude.{
  ℕ, ◌+◌, ◌≡◌, refl, arith, true, false, ◌&&◌, some, ◌==◌, leb, ==-refl, Option-cases, Bool-cases,
  inl, inr,
}
use run_buoy.Prelude.Table.{find_where, exists_where, delete_where, insert, find-insert-none}
use run_buoy.Prelude.Exec.{ok, ◌>>=◌, on_option}
use run_buoy.Server.Rows.{Workspace, DeletionChallenge, seconds}
use run_buoy.Server.Accounts.{AuditAction}
use run_buoy.Server.Auth.{Principal, is_device_principal, require_device, audit}
use run_buoy.Prelude.Absent.{none-delete, find_none_of}
use run_buoy.Server.Lifecycle.Deletion.{
  IssuedChallenge, new_challenge, create_workspace_deletion_challenge, deleted, is_open_challenge,
  delete_workspace, delete_workspace_rows,
}
use run_buoy.Server.Lifecycle.Deleted.{
  IsErased, delete_workspace-ok, delete_workspace_rows-IsErased,
}
use run_buoy.Server.Database.{Database, Settings, new_id}

-- A workspace is deleted only for a device of it that sends the token of its open challenge before
-- the end of the challenge.
pub delete_workspace-authorized :
    (principal : Principal) (w digest now : ℕ) (db db' : Database)
    → delete_workspace principal w digest now db ≡ ok (deleted, db')
    → (c : DeletionChallenge) × (is_device_principal principal.kind ≡ true)
      × ((w == principal.workspace_id) ≡ true)
      × (find_where (is_open_challenge w principal.subject_id) db.challenges ≡ some c)
      × ((c.token_hash == digest) ≡ true)
      × (leb c.expires_at now ≡ false)
unfolding delete_workspace require_device ◌>>=◌ on_option
delete_workspace-authorized principal w digest now db db' h =
    elim (Bool-cases (is_device_principal principal.kind)) [
      | inr kind ↦ (let k = rw (kind, delete_workspace) at h in cc)
      | inl kind ↦ elim (Bool-cases (w == principal.workspace_id)) [
        | inr other ↦ (let k = rw (kind, other, delete_workspace) at h in cc)
        | inl same ↦
            elim (Option-cases
              (find_where (is_open_challenge w principal.subject_id) db.challenges)) [
                | inl lost ↦ (let k = rw (kind, same, lost, delete_workspace) at h in cc)
                | inr found ↦ elim (Bool-cases (found.0.token_hash == digest)) [
                  | inr wrong ↦
                      (let k = rw (kind, same, found.1, wrong, delete_workspace) at h in cc)
                  | inl hash ↦ elim (Bool-cases (leb found.0.expires_at now)) [
                    | inl late ↦
                        (let k = rw (kind, same, found.1, hash, late, delete_workspace) at h in cc)
                    | inr timely ↦ (found.0, kind, same, found.1, hash, timely)
                  ]
                ]
              ]
      ]
    ]

-- A device that asks for a challenge gets one, whatever it had before, and if it sends it back before
-- its end, its workspace is deleted with all rows of it.
pub create_workspace_deletion_challenge-delete_workspace :
    (token_hash : ℕ → ℕ) (settings : Settings) (principal : Principal) (w raw now later : ℕ)
    (db : Database)
    → is_device_principal principal.kind ≡ true
    → (w == principal.workspace_id) ≡ true
    → exists_where (λ (v : Workspace). v.id == w) db.workspaces ≡ true
    → leb (now + seconds settings.workspace_deletion_challenge_ttl_seconds) later ≡ false
    → (issued : IssuedChallenge) × (db' : Database) × (db'' : Database)
      × (create_workspace_deletion_challenge token_hash settings principal w true raw now db
          ≡ ok (issued, db'))
      × (delete_workspace principal w (token_hash issued.challenge) later db' ≡ ok (deleted, db''))
      × IsErased w db' db''
unfolding create_workspace_deletion_challenge new_challenge require_device is_open_challenge audit
    new_id ◌>>=◌
create_workspace_deletion_challenge-delete_workspace token_hash settings principal w raw now later
      db is_device same exists timely =
    let challenge = new_challenge token_hash settings principal raw now db.next_id in
    let is_own =
      λ (c : DeletionChallenge). c.workspace_id == w && c.device_id == principal.subject_id in
    let db' : Database = record db {
      challenges = insert challenge (delete_where is_own db.challenges);
      audit_logs =
          insert
            (record {
              id = db.next_id + 1;
              workspace_id = some principal.workspace_id;
              actor_type = principal.kind;
              actor_id = principal.subject_id;
              action = AuditAction.workspace_deletion_challenge;
              created_at = now;
            })
            db.audit_logs;
      next_id = db.next_id + 1 + 1;
    } in
    let found : find_where (is_open_challenge w principal.subject_id) db'.challenges
        ≡ some challenge =
      find-insert-none (is_open_challenge w principal.subject_id)
        (delete_where is_own db.challenges) challenge
        (find_none_of (is_open_challenge w principal.subject_id) (delete_where is_own db.challenges)
          (none-delete (is_open_challenge w principal.subject_id) is_own db.challenges
            (λ c e. ground arith)))
        (ground (arith, ==-refl principal.subject_id)) in
    let gone =
      delete_workspace-ok principal w (token_hash raw) later db' challenge is_device same exists
        found (==-refl (token_hash raw)) timely in
    (
      record {
        challenge = raw;
        expires_at = now + seconds settings.workspace_deletion_challenge_ttl_seconds;
      },
      db',
      delete_workspace_rows w (record db' { challenges = gone.0 }),
      rw is_device (rw same refl),
      gone.1,
      delete_workspace_rows-IsErased w db' gone.0,
    )
