-- ===== src/Tests/Lifecycle.antt =====
-- A phone that revokes its machine and deletes its workspace.
use run_buoy.Prelude.{ℕ, ◌+◌, ◌≡◌, refl, true, false, none, some, [], ◌∷◌, ◌==◌, leb}
use run_buoy.Prelude.Table.{find_where}
use run_buoy.Prelude.Exec.{ok, ◌>>=◌, on_option}
use run_buoy.Server.Enums.{device_principal}
use run_buoy.Server.Rows.{seconds, DeletionChallenge, Machine, live_start_key}
use run_buoy.Server.Auth.{Principal, is_device_principal, require_device, machine_of}
use run_buoy.Server.Lifecycle.{subscriber_ids, revoke_machine}
use run_buoy.Server.Lifecycle.Revoked.{IsCutOff, is_subject, revoke_machine-IsCutOff}
use run_buoy.Server.Lifecycle.Deletion.{
  IssuedChallenge, create_workspace_deletion_challenge, deleted, is_open_challenge,
  delete_workspace, delete_workspace_rows,
}
use run_buoy.Server.Lifecycle.Deleted.{IsErased, IsSpared, delete_workspace-IsErased}
use run_buoy.Server.Lifecycle.Challenge.{
  delete_workspace-authorized, create_workspace_deletion_challenge-delete_workspace,
}
use run_buoy.Server.Database.{Database}
use run_buoy.Tests.Fixtures.{settings, paired, waiting}

abbrev owner : Principal
owner = record { kind = device_principal; subject_id = 3; workspace_id = 1; scopes = [] }

abbrev mac : Machine
mac = record {
  id = 2;
  workspace_id = 1;
  display_name = "Build Mac";
  hostname = none;
  platform = none;
  architecture = none;
  cli_version = none;
  last_seen_at = 0;
  paired_at = 0;
  revoked_at = none;
}

-- One start waits for the phone, and the machine has a credential.
abbrev busy : Database
busy = record paired {
  machine_credentials =
      (record {
        id = 60;
        subject_id = 2;
        token_hash = 600;
        scopes = [];
        created_at = 0;
        revoked_at = none;
      })
      ∷ [];
  outbox = (record (waiting 50 10 0) { run_id = some 10; coalesce_key = live_start_key 10 3 }) ∷ [];
}

revoke_machine-IsCutOff_example :
    (db' : Database) × (revoke_machine owner 2 9 busy ≡ ok (tt, db'))
    × IsCutOff 2 (subscriber_ids 2 busy) db'
    × ((digest : ℕ) → is_subject 2 (machine_of db' digest) ≡ false)
    × ((later : ℕ) → revoke_machine owner 2 later db' ≡ ok (tt, db'))
revoke_machine-IsCutOff_example =
    revoke_machine-IsCutOff owner 2 9 busy mac refl refl refl refl refl

abbrev challenge : DeletionChallenge
challenge = record {
  id = 70;
  workspace_id = 1;
  device_id = 3;
  token_hash = 700;
  created_at = 0;
  expires_at = seconds 300;
  consumed_at = none;
}

abbrev challenged : Database
challenged = record busy { challenges = challenge ∷ [] }

delete_workspace-IsErased_example :
    (db' : Database) × (delete_workspace owner 1 700 9 challenged ≡ ok (deleted, db'))
    × IsErased 1 challenged db'
    × IsSpared 1 5 challenged db'
unfolding is_open_challenge
delete_workspace-IsErased_example =
    delete_workspace-IsErased owner 1 5 700 9 challenged challenge refl refl refl (refl, tt)
      (refl, tt) (refl, tt) refl refl refl refl

delete_workspace-authorized_example :
    (c : DeletionChallenge) × (is_device_principal owner.kind ≡ true)
    × ((1 == owner.workspace_id) ≡ true)
    × (find_where (is_open_challenge 1 owner.subject_id) challenged.challenges ≡ some c)
    × ((c.token_hash == 700) ≡ true)
    × (leb c.expires_at 9 ≡ false)
unfolding delete_workspace require_device is_open_challenge ◌>>=◌ on_option
delete_workspace-authorized_example =
    delete_workspace-authorized owner 1 700 9 challenged
      (delete_workspace_rows 1
        (record challenged { challenges = (record challenge { consumed_at = some 9 }) ∷ [] }))
      refl

create_workspace_deletion_challenge-delete_workspace_example :
    (issued : IssuedChallenge) × (db' : Database) × (db'' : Database)
    × (create_workspace_deletion_challenge (λ t. t + 1) settings owner 1 true 80 9 challenged
        ≡ ok (issued, db'))
    × (delete_workspace owner 1 (issued.challenge + 1) (seconds 200) db' ≡ ok (deleted, db''))
    × IsErased 1 db' db''
create_workspace_deletion_challenge-delete_workspace_example =
    create_workspace_deletion_challenge-delete_workspace (λ t. t + 1) settings owner 1 80 9
      (seconds 200) challenged refl refl refl refl
