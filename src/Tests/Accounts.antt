-- ===== src/Tests/Accounts.antt =====
-- A phone that registers, a machine that pairs with it and registers runs, and a webhook.
use run_buoy.Prelude.{◌≡◌, refl, none, some, [], ◌∷◌, arith}
use run_buoy.Prelude.Exec.{Result, ok, err, ◌>>=◌, on_option}
use run_buoy.Server.Enums.{
  ExecutionStatus, HealthStatus, AttentionStatus, EventType, Policy, NotificationPolicy,
  device_principal, machine_principal,
}
use run_buoy.Server.Rows.{seconds, ip_subject, Machine, Run, RunEvent}
use run_buoy.Server.Accounts.{MachineMetadata, PairingSession, Webhook}
use run_buoy.Server.Auth.{Principal, authenticate}
use run_buoy.Server.Notify.{bump_workspace_revision}
use run_buoy.Server.Quota.{acquire_quota_lock}
use run_buoy.Server.Pairing.{
  machine_scopes, machine_id_for, claim_session, attach_machine, subscribe, claim_pairing_session,
  exchange_pairing_session,
}
use run_buoy.Server.Pairing.Once.{claim_pairing_session-once}
use run_buoy.Server.Pairing.Exchange.{exchange_pairing_session-authenticate}
use run_buoy.Server.Devices.{DeviceBootstrapRequest, device_principal_for, bootstrap_device}
use run_buoy.Server.Devices.Bootstrap.{bootstrap_device-authenticate}
use run_buoy.Server.Runs
use run_buoy.Server.Runs.{RunUpsert, machine_owned, register_run, upsert_run}
use run_buoy.Server.Runs.Quota.{IsWithinQuota, upsert_run-IsWithinQuota}
use run_buoy.Server.Runs.Authority.{IsContinued, upsert_run-IsContinued}
use run_buoy.Server.Hooks.{WebhookRunEvent, webhook_run_event}
use run_buoy.Server.Hooks.Replay.{webhook_run_event-replay}
use run_buoy.Server.Database.{
  new_id, Database, Error, installation_already_registered, pairing_already_exchanged,
  event_replay_mismatch,
}
use run_buoy.Tests.Fixtures.{settings, id_text, paired, new_run, no_payload}

-- The database that a successful handler leaves.
abbrev left_by : {A : Type 0} → Result Error (A × Database) → Database → Database
left_by (ok (a, db)) other = db
left_by (err e) other = other

abbrev value_of : {A : Type 0} → Result Error (A × Database) → A → A
value_of (ok (a, db)) other = a
value_of (err e) other = other

abbrev owner : Principal
owner = record { kind = device_principal; subject_id = 3; workspace_id = 1; scopes = [] }

abbrev builder : Principal
builder = record { kind = machine_principal; subject_id = 2; workspace_id = 1; scopes = [] }

abbrev laptop : MachineMetadata
laptop = record {
  machine_id = none;
  display_name = "Laptop";
  hostname = none;
  platform = none;
  architecture = none;
  cli_version = none;
}

abbrev open_session : PairingSession
open_session = record {
  id = 80;
  challenge = 81;
  short_code = 82;
  exchange_secret_hash = 83;
  requested_machine_metadata = laptop;
  expires_at = seconds 300;
  claimed_at = none;
  exchanged_at = none;
  workspace_id = none;
  machine_id = none;
  creator_key = some (ip_subject 7);
}

abbrev claimed_session : PairingSession
claimed_session = record open_session {
  claimed_at = some 5;
  workspace_id = some 1;
  machine_id = some 2;
}

abbrev asking : Database
asking = record paired { pairings = open_session ∷ [] }

abbrev waiting_machine : Database
waiting_machine = record paired { pairings = claimed_session ∷ [] }

claim_pairing_session-once_example :
    (e : Error) × (claim_pairing_session settings owner 80 81 20
        (left_by (claim_pairing_session settings owner 80 81 9 asking) asking)
      ≡ err e)
unfolding claim_pairing_session ◌>>=◌ on_option acquire_quota_lock machine_id_for new_id
    claim_session attach_machine subscribe bump_workspace_revision
claim_pairing_session-once_example =
    claim_pairing_session-once settings settings owner owner 80 81 81 9 20 asking
      (left_by (claim_pairing_session settings owner 80 81 9 asking) asking) 100 refl

abbrev build_mac : Machine
build_mac = record {
  id = 2;
  workspace_id = 1;
  display_name = "Build Mac";
  hostname = none;
  platform = none;
  architecture = none;
  cli_version = none;
  last_seen_at = 0;
  paired_at = 0;
  revoked_at = none;
}

exchange_pairing_session-authenticate_example :
    (db' : Database) × (exchange_pairing_session 80 83 90 20 waiting_machine
      ≡ ok ((2, some 1), db'))
    × (authenticate (some 90) db'
        ≡ ok (
          record {
            kind = machine_principal;
            subject_id = 2;
            workspace_id = 1;
            scopes = machine_scopes;
          },
          db',
        ))
    × (exchange_pairing_session 80 83 90 30 db' ≡ err pairing_already_exchanged)
exchange_pairing_session-authenticate_example =
    exchange_pairing_session-authenticate 80 83 90 20 30 2 waiting_machine claimed_session build_mac
      refl refl refl refl refl refl refl refl refl refl

abbrev tablet : DeviceBootstrapRequest
tablet = record { installation_id = 44; app_version = some "1.0"; os_version = none }

bootstrap_device-authenticate_example :
    (db' : Database) × (bootstrap_device tablet 91 9 paired
      ≡ ok (device_principal_for 101 100, db'))
    × (authenticate (some 91) db' ≡ ok (device_principal_for 101 100, db'))
    × (bootstrap_device tablet 92 20 db' ≡ err installation_already_registered)
bootstrap_device-authenticate_example =
    bootstrap_device-authenticate tablet tablet 91 92 9 20 paired refl refl refl refl

abbrev training : RunUpsert
training = record {
  machine_id = 2;
  title = "Training";
  source = none;
  cli_version = some "1.2";
  execution_status = ExecutionStatus.running;
  health_status = HealthStatus.healthy;
  attention_status = AttentionStatus.nothing;
  progress = none;
  phase = none;
  safe_message = none;
  started_at = none;
  live_activity_policy = Policy.automatic;
  notification_policy = NotificationPolicy.failures;
}

abbrev registered : Database
registered = left_by (upsert_run settings builder 11 training 9 paired) paired

upsert_run-IsWithinQuota_example : IsWithinQuota settings 2 registered.runs
unfolding upsert_run machine_owned register_run acquire_quota_lock bump_workspace_revision ◌>>=◌
    on_option
upsert_run-IsWithinQuota_example =
    upsert_run-IsWithinQuota settings builder 11 training 9 2 paired registered
      (Runs.new_run builder 11 training 9) refl (ground arith)

upsert_run-IsContinued_example : IsContinued paired.runs registered.runs
unfolding upsert_run machine_owned register_run acquire_quota_lock bump_workspace_revision ◌>>=◌
    on_option
upsert_run-IsContinued_example =
    upsert_run-IsContinued settings builder 11 training 9 paired registered
      (Runs.new_run builder 11 training 9) refl

abbrev ci_hook : Webhook
ci_hook = record {
  id = 70;
  workspace_id = 1;
  machine_id = 2;
  name = "CI";
  token_hash = 71;
  created_at = 0;
  revoked_at = none;
}

abbrev ci_event : WebhookRunEvent
ci_event = record {
  type = EventType.run_started;
  occurred_at = none;
  progress = none;
  phase = none;
  message = none;
  exit_code = none;
  termination_reason = none;
  attention_status = none;
}

abbrev sent_event : RunEvent
sent_event = record {
  id = 60;
  schema_version = 1;
  event_id = 700;
  run_id = 10;
  machine_id = 2;
  seq = 1;
  type = EventType.run_started;
  occurred_at = 3;
  received_at = 3;
  payload = no_payload;
}

abbrev started_run : Run
started_run = record new_run { execution_status = ExecutionStatus.running; last_seq = 1 }

abbrev sent : Database
sent = record paired { runs = started_run ∷ []; events = sent_event ∷ [] }

webhook_run_event-replay_example :
    webhook_run_event
      (λ hook run. 10)
      (λ hook key. 700)
      settings
      id_text
      ci_hook
      5
      ci_event
      (some 6)
      701
      9
      sent
    ≡ err event_replay_mismatch
webhook_run_event-replay_example =
    webhook_run_event-replay (λ hook run. 10) (λ hook key. 700) settings id_text ci_hook 5 6 701 9
      ci_event sent started_run sent_event refl refl (ground arith)
