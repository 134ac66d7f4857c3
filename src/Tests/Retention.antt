-- ===== src/Tests/Retention.antt =====
-- A cleanup of a workspace with an active run, an old run and one that a phone still shows.
use run_buoy.Prelude.{ℕ, ◌≡◌, refl, none, some, [], ◌∷◌}
use run_buoy.Prelude.Exec.{ok}
use run_buoy.Server.Enums.{ExecutionStatus, EventType, BindingState}
use run_buoy.Server.Rows.{Run, RunEvent, Binding, named_activity}
use run_buoy.Server.Database.{Database}
use run_buoy.Server.Retention.{days, is_terminal_run, is_old_pending_binding}
use run_buoy.Server.Retention.Batch.{Cleanup, cleanup_retention}
use run_buoy.Server.Retention.References.{HasReferences, cleanup_retention-HasReferences}
use run_buoy.Server.Retention.Kept.{
  HasKeys, run_rows, event_rows, pending_pushes, cleanup_retention-keeps_active,
}
use run_buoy.Server.Retention.Shown.{is_lasting, cleanup_retention-keeps_shown}
use run_buoy.Server.Retention.Bounds.{IsWithinBatch, IsTally, cleanup_retention-IsWithinBatch}
use run_buoy.Tests.Fixtures.{settings, paired, new_run, no_payload, waiting}

abbrev today : ℕ
today = days 100

abbrev ended_run : ℕ → Run
ended_run id = record new_run {
  id = id;
  execution_status = ExecutionStatus.succeeded;
  ended_at = some (days 1);
  safe_log_tail = some [];
}

abbrev event_of : ℕ → ℕ → RunEvent
event_of id run_id = record {
  id = id;
  schema_version = 1;
  event_id = id;
  run_id = run_id;
  machine_id = 2;
  seq = 1;
  type = EventType.run_started;
  occurred_at = days 1;
  received_at = days 1;
  payload = no_payload;
}

abbrev shown_binding : Binding
shown_binding = record {
  id = 40;
  run_id = 12;
  device_id = 3;
  activity_id = named_activity 5;
  update_push_token_encrypted = none;
  token_generation = 1;
  schema_version = 1;
  state = BindingState.active;
  last_sequence = 0;
  started_at = days 1;
  ended_at = none;
  invalidated_at = none;
}

abbrev aged : Database
aged = record paired {
  runs = new_run ∷ ended_run 11 ∷ ended_run 12 ∷ [];
  events = event_of 20 10 ∷ event_of 21 11 ∷ [];
  bindings = shown_binding ∷ [];
  outbox = (record (waiting 50 10 0) { run_id = some 10 }) ∷ [];
}

aged-HasReferences : HasReferences aged
aged-HasReferences = record {
  runs_workspace = (refl, (refl, (refl, tt)));
  notifications_workspace = tt;
  events_run = (refl, (refl, tt));
  bindings_run = (refl, tt);
  outbox_run = (refl, tt);
  notifications_run = tt;
  attempts_outbox = tt;
}

aged-HasKeys : HasKeys aged
aged-HasKeys = record {
  notifications = tt;
  runs = (refl, (refl, (refl, tt)));
  events = (refl, (refl, tt));
  bindings = (refl, tt);
  outbox = (refl, tt);
  attempts = tt;
  pairings = tt;
  audit_logs = tt;
  challenges = tt;
}

cleanup_retention-HasReferences_example :
    (c : Cleanup) × (db' : Database) × (cleanup_retention settings today aged ≡ ok (c, db'))
    × HasReferences db'
cleanup_retention-HasReferences_example =
    cleanup_retention-HasReferences settings today aged aged-HasReferences

cleanup_retention-keeps_active_example :
    (c : Cleanup) × (db' : Database) × (cleanup_retention settings today aged ≡ ok (c, db'))
    × (run_rows 10 db' ≡ run_rows 10 aged)
    × (event_rows 10 db' ≡ event_rows 10 aged)
    × (pending_pushes 10 db' ≡ pending_pushes 10 aged)
unfolding is_terminal_run
cleanup_retention-keeps_active_example =
    cleanup_retention-keeps_active settings today aged 10 aged-HasReferences aged-HasKeys refl

cleanup_retention-keeps_shown_example :
    (c : Cleanup) × (db' : Database) × (cleanup_retention settings today aged ≡ ok (c, db'))
    × (run_rows 12 db' ≡ run_rows 12 aged)
unfolding is_lasting is_old_pending_binding
cleanup_retention-keeps_shown_example =
    cleanup_retention-keeps_shown settings today aged 12 aged-HasReferences aged-HasKeys refl

cleanup_retention-IsWithinBatch_example :
    (c : Cleanup) × (db' : Database) × (cleanup_retention settings today aged ≡ ok (c, db'))
    × IsWithinBatch 500 c
    × IsTally aged db' c
cleanup_retention-IsWithinBatch_example =
    cleanup_retention-IsWithinBatch settings today aged aged-HasReferences aged-HasKeys
