-- ===== src/Tests/History.antt =====
-- A phone that reads the history of three runs, one by one.
use run_buoy.Prelude.{ℕ, ◌≡◌, refl, none, [], ◌∷◌, arith}
use run_buoy.Prelude.Exec.{ok}
use run_buoy.Server.Enums.{
  ExecutionStatus, device_principal, runs_read, machines_read, notifications_read,
}
use run_buoy.Server.Snapshot.{is_live_run, newest_runs}
use run_buoy.Server.Snapshot.Complete.{ended_runs, read_all_runs, read_all_runs_lem}
use run_buoy.Server.Rows.{Run}
use run_buoy.Server.Auth.{Principal}
use run_buoy.Server.History.{is_newer, is_ended_run, list_run_history}
use run_buoy.Server.History.Pages.{read_history, list_run_history-read}
use run_buoy.Server.Database.{Database}
use run_buoy.Tests.Fixtures.{settings, paired, new_run}

abbrev reader : Principal
reader = record { kind = device_principal; subject_id = 3; workspace_id = 1; scopes = [] }

abbrev ended_at : ℕ → ℕ → Run
ended_at id time = record new_run {
  id = id;
  execution_status = ExecutionStatus.succeeded;
  updated_at = time;
}

abbrev archive : Database
archive = record paired { runs = ended_at 11 5 ∷ new_run ∷ ended_at 12 9 ∷ ended_at 13 5 ∷ [] }

list_run_history-read_example :
    read_history (λ c. list_run_history reader c 1 none) 3 none archive
    ≡ ok (ended_at 12 9 ∷ ended_at 13 5 ∷ ended_at 11 5 ∷ [], archive)
unfolding is_newer is_ended_run
list_run_history-read_example =
    list_run_history-read reader 0 3 none archive (refl, (refl, (refl, (refl, tt)))) (ground arith)

abbrev sync_reader : Principal
sync_reader = record reader { scopes = runs_read ∷ machines_read ∷ notifications_read ∷ [] }

read_all_runs_lem_example :
    read_all_runs settings sync_reader 0 3 50 archive
    ≡ ok (new_run ∷ ended_at 12 9 ∷ ended_at 13 5 ∷ ended_at 11 5 ∷ [], archive)
unfolding is_newer is_ended_run is_live_run newest_runs ended_runs
read_all_runs_lem_example =
    read_all_runs_lem settings sync_reader 0 3 50 archive
      (record { id = 1; created_at = 0; revision = 0 }) refl refl refl refl
      (refl, (refl, (refl, (refl, tt)))) (ground arith)
