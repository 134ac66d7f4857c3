-- ===== src/Server/Snapshot.antt =====
-- The snapshot of a workspace that a phone keeps: `sync_snapshot` of server/app/api.py.
pub mod Complete
use run_buoy.Prelude.{
  ℕ, ◌+◌, ◌*◌, Bool, true, false, not, ◌&&◌, ◌||◌, Option, none, some, List, [], ◌∷◌, ◌++◌, ◌==◌,
  ltb, leb, map, if◌then◌else◌, is_none, is_some,
}
use run_buoy.Prelude.Table.{find_where, exists_where}
use run_buoy.Prelude.Sort.{select_page}
use run_buoy.Prelude.Exec.{pure, raise, gets, ◌>>=◌, on_option}
use run_buoy.Server.Enums.{Scope, runs_read, machines_read, notifications_read, is_terminal}
use run_buoy.Server.Rows.{Workspace, Machine, Subscription, Run, RunEvent, Notification}
use run_buoy.Server.Auth.{Principal, scope_eq}
use run_buoy.Server.Runs.{is_run}
use run_buoy.Server.History.{
  CursorKind, run_history, notification_history, HistoryCursor, encode_history_cursor, last_of,
  is_newer, is_after_cursor, is_ended_run, is_notification_of,
}
use run_buoy.Server.Database.{
  Database, Settings, Handler, run_not_found, workspace_not_found, sync_cursor_ahead,
  missing_sync_scopes,
}

-- An entity tag of If-None-Match: `*`, `_sync_etag` of a workspace and a revision, strong or weak, or
-- another one.
pub data EntityTag : Type 0 where
  any_tag other_tag : EntityTag
  sync_tag weak_sync_tag : ℕ → ℕ → EntityTag

-- _etag_matches, for one of the tags
unfoldable pub etag_matches : ℕ → ℕ → EntityTag → Bool
etag_matches workspace_id revision any_tag = true
etag_matches workspace_id revision other_tag = false
etag_matches workspace_id revision (sync_tag w r) = w == workspace_id && r == revision
etag_matches workspace_id revision (weak_sync_tag w r) = w == workspace_id && r == revision

-- A machine with the device's subscription to it.
pub record MachineSnapshot : Type 0 where
  pub machine : Machine
  pub subscription_id : Option ℕ

unfoldable pub machine_snapshot : Database → ℕ → Machine → MachineSnapshot
machine_snapshot db device_id m = record {
  machine = m;
  subscription_id =
      elim (find_where (λ (s : Subscription). s.device_id == device_id && s.machine_id == m.id)
        db.subscriptions) [ none ↦ none | some s ↦ some s.id ];
}

pub record SyncSnapshot : Type 0 where
  pub next_cursor : ℕ
  pub server_time : ℕ
  pub runs : List Run
  pub machines : List MachineSnapshot
  pub notifications : List Notification
  pub history_runs_next_cursor : Option HistoryCursor
  pub history_runs_has_more : Bool
  pub history_notifications_next_cursor : Option HistoryCursor
  pub history_notifications_has_more : Bool

pub data SyncResponse : Type 0 where
  not_modified : ℕ → SyncResponse
  changed : SyncSnapshot → SyncResponse

module _ {A : Type 0} (time id : A → ℕ) (due : A → Bool) where
  -- Whether there is more than the rows shown; `otherwise` is the answer if none is shown.
  unfoldable pub has_more_after : Bool → List A → List A → Bool
  has_more_after otherwise shown rows = elim (last_of shown) [
    | none ↦ otherwise
    | some r ↦ exists_where (λ x. due x && is_after_cursor time id (time r, id r) x) rows
  ]

  -- The cursor of the last row shown, if there is more.
  unfoldable pub history_link : CursorKind → List A → List A → Option HistoryCursor
  history_link kind shown rows = elim (last_of shown) [
    | none ↦ none
    | some r ↦
        if exists_where (λ x. due x && is_after_cursor time id (time r, id r) x) rows
        then some (encode_history_cursor kind (time r) (id r) none)
        else none
  ]

unfoldable pub is_live_run : ℕ → Run → Bool
is_live_run workspace_id r = r.workspace_id == workspace_id && not (is_terminal r.execution_status)

unfoldable pub is_machine_of : ℕ → Machine → Bool
is_machine_of workspace_id m = m.workspace_id == workspace_id && is_none m.revoked_at

-- SYNC_SNAPSHOT_LIMIT
abbrev pub sync_snapshot_limit : ℕ
sync_snapshot_limit = 200

unfoldable pub newest_runs : (Run → Bool) → ℕ → Database → List Run
newest_runs due limit db =
    select_page due (is_newer (λ (r : Run). r.updated_at) (λ (r : Run). r.id)) limit db.runs

unfoldable pub newest_notifications : (Notification → Bool) → ℕ → Database → List Notification
newest_notifications due limit db =
    select_page due (is_newer (λ (n : Notification). n.created_at) (λ (n : Notification). n.id))
      limit db.notifications

unfoldable pub newest_machines : (Machine → Bool) → ℕ → Database → List Machine
newest_machines due limit db =
    select_page due (is_newer (λ (m : Machine). m.paired_at) (λ (m : Machine). m.id)) limit
      db.machines

-- The answer to a phone that is behind.
unfoldable pub snapshot_of : Settings → Principal → Workspace → ℕ → Database → SyncSnapshot
snapshot_of settings principal workspace now db =
    let active_runs =
      newest_runs (is_live_run workspace.id)
        (settings.max_machines_per_workspace * settings.max_active_runs_per_machine) db in
    let terminal_runs = newest_runs (is_ended_run workspace.id none) sync_snapshot_limit db in
    let notifications =
      newest_notifications (is_notification_of workspace.id none) sync_snapshot_limit db in
    record {
      next_cursor = workspace.revision;
      server_time = now;
      runs = active_runs ++ terminal_runs;
      machines =
          map (machine_snapshot db principal.subject_id)
            (newest_machines (is_machine_of workspace.id) settings.max_machines_per_workspace db);
      notifications = notifications;
      history_runs_next_cursor =
          history_link (λ (r : Run). r.updated_at) (λ (r : Run). r.id)
            (is_ended_run workspace.id none) run_history terminal_runs db.runs;
      history_runs_has_more =
          has_more_after (λ (r : Run). r.updated_at) (λ (r : Run). r.id)
            (is_ended_run workspace.id none) (exists_where (is_ended_run workspace.id none) db.runs)
            terminal_runs db.runs;
      history_notifications_next_cursor =
          history_link (λ (n : Notification). n.created_at) (λ (n : Notification). n.id)
            (is_notification_of workspace.id none) notification_history notifications
            db.notifications;
      history_notifications_has_more =
          has_more_after (λ (n : Notification). n.created_at) (λ (n : Notification). n.id)
            (is_notification_of workspace.id none) false notifications db.notifications;
    }

abbrev pub has_scope : List Scope → Scope → Bool
has_scope scopes s = exists_where (scope_eq s) scopes

-- sync_snapshot
unfoldable pub sync_snapshot :
    Settings → Principal → Option ℕ → List EntityTag → ℕ → Handler SyncResponse
sync_snapshot settings principal cursor if_none_match now =
    if not (
      has_scope principal.scopes runs_read
      && has_scope principal.scopes machines_read
      && has_scope principal.scopes notifications_read)
    then raise missing_sync_scopes
    else do
      found ←
          gets (λ db. find_where (λ (w : Workspace). w.id == principal.workspace_id) db.workspaces)
      on_option found (raise workspace_not_found) (λ w.
          if elim cursor [ none ↦ false | some c ↦ ltb w.revision c ]
          then raise sync_cursor_ahead
          else if elim cursor [ none ↦ false | some c ↦ c == w.revision ]
              || exists_where (etag_matches w.id w.revision) if_none_match
          then pure (not_modified w.revision)
          else gets (λ db. changed (snapshot_of settings principal w now db)))
