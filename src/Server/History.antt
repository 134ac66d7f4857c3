-- ===== src/Server/History.antt =====
-- What server/app/api.py answers to a phone that reads: the lists, the pages of history with the
-- cursors of server/app/sync.py, and the snapshot of a workspace.
pub mod Paging
pub mod Pages
use run_buoy.Prelude.{
  ℕ, ◌+◌, ◌*◌, Bool, true, false, not, ◌&&◌, ◌||◌, Option, none, some, List, [], ◌∷◌, ◌++◌, ◌==◌,
  ltb, leb, length, take, map, if◌then◌else◌, is_none, is_some, opt_eq,
}
use run_buoy.Prelude.Table.{find_where, exists_where, select_where}
use run_buoy.Prelude.Sort.{sort_by, select_page}
use run_buoy.Prelude.Exec.{pure, raise, gets, ◌>>=◌, ◌>>◌, on_option}
use run_buoy.Server.Enums.{Scope, runs_read, machines_read, notifications_read, is_terminal}
use run_buoy.Server.Rows.{Workspace, Machine, Subscription, Run, RunEvent, Notification}
use run_buoy.Server.Auth.{Principal, require_scope}
use run_buoy.Server.Runs.{is_run}
use run_buoy.Server.Database.{
  Database, Settings, Handler, run_not_found, workspace_not_found, invalid_history_cursor,
  sync_cursor_ahead,
}

-- CursorKind
pub data CursorKind : Type 0 where
  run_history notification_history : CursorKind

abbrev pub cursor_kind_eq : CursorKind → CursorKind → Bool
cursor_kind_eq run_history run_history = true
cursor_kind_eq notification_history notification_history = true
cursor_kind_eq _ _ = false

-- The payload of a cursor, whose text is Base64 of JSON.
pub record HistoryCursor : Type 0 where
  pub version : ℕ
  pub kind : CursorKind
  pub time : ℕ
  pub id : ℕ
  pub machine_id : Option ℕ

unfoldable pub encode_history_cursor : CursorKind → ℕ → ℕ → Option ℕ → HistoryCursor
encode_history_cursor kind sort_time item_id machine_id = record {
  version = 1;
  kind = kind;
  time = sort_time;
  id = item_id;
  machine_id = machine_id;
}

-- decode_history_cursor, for a cursor whose text is that of a payload
unfoldable pub decode_history_cursor : HistoryCursor → CursorKind → Option ℕ → Handler (ℕ × ℕ)
decode_history_cursor cursor expected_kind machine_id =
    if not (cursor.version == 1) || not (cursor_kind_eq cursor.kind expected_kind)
    then raise invalid_history_cursor
    else if not (opt_eq cursor.machine_id machine_id)
    then raise invalid_history_cursor
    else pure (cursor.time, cursor.id)

-- A page of history.
pub record HistoryPage (A : Type 0) : Type 0 where
  pub items : List A
  pub next_cursor : Option HistoryCursor
  pub has_more : Bool

abbrev pub last_of : {A : Type 0} → List A → Option A
last_of [] = none
last_of (x ∷ []) = some x
last_of (x ∷ y ∷ xs) = last_of (y ∷ xs)

-- A table with its sort time and its identifier, whose texts have the order of their numbers.
module _ {A : Type 0} (time id : A → ℕ) where
  -- ORDER BY time DESC, id DESC
  unfoldable pub is_newer : A → A → Bool
  is_newer a b = ltb (time b) (time a) || time a == time b && leb (id b) (id a)

  -- _runs_after_cursor and _notifications_after_cursor
  unfoldable pub is_after_cursor : ℕ × ℕ → A → Bool
  is_after_cursor cursor r = ltb (time r) cursor.0 || time r == cursor.0 && ltb (id r) cursor.1

  -- The rows of a query, with the condition of a cursor if there is one.
  unfoldable pub history_rows : (A → Bool) → Option (ℕ × ℕ) → ℕ → List A → List A
  history_rows due cursor limit rows = elim cursor [
    | none ↦ select_page due is_newer (limit + 1) rows
    | some c ↦ select_page (λ r. due r && is_after_cursor c r) is_newer (limit + 1) rows
  ]

  unfoldable pub next_cursor_of : CursorKind → Option ℕ → Bool → List A → Option HistoryCursor
  next_cursor_of kind machine_id has_more items = elim (last_of items) [
    | none ↦ none
    | some r ↦
        if has_more then some (encode_history_cursor kind (time r) (id r) machine_id) else none
  ]

  -- What follows the query in both endpoints.
  unfoldable pub history_page : CursorKind → Option ℕ → ℕ → List A → HistoryPage A
  history_page kind machine_id limit rows =
      let has_more = ltb limit (length rows) in
      record {
        items = take limit rows;
        next_cursor = next_cursor_of kind machine_id has_more (take limit rows);
        has_more = has_more;
      }

  -- The body that both endpoints share, with the rows of their table.
  unfoldable pub list_history :
      (Database → List A)
      → (A → Bool)
      → CursorKind
      → Option HistoryCursor
      → ℕ
      → Option ℕ
      → Handler (HistoryPage A)
  list_history table due kind cursor limit machine_id = do
    position ←
        on_option cursor (pure none)
          (λ c. do decoded ← decode_history_cursor c kind machine_id; pure (some decoded))
    rows ← gets (λ db. history_rows due position limit (table db))
    pure (history_page kind machine_id limit rows)

abbrev pub is_wanted_machine : Option ℕ → ℕ → Bool
is_wanted_machine none id = true
is_wanted_machine (some wanted) id = id == wanted

unfoldable pub is_ended_run : ℕ → Option ℕ → Run → Bool
is_ended_run workspace_id machine_id r =
    r.workspace_id == workspace_id
    && is_terminal r.execution_status
    && is_wanted_machine machine_id r.machine_id

-- list_run_history
unfoldable pub list_run_history :
    Principal → Option HistoryCursor → ℕ → Option ℕ → Handler (HistoryPage Run)
list_run_history principal cursor limit machine_id =
    list_history (λ (r : Run). r.updated_at) (λ (r : Run). r.id) (λ db. db.runs)
      (is_ended_run principal.workspace_id machine_id) run_history cursor limit machine_id

abbrev pub is_from_machine : Option ℕ → Option ℕ → Bool
is_from_machine none id = true
is_from_machine (some wanted) none = false
is_from_machine (some wanted) (some id) = id == wanted

unfoldable pub is_notification_of : ℕ → Option ℕ → Notification → Bool
is_notification_of workspace_id machine_id n =
    n.workspace_id == workspace_id && is_from_machine machine_id n.machine_id

-- list_notification_history
unfoldable pub list_notification_history :
    Principal → Option HistoryCursor → ℕ → Option ℕ → Handler (HistoryPage Notification)
list_notification_history principal cursor limit machine_id =
    list_history (λ (n : Notification). n.created_at) (λ (n : Notification). n.id)
      (λ db. db.notifications) (is_notification_of principal.workspace_id machine_id)
      notification_history cursor limit machine_id
