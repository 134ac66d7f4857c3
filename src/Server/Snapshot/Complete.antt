-- ===== src/Server/Snapshot/Complete.antt =====
-- The snapshot and the history that its cursor continues.
use run_buoy.Prelude.{
  ℕ, zero, suc, ◌≤◌, ◌*◌, ◌≡◌, refl, sym, arith, Bool, true, false, ◌&&◌, Option, none, some, List,
  [], ◌∷◌, ◌++◌, map, length, take, Bool-cases, inl, inr, ap, ◌∙◌, ◌==◌, eq_of_==,
}
use run_buoy.Prelude.Table.{select_where, exists_where, find_where, holds_of_find}
use run_buoy.Prelude.Keys.{IsDistinct}
use run_buoy.Prelude.Sort.{sort_by, length-sort_by, drop, take-drop}
use run_buoy.Prelude.Exec.{ok, pure, ◌>>=◌, on_option}
use run_buoy.Server.Enums.{runs_read, machines_read, notifications_read}
use run_buoy.Server.Auth.{Principal}
use run_buoy.Server.Rows.{Workspace, Run}
use run_buoy.Server.History.{
  CursorKind, run_history, HistoryCursor, HistoryPage, is_newer, is_after_cursor, list_history,
  is_ended_run, list_run_history,
}
use run_buoy.Server.History.Paging.{last_of-split}
use run_buoy.Server.History.Pages.{read_history, after_cursor_lem, list_history-continue}
use run_buoy.Server.Snapshot.{
  not_modified, changed, history_link, is_live_run, newest_runs, sync_snapshot_limit, snapshot_of,
  has_scope, sync_snapshot,
}
use run_buoy.Server.Database.{Database, Settings, Handler}

-- A reader that goes on from a cursor, if it has one.
abbrev pub continue_from :
    {A : Type 0}
    → (Option HistoryCursor → Handler (HistoryPage A))
    → ℕ
    → Option HistoryCursor
    → Handler (List A)
continue_from fetch n none = pure []
continue_from fetch n (some c) = read_history fetch n (some c)

module _ {A : Type 0} where
  select_where-none :
      (q : A → Bool) (xs : List A) → exists_where q xs ≡ false → select_where q xs ≡ []
  select_where-none q [] h = refl
  select_where-none q (x ∷ xs) h = elim (Bool-cases (q x)) [
    | inl e ↦ absurd (ground (arith, h, e))
    | inr e ↦ rw e (select_where-none q xs (ground (arith, h, e)))
  ]

  length-drop_le : (n : ℕ) (xs : List A) → length (drop n xs) ≤ length xs
  length-drop_le zero xs = omega arith
  length-drop_le (suc n) [] = omega arith
  length-drop_le (suc n) (x ∷ xs) = omega (arith, length-drop_le n xs)

  append_assoc : (xs ys zs : List A) → (xs ++ ys) ++ zs ≡ xs ++ (ys ++ zs)
  append_assoc [] ys zs = refl
  append_assoc (x ∷ xs) ys zs = ap (λ l. x ∷ l) (append_assoc xs ys zs)

-- `limit` is the number of rows of a page, less one, and `shown` that of the rows shown.
module _ {A : Type 0} (time id : A → ℕ) (table : Database → List A) (due : A → Bool)
    (kind : CursorKind) (limit shown : ℕ) (db : Database) where
  link_continues :
      (n : ℕ) (all : List A)
      → IsDistinct (map id (table db))
      → sort_by (is_newer time id) (select_where due (table db)) ≡ all
      → length all ≤ n
      → continue_from
          (λ c. list_history time id table due kind c (suc limit) none)
          n
          (history_link time id due kind (take (suc shown) all) (table db))
          db
        ≡ ok (drop (suc shown) all, db)
  unfolding history_link pure
  link_continues n [] distinct e h = refl
  link_continues n (x ∷ xs) distinct e h =
      let (ys, y, split, last) = last_of-split x (take shown xs) in
      let rest = drop shown xs in
      let moved : sort_by (is_newer time id) (select_where due (table db)) ≡ ys ++ y ∷ rest =
        e
        ∙ sym (take-drop (suc shown) (x ∷ xs))
        ∙ ap (λ zs. zs ++ rest) split
        ∙ append_assoc ys (y ∷ []) rest in
      let after = after_cursor_lem time id table due kind limit none db ys rest y distinct moved in
      elim (Bool-cases
        (exists_where (λ r. due r && is_after_cursor time id (time y, id y) r) (table db))) [
          | inl more ↦
              rw (history_link, last, more)
                (list_history-continue time id table due kind limit none db n ys rest y distinct
                  moved (omega (arith, h, length-drop_le shown xs)))
          | inr no_more ↦
              let empty : [] ≡ rest =
                sym (
                  ap (sort_by (is_newer time id)) (
                    select_where-none (λ r. due r && is_after_cursor time id (time y, id y) r)
                      (table db) no_more))
                ∙ after in
              rw (history_link, last, no_more) (ap (λ zs. ok (zs, db)) empty)
        ]

unfoldable pub ended_runs : ℕ → Database → List Run
ended_runs workspace_id db =
    sort_by (is_newer (λ (r : Run). r.updated_at) (λ (r : Run). r.id))
      (select_where (is_ended_run workspace_id none) db.runs)

-- A reader that takes a snapshot and then, page by page, the history of runs that it names.
unfoldable pub read_all_runs : Settings → Principal → ℕ → ℕ → ℕ → Handler (List Run)
read_all_runs settings principal limit n now = do
  response ← sync_snapshot settings principal none [] now
  elim response [
    | not_modified revision ↦ pure []
    | changed s ↦ do
      rest ←
          continue_from (λ c. list_run_history principal c (suc limit) none) n
            s.history_runs_next_cursor
      pure (s.runs ++ rest)
  ]

snapshot_continues :
    (settings : Settings) (principal : Principal) (limit n now : ℕ) (db : Database) (w : Workspace)
    → w.id ≡ principal.workspace_id
    → IsDistinct (map (λ (r : Run). r.id) db.runs)
    → length (select_where (is_ended_run principal.workspace_id none) db.runs) ≤ n
    → continue_from
        (λ c. list_run_history principal c (suc limit) none)
        n
        (snapshot_of settings principal w now db).history_runs_next_cursor
        db
      ≡ ok (drop sync_snapshot_limit (ended_runs principal.workspace_id db), db)
unfolding snapshot_of newest_runs list_run_history ended_runs
snapshot_continues settings principal limit n now db w same distinct h = rw same (
    link_continues (λ (r : Run). r.updated_at) (λ (r : Run). r.id) (λ s. s.runs)
      (is_ended_run principal.workspace_id none) run_history limit 199 db n
      (ended_runs principal.workspace_id db) distinct refl
      (rw
        (length-sort_by (is_newer (λ (r : Run). r.updated_at) (λ (r : Run). r.id))
          (select_where (is_ended_run principal.workspace_id none) db.runs))
        h))

snapshot_shows :
    (settings : Settings) (principal : Principal) (now : ℕ) (db : Database) (w : Workspace)
    → w.id ≡ principal.workspace_id
    → (snapshot_of settings principal w now db).runs
      ≡ newest_runs
          (is_live_run principal.workspace_id)
          (settings.max_machines_per_workspace * settings.max_active_runs_per_machine)
          db
        ++ take sync_snapshot_limit (ended_runs principal.workspace_id db)
unfolding snapshot_of newest_runs ended_runs
snapshot_shows settings principal now db w same = rw same refl

-- A device with the scopes of synchronisation that takes the snapshot of its workspace and then the
-- history of runs from the cursor in it, with any size of a page but zero, gets the newest of the
-- runs that have not ended, as many as the quotas of the workspace allow, and then each run that has
-- ended once, the latest first; as many requests as there are ended runs are enough, while nothing
-- changes and the identifiers of runs are distinct.
pub read_all_runs_lem :
    (settings : Settings) (principal : Principal) (limit n now : ℕ) (db : Database) (w : Workspace)
    → has_scope principal.scopes runs_read ≡ true
    → has_scope principal.scopes machines_read ≡ true
    → has_scope principal.scopes notifications_read ≡ true
    → find_where (λ (x : Workspace). x.id == principal.workspace_id) db.workspaces ≡ some w
    → IsDistinct (map (λ (r : Run). r.id) db.runs)
    → length (select_where (is_ended_run principal.workspace_id none) db.runs) ≤ n
    → read_all_runs settings principal limit n now db
      ≡ ok (
        newest_runs
              (is_live_run principal.workspace_id)
              (settings.max_machines_per_workspace * settings.max_active_runs_per_machine)
              db
            ++ ended_runs principal.workspace_id db,
        db,
      )
unfolding read_all_runs sync_snapshot ◌>>=◌ on_option pure
read_all_runs_lem settings principal limit n now db w runs machines notifications found distinct h =
    let same : w.id ≡ principal.workspace_id =
      eq_of_== w.id principal.workspace_id
        (holds_of_find (λ (x : Workspace). x.id == principal.workspace_id) db.workspaces w found) in
    let active =
      newest_runs (is_live_run principal.workspace_id)
        (settings.max_machines_per_workspace * settings.max_active_runs_per_machine) db in
    let ended = ended_runs principal.workspace_id db in
    rw (runs, machines, notifications)
      (rw found (
        rw (snapshot_continues settings principal limit n now db w same distinct h) (
          ap (λ zs. ok (zs, db))
            (ap (λ zs. zs ++ drop sync_snapshot_limit ended)
                (snapshot_shows settings principal now db w same)
              ∙ append_assoc active (take sync_snapshot_limit ended)
                  (drop sync_snapshot_limit ended)
              ∙ ap (λ zs. active ++ zs) (take-drop sync_snapshot_limit ended)))))
