-- ===== src/Server/Retention/Bounds.antt =====
-- How much one call of `cleanup_retention` deletes.
use run_buoy.Prelude.{
  ℕ, ◌+◌, none, ◌≤◌, suc, ◌≡◌, refl, sym, subst, Bool-cases, inl, inr, ap, arith, Bool, true, List,
  [], ◌∷◌, map, length, length-take-le,
}
use run_buoy.Prelude.Table.{select_where, count_where, is_one_of, delete_where, update_where}
use run_buoy.Prelude.Sort.{select_page, sort_by}
use run_buoy.Prelude.Keys.{IsDistinct, count_by_ids_le, ids-update}
use run_buoy.Prelude.Exec.{ok}
use run_buoy.Server.Rows.{Run, Notification, Workspace}
use run_buoy.Server.Database.{Database, Settings}
use run_buoy.Server.Retention.{
  clear_tail, limited_ids, old_notifications, old_events, old_tails, old_pending_bindings,
  is_old_notification, is_old_tail, is_old_run,
}
use run_buoy.Server.Retention.Batch.{
  old_attempts, old_outbox, old_runs, delete_outbox, delete_old_runs, is_of_runs, Cleanup,
  cleanup_retention,
}
use run_buoy.Server.Retention.Swept.{
  without_notifications, without_events, swept_rows, sweep_counts, swept,
}
use run_buoy.Server.Retention.References.{HasReferences, cleanup_retention-ok}
use run_buoy.Server.Retention.Kept.{HasKeys}

-- Each class is one batch at most.
pub record IsWithinBatch (limit : ℕ) (c : Cleanup) : Type 0 where
  pub notifications : c.notifications ≤ limit
  pub events : c.events ≤ limit
  pub safe_log_tails : c.safe_log_tails ≤ limit
  pub pending_live_activities : c.pending_live_activities ≤ limit
  pub push_attempts : c.push_attempts ≤ limit
  pub terminal_outbox : c.terminal_outbox ≤ limit
  pub pairing_sessions : c.pairing_sessions ≤ limit
  pub audit_logs : c.audit_logs ≤ limit
  pub deletion_challenges : c.deletion_challenges ≤ limit
  pub runs : c.runs ≤ limit

module _ {A : Type 0} (id : A → ℕ) where
  length-map_ids : (xs : List A) → length (map id xs) ≡ length xs
  length-map_ids [] = refl
  length-map_ids (x ∷ xs) = ap suc (length-map_ids xs)

  count-page :
      (due : A → Bool) (before : A → A → Bool) (limit : ℕ) (rows : List A)
      → IsDistinct (map id rows)
      → count_where (λ r. is_one_of (map id (select_page due before limit rows)) (id r)) rows
        ≤ limit
  count-page due before limit rows keys =
      let page = select_page due before limit rows in
      omega (
        arith,
        count_by_ids_le id (map id page) rows keys,
        length-map_ids page,
        length-take-le limit (sort_by before (select_where due rows)),
      )

  count_selected :
      (q : A → Bool) (rows : List A)
      → count_where (λ r. true) (select_where q rows) ≡ count_where q rows
  count_selected q [] = refl
  count_selected q (x ∷ xs) = ground (arith, count_selected q xs)

  count_selected-page :
      (due : A → Bool) (before : A → A → Bool) (limit : ℕ) (rows : List A)
      → IsDistinct (map id rows)
      → count_where
          (λ r. true)
          (select_where (λ r. is_one_of (map id (select_page due before limit rows)) (id r)) rows)
        ≤ limit
  count_selected-page due before limit rows keys = omega (
    arith,
    count_selected (λ r. is_one_of (map id (select_page due before limit rows)) (id r)) rows,
    count-page due before limit rows keys,
  )

-- What the numbers count: the rows that are gone, but that events, attempts and rows of the outbox go
-- with their runs too, beyond the batch that was counted.
pub record IsTally (db db' : Database) (c : Cleanup) : Type 0 where
  pub notifications : length db'.notifications + c.notifications ≡ length db.notifications
  pub pairing_sessions : length db'.pairings + c.pairing_sessions ≡ length db.pairings
  pub audit_logs : length db'.audit_logs + c.audit_logs ≡ length db.audit_logs
  pub deletion_challenges : length db'.challenges + c.deletion_challenges ≡ length db.challenges
  pub runs : length db'.runs + c.runs ≡ length db.runs
  pub rate_limit_buckets : length db'.buckets + c.rate_limit_buckets ≡ length db.buckets
  pub quota_locks : length db'.quota_locks + c.quota_locks ≡ length db.quota_locks
  pub events : length db'.events + c.events ≤ length db.events
  pub push_attempts : length db'.attempts + c.push_attempts ≤ length db.attempts
  pub terminal_outbox : length db'.outbox + c.terminal_outbox ≤ length db.outbox

module _ {A : Type 0} where
  length-delete_where :
      (q : A → Bool) (rows : List A)
      → length (delete_where q rows) + count_where q rows ≡ length rows
  length-delete_where q [] = refl
  length-delete_where q (x ∷ xs) = elim (Bool-cases (q x)) [
    | inl e ↦ rw e (omega (arith, length-delete_where q xs))
    | inr e ↦ rw e (omega (arith, length-delete_where q xs))
  ]

  length-update_where :
      (q : A → Bool) (f : A → A) (rows : List A) → length (update_where q f rows) ≡ length rows
  length-update_where q f [] = refl
  length-update_where q f (x ∷ xs) = ap suc (length-update_where q f xs)

  length-delete_selected :
      (q : A → Bool) (rows : List A)
      → length (delete_where q rows) + count_where (λ r. true) (select_where q rows) ≡ length rows
  length-delete_selected q [] = refl
  length-delete_selected q (x ∷ xs) = elim (Bool-cases (q x)) [
    | inl e ↦ rw e (omega (arith, length-delete_selected q xs))
    | inr e ↦ rw e (omega (arith, length-delete_selected q xs))
  ]

  -- A second deletion takes no counted row back.
  length-delete_twice :
      (q p : A → Bool) (rows : List A)
      → length (delete_where p (delete_where q rows)) + count_where q rows ≤ length rows
  length-delete_twice q p rows =
      omega (arith, length-delete_where q rows, length-delete_where p (delete_where q rows))

  length-delete_thrice :
      (q p r : A → Bool) (rows : List A)
      → length (delete_where r (delete_where p (delete_where q rows))) + count_where q rows
        ≤ length rows
  length-delete_thrice q p r rows = omega (
    arith,
    length-delete_twice q p rows,
    length-delete_where r (delete_where p (delete_where q rows)),
  )

cleanup-IsTally :
    (settings : Settings) (now : ℕ) (db : Database) (workspaces : List Workspace)
    → IsTally db
        (record (swept settings now db) { workspaces = workspaces })
        (sweep_counts settings now db)
unfolding delete_outbox delete_old_runs clear_tail
cleanup-IsTally settings now db workspaces = record {
  notifications = omega (
    arith,
    length-update_where
        (λ (n : Notification).
          is_of_runs (old_runs settings now (swept_rows settings now db)) n.run_id)
        (λ n. record n { run_id = none }) (without_notifications settings now db).notifications,
    length-delete_selected (λ n. is_one_of (old_notifications settings now db) n.id)
        db.notifications,
  );
  pairing_sessions = length-delete_where _ db.pairings;
  audit_logs = length-delete_where _ db.audit_logs;
  deletion_challenges = length-delete_where _ db.challenges;
  runs = omega (
    arith,
    length-delete_selected
        (λ (r : Run). is_one_of (old_runs settings now (swept_rows settings now db)) r.id)
        (swept_rows settings now db).runs,
    length-update_where
        (λ (r : Run).
          is_one_of
            (old_tails settings now
              (without_events settings now (without_notifications settings now db)))
            r.id)
        clear_tail db.runs,
  );
  rate_limit_buckets = length-delete_where _ db.buckets;
  quota_locks = length-delete_where _ db.quota_locks;
  events = length-delete_twice _ _ db.events;
  push_attempts = length-delete_thrice _ _ _ db.attempts;
  terminal_outbox = length-delete_twice _ _ db.outbox;
}

-- A cleanup of a database whose keys are right returns numbers that are at most a batch in each of the
-- ten classes of retention, and that count what is gone: exactly so for notifications, pairing
-- sessions, audit logs, deletion challenges and runs, and for the rate limit counters and quota locks,
-- which have no batch; of events, push attempts and outbox rows at least that many are gone, since
-- others go with their runs.
pub cleanup_retention-IsWithinBatch :
    (settings : Settings) (now : ℕ) (db : Database)
    → HasReferences db
    → HasKeys db
    → (c : Cleanup) × (db' : Database) × (cleanup_retention settings now db ≡ ok (c, db'))
      × IsWithinBatch settings.retention_cleanup_batch_size c
      × IsTally db db' c
unfolding limited_ids old_notifications old_events old_tails old_pending_bindings old_attempts
    old_outbox old_runs delete_outbox clear_tail
cleanup_retention-IsWithinBatch settings now db references keys =
    let done = cleanup_retention-ok settings now db references in
    let db' = without_events settings now (without_notifications settings now db) in
    (
      sweep_counts settings now db,
      done.0,
      done.1,
      record {
        notifications =
            count_selected-page (λ n. n.id) (is_old_notification settings now db) _ _
              db.notifications keys.notifications;
        events = count-page (λ e. e.id) _ _ _ db.events keys.events;
        safe_log_tails =
            count_selected-page (λ r. r.id) (is_old_tail settings now) _ _ db.runs keys.runs;
        pending_live_activities = count-page (λ b. b.id) _ _ _ db.bindings keys.bindings;
        push_attempts = count-page (λ a. a.id) _ _ _ db.attempts keys.attempts;
        terminal_outbox = count-page (λ o. o.id) _ _ _ db.outbox keys.outbox;
        pairing_sessions = count-page (λ p. p.id) _ _ _ db.pairings keys.pairings;
        audit_logs = count-page (λ a. a.id) _ _ _ db.audit_logs keys.audit_logs;
        deletion_challenges = count-page (λ c. c.id) _ _ _ db.challenges keys.challenges;
        runs =
            count_selected-page (λ r. r.id) (is_old_run settings now (swept_rows settings now db)) _
              _ (swept_rows settings now db).runs
              (rw
                (ids-update (λ (r : Run). r.id) (λ r. is_one_of (old_tails settings now db') r.id)
                  clear_tail db.runs (λ r. refl))
                keys.runs);
      },
      subst (λ d. IsTally db d (sweep_counts settings now db)) (sym done.2)
          (cleanup-IsTally settings now db done.0.workspaces),
    )
