-- ===== src/Server/Retention/Swept.antt =====
-- The database that `cleanup_retention` leaves, before the revisions are raised.
use run_buoy.Prelude.Where.{exists-update, find_of_exists}
use run_buoy.Prelude.Keys.{ids-update}
use run_buoy.Prelude.{
  ◌+◌, All, All-map_imp, All, ℕ, ◌≡◌, refl, ◌∙◌, true, List, [], ◌∷◌, ◌++◌, map, ◌==◌, leb, ltb,
  ◌-◌, max,
}
use run_buoy.Prelude.Table.{
  exists_where, select_where, count_where, update_where, delete_where, is_one_of,
}
use run_buoy.Prelude.Sort.{sort_by}
use run_buoy.Prelude.Exec.{ok, on_option, ok, pure, ◌>>=◌, on_option, for_each}
use run_buoy.Server.Notify.{bump_workspace_revision}
use run_buoy.Server.Rows.{Workspace, seconds, Run, Notification}
use run_buoy.Server.Database.{Database, Settings}
use run_buoy.Server.Retention.{
  old_notifications, old_events, old_tails, old_pending_bindings, clear_tail, expire_binding,
  owns_event, is_old_pairing, is_old_audit_log, is_old_challenge, limited_ids, clean_notifications,
  clean_events, clean_tails, clean_pending_bindings,
}
use run_buoy.Server.Retention.Batch.{
  old_attempts, delete_outbox, old_outbox, delete_old_runs, old_runs, distinct, Cleanup,
  bump_workspace, cleanup_retention, clean_attempts, clean_outbox, clean_pairings, clean_audit_logs,
  clean_challenges, clean_runs, cleanup_abuse_state,
}

-- Raising revisions changes nothing else, and succeeds if the workspaces are there.
pub bump_each-ok :
    (ids : List ℕ) (db : Database)
    → All (λ i. exists_where (λ (w : Workspace). w.id == i) db.workspaces ≡ true) ids
    → (db' : Database) × (for_each ids bump_workspace db ≡ ok (tt, db'))
      × (db' ≡ record db { workspaces = db'.workspaces })
      × (map (λ (w : Workspace). w.id) db'.workspaces ≡ map (λ (w : Workspace). w.id) db.workspaces)
unfolding for_each bump_workspace bump_workspace_revision ◌>>=◌ on_option
bump_each-ok [] db h = (db, refl, refl, refl)
bump_each-ok (i ∷ is) db h =
    let found = find_of_exists (λ (w : Workspace). w.id == i) db.workspaces h.0 in
    let next : Database = record db {
      workspaces =
          update_where (λ v. v.id == i) (λ v. record v { revision = v.revision + 1 }) db.workspaces;
    } in
    let rest = bump_each-ok is next (
      All-map_imp (λ j. exists_where (λ (w : Workspace). w.id == j) db.workspaces ≡ true)
        (λ j. exists_where (λ (w : Workspace). w.id == j) next.workspaces ≡ true)
        (λ j k.
          exists-update (λ w. w.id == j) (λ v. v.id == i)
            (λ v. record v { revision = v.revision + 1 }) db.workspaces (λ w. refl)
          ∙ k)
        is h.1) in
    (
      rest.0,
      (rw found.1 rest.1),
      rest.2,
      rest.3
          ∙ ids-update (λ w. w.id) (λ v. v.id == i) (λ v. record v { revision = v.revision + 1 })
              db.workspaces (λ w. refl),
    )

module _ (settings : Settings) (now : ℕ) where
  abbrev pub without_notifications : Database → Database
  without_notifications db = record db {
    notifications =
        delete_where (λ n. is_one_of (old_notifications settings now db) n.id) db.notifications;
  }

  abbrev pub without_events : Database → Database
  without_events db = record db {
    events = delete_where (λ e. is_one_of (old_events settings now db) e.id) db.events;
  }

  abbrev pub without_tails : Database → Database
  without_tails db = record db {
    runs = update_where (λ r. is_one_of (old_tails settings now db) r.id) clear_tail db.runs;
  }

  abbrev pub without_pending_bindings : Database → Database
  without_pending_bindings db = record db {
    bindings =
        update_where (λ b. is_one_of (old_pending_bindings settings now db) b.id)
          (expire_binding now) db.bindings;
  }

  abbrev pub without_attempts : Database → Database
  without_attempts db = record db {
    attempts = delete_where (λ a. is_one_of (old_attempts settings now db) a.id) db.attempts;
  }

  abbrev pub without_outbox : Database → Database
  without_outbox db = delete_outbox (old_outbox settings now db) db

  abbrev pub without_accounts : Database → Database
  without_accounts db =
      let pairing_ids =
        limited_ids (is_old_pairing settings now) (λ p. p.expires_at) (λ p. p.id) settings
          db.pairings in
      let audit_ids =
        limited_ids (is_old_audit_log settings now) (λ a. a.created_at) (λ a. a.id) settings
          db.audit_logs in
      let challenge_ids =
        limited_ids (is_old_challenge now) (λ c. c.expires_at) (λ c. c.id) settings db.challenges in
      record db {
        pairings = delete_where (λ p. is_one_of pairing_ids p.id) db.pairings;
        audit_logs = delete_where (λ a. is_one_of audit_ids a.id) db.audit_logs;
        challenges = delete_where (λ c. is_one_of challenge_ids c.id) db.challenges;
      }

  abbrev pub without_runs : Database → Database
  without_runs db = delete_old_runs (old_runs settings now db) db

  abbrev pub without_abuse : Database → Database
  without_abuse db = record db {
    buckets = delete_where (λ b. leb b.expires_at now) db.buckets;
    quota_locks =
        delete_where
          (λ l. ltb l.last_used_at (
            now
            - seconds
                (max settings.rate_limit_bucket_retention_seconds settings.pairing_ttl_seconds)))
          db.quota_locks;
  }

  -- The rows that the phones see: before the runs are deleted, and after.
  abbrev pub swept_rows : Database → Database
  swept_rows db = without_accounts (
      without_outbox (
        without_attempts
          (without_pending_bindings (without_tails (without_events (without_notifications db))))))

  abbrev pub swept : Database → Database
  swept db = without_abuse (without_runs (swept_rows db))

  -- The workspaces whose revision is raised.
  abbrev pub changed_workspaces : Database → List ℕ
  changed_workspaces db =
      let db' = without_notifications db in
      let db'' = without_events db' in
      map (λ (n : Notification). n.workspace_id)
        (select_where (λ n. is_one_of (old_notifications settings now db) n.id) db.notifications)
      ++ map (λ (r : Run). r.workspace_id)
          (select_where (owns_event (old_events settings now db') db') db'.runs)
      ++ map (λ (r : Run). r.workspace_id)
          (select_where (λ r. is_one_of (old_tails settings now db'') r.id) db''.runs)
      ++ map (λ (r : Run). r.workspace_id)
          (select_where (λ r. is_one_of (old_runs settings now (swept_rows db)) r.id)
            (swept_rows db).runs)

  -- The numbers that are returned.
  abbrev pub sweep_counts : Database → Cleanup
  sweep_counts db =
      let db1 = without_notifications db in
      let db2 = without_events db1 in
      let db3 = without_tails db2 in
      let db4 = without_pending_bindings db3 in
      let db5 = without_attempts db4 in
      let db6 = without_outbox db5 in
      record {
        notifications =
            count_where (λ (n : Notification). true)
              (select_where (λ n. is_one_of (old_notifications settings now db) n.id)
                db.notifications);
        events = count_where (λ e. is_one_of (old_events settings now db1) e.id) db1.events;
        safe_log_tails =
            count_where (λ (r : Run). true)
              (select_where (λ r. is_one_of (old_tails settings now db2) r.id) db2.runs);
        pending_live_activities =
            count_where (λ b. is_one_of (old_pending_bindings settings now db3) b.id) db3.bindings;
        push_attempts =
            count_where (λ a. is_one_of (old_attempts settings now db4) a.id) db4.attempts;
        terminal_outbox =
            count_where (λ o. is_one_of (old_outbox settings now db5) o.id) db5.outbox;
        pairing_sessions =
            count_where
              (λ p.
                is_one_of
                  (limited_ids (is_old_pairing settings now) (λ p. p.expires_at) (λ p. p.id)
                    settings db6.pairings)
                  p.id)
              db6.pairings;
        audit_logs =
            count_where
              (λ a.
                is_one_of
                  (limited_ids (is_old_audit_log settings now) (λ a. a.created_at) (λ a. a.id)
                    settings db6.audit_logs)
                  a.id)
              db6.audit_logs;
        deletion_challenges =
            count_where
              (λ c.
                is_one_of
                  (limited_ids (is_old_challenge now) (λ c. c.expires_at) (λ c. c.id) settings
                    db6.challenges)
                  c.id)
              db6.challenges;
        runs =
            count_where (λ (r : Run). true)
              (select_where (λ r. is_one_of (old_runs settings now (swept_rows db)) r.id)
                (swept_rows db).runs);
        rate_limit_buckets =
            count_where (λ b. leb b.expires_at now) (without_runs (swept_rows db)).buckets;
        quota_locks =
            count_where
              (λ l. ltb l.last_used_at (
                now
                - seconds (
                    max settings.rate_limit_bucket_retention_seconds settings.pairing_ttl_seconds)))
              (without_runs (swept_rows db)).quota_locks;
      }

  pub cleanup_retention-swept :
      (db : Database)
      → cleanup_retention settings now db
        ≡ (for_each (sort_by leb (distinct (changed_workspaces db))) bump_workspace >>= λ _.
              pure (sweep_counts db))
            (swept db)
  unfolding cleanup_retention clean_notifications clean_events clean_tails clean_pending_bindings
      clean_attempts clean_outbox clean_pairings clean_audit_logs clean_challenges clean_runs
      cleanup_abuse_state ◌>>=◌
  cleanup_retention-swept db = refl
