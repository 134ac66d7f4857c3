-- ===== src/Server/Retention/Batch.antt =====
-- The other classes of server/app/retention.py and `cleanup_retention` itself, with
-- `cleanup_abuse_state` of server/app/abuse.py.
use run_buoy.Prelude.{
  ℕ, ◌-◌, Bool, true, false, Option, none, some, List, [], ◌∷◌, ◌++◌, map, ltb, leb, if◌then◌else◌,
  or_else, max,
}
use run_buoy.Prelude.Table.{select_where, count_where, update_where, delete_where, is_one_of}
use run_buoy.Prelude.Sort.{sort_by}
use run_buoy.Prelude.Exec.{pure, gets, modify, ◌>>=◌, ◌>>◌, for_each}
use run_buoy.Server.Rows.{seconds, DeletionChallenge, Run, Bucket, PushOutbox, PushAttempt}
use run_buoy.Server.Accounts.{PairingSession, QuotaLock, AuditLog}
use run_buoy.Server.Notify.{bump_workspace_revision}
use run_buoy.Server.Retention.{
  is_old_attempt, is_old_outbox, is_old_pairing, is_old_audit_log, is_old_challenge, is_old_run,
  Cleaned, limited_ids, clean_notifications, clean_events, clean_tails, clean_pending_bindings,
}
use run_buoy.Server.Database.{Database, Settings, Handler}

unfoldable pub old_attempts : Settings → ℕ → Database → List ℕ
old_attempts settings now db =
    limited_ids (is_old_attempt settings now) (λ a. a.attempted_at) (λ a. a.id) settings db.attempts

unfoldable pub clean_attempts : Settings → ℕ → Handler ℕ
clean_attempts settings now = do
  ids ← gets (old_attempts settings now)
  count ← gets (λ db. count_where (λ (a : PushAttempt). is_one_of ids a.id) db.attempts)
  modify (λ db. record db { attempts = delete_where (λ a. is_one_of ids a.id) db.attempts })
  pure count

unfoldable pub old_outbox : Settings → ℕ → Database → List ℕ
old_outbox settings now db =
    limited_ids (is_old_outbox settings now) (λ o. o.updated_at) (λ o. o.id) settings db.outbox

-- Rows of the outbox with their attempts.
unfoldable pub delete_outbox : List ℕ → Database → Database
delete_outbox ids db = record db {
  attempts = delete_where (λ a. is_one_of ids a.outbox_id) db.attempts;
  outbox = delete_where (λ o. is_one_of ids o.id) db.outbox;
}

unfoldable pub clean_outbox : Settings → ℕ → Handler ℕ
clean_outbox settings now = do
  ids ← gets (old_outbox settings now)
  count ← gets (λ db. count_where (λ (o : PushOutbox). is_one_of ids o.id) db.outbox)
  modify (delete_outbox ids)
  pure count

unfoldable pub clean_pairings : Settings → ℕ → Handler ℕ
clean_pairings settings now = do
  ids ← gets (λ db.
      limited_ids (is_old_pairing settings now) (λ p. p.expires_at) (λ p. p.id) settings
        db.pairings)
  count ← gets (λ db. count_where (λ (p : PairingSession). is_one_of ids p.id) db.pairings)
  modify (λ db. record db { pairings = delete_where (λ p. is_one_of ids p.id) db.pairings })
  pure count

unfoldable pub clean_audit_logs : Settings → ℕ → Handler ℕ
clean_audit_logs settings now = do
  ids ← gets (λ db.
      limited_ids (is_old_audit_log settings now) (λ a. a.created_at) (λ a. a.id) settings
        db.audit_logs)
  count ← gets (λ db. count_where (λ (a : AuditLog). is_one_of ids a.id) db.audit_logs)
  modify (λ db. record db { audit_logs = delete_where (λ a. is_one_of ids a.id) db.audit_logs })
  pure count

unfoldable pub clean_challenges : Settings → ℕ → Handler ℕ
clean_challenges settings now = do
  ids ← gets (λ db.
      limited_ids (is_old_challenge now) (λ c. c.expires_at) (λ c. c.id) settings db.challenges)
  count ← gets (λ db. count_where (λ (c : DeletionChallenge). is_one_of ids c.id) db.challenges)
  modify (λ db. record db { challenges = delete_where (λ c. is_one_of ids c.id) db.challenges })
  pure count

unfoldable pub old_runs : Settings → ℕ → Database → List ℕ
old_runs settings now db =
    limited_ids (is_old_run settings now db) (λ r. or_else r.ended_at 0) (λ r. r.id) settings
      db.runs

unfoldable pub is_of_runs : List ℕ → Option ℕ → Bool
is_of_runs ids none = false
is_of_runs ids (some r) = is_one_of ids r

-- Runs with all that refers to them; a notification only loses its reference.
unfoldable pub delete_old_runs : List ℕ → Database → Database
unfolding delete_outbox
delete_old_runs ids db =
    let outbox_ids =
      map (λ (o : PushOutbox). o.id) (select_where (λ o. is_of_runs ids o.run_id) db.outbox) in
    record (delete_outbox outbox_ids db) {
      events = delete_where (λ e. is_one_of ids e.run_id) db.events;
      bindings = delete_where (λ b. is_one_of ids b.run_id) db.bindings;
      notifications =
          update_where (λ n. is_of_runs ids n.run_id) (λ n. record n { run_id = none })
            db.notifications;
      runs = delete_where (λ r. is_one_of ids r.id) db.runs;
    }

unfoldable pub clean_runs : Settings → ℕ → Handler Cleaned
clean_runs settings now = do
  ids ← gets (old_runs settings now)
  gone ← gets (λ db. select_where (λ (r : Run). is_one_of ids r.id) db.runs)
  modify (delete_old_runs ids)
  pure (record {
    changed = map (λ (r : Run). r.workspace_id) gone;
    count = count_where (λ (r : Run). true) gone;
  })

-- cleanup_abuse_state
unfoldable pub cleanup_abuse_state : Settings → ℕ → Handler (ℕ × ℕ)
cleanup_abuse_state settings now =
    let cutoff =
      now
      - seconds (max settings.rate_limit_bucket_retention_seconds settings.pairing_ttl_seconds) in
    do
      buckets ← gets (λ db. count_where (λ (b : Bucket). leb b.expires_at now) db.buckets)
      modify (λ db. record db { buckets = delete_where (λ b. leb b.expires_at now) db.buckets })
      locks ← gets (λ db. count_where (λ (l : QuotaLock). ltb l.last_used_at cutoff) db.quota_locks)
      modify (λ db. record db {
        quota_locks = delete_where (λ l. ltb l.last_used_at cutoff) db.quota_locks;
      })
      pure (buckets, locks)

-- set(…) of a list: each entry once
abbrev pub distinct : List ℕ → List ℕ
distinct [] = []
distinct (i ∷ is) = let rest = distinct is in if is_one_of is i then rest else i ∷ rest

-- The dictionary that `cleanup_retention` returns.
pub record Cleanup : Type 0 where
  pub notifications : ℕ
  pub events : ℕ
  pub safe_log_tails : ℕ
  pub pending_live_activities : ℕ
  pub push_attempts : ℕ
  pub terminal_outbox : ℕ
  pub pairing_sessions : ℕ
  pub audit_logs : ℕ
  pub deletion_challenges : ℕ
  pub runs : ℕ
  pub rate_limit_buckets : ℕ
  pub quota_locks : ℕ

unfoldable pub bump_workspace : ℕ → Handler Unit
bump_workspace workspace_id = bump_workspace_revision workspace_id >> pure tt

-- cleanup_retention
unfoldable pub cleanup_retention : Settings → ℕ → Handler Cleanup
cleanup_retention settings now = do
  notifications ← clean_notifications settings now
  events ← clean_events settings now
  tails ← clean_tails settings now
  bindings ← clean_pending_bindings settings now
  attempts ← clean_attempts settings now
  outbox ← clean_outbox settings now
  pairings ← clean_pairings settings now
  audit_logs ← clean_audit_logs settings now
  challenges ← clean_challenges settings now
  runs ← clean_runs settings now
  abuse ← cleanup_abuse_state settings now
  for_each
      (sort_by leb
        (distinct (notifications.changed ++ events.changed ++ tails.changed ++ runs.changed)))
      bump_workspace
  pure (record {
    notifications = notifications.count;
    events = events.count;
    safe_log_tails = tails.count;
    pending_live_activities = bindings.count;
    push_attempts = attempts;
    terminal_outbox = outbox;
    pairing_sessions = pairings;
    audit_logs = audit_logs;
    deletion_challenges = challenges;
    runs = runs.count;
    rate_limit_buckets = abuse.0;
    quota_locks = abuse.1;
  })
