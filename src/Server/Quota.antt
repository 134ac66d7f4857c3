-- ===== src/Server/Quota.antt =====
-- The request accounting of server/app/abuse.py: counters in fixed windows.
use mathlib.Core.Bool.{Bool}
use text.Mathlib.Text.{◌==◌ as str_eq}
use run_buoy.Prelude.{ℕ, ◌+◌, ◌-◌, ◌*◌, ◌%◌, max, ◌&&◌, String, List, ltb, ◌==◌, if◌then◌else◌}
use run_buoy.Prelude.Table.{exists_where, find_where, update_where, insert}
use run_buoy.Prelude.Exec.{pure, raise, gets, modify, ◌>>=◌, ◌>>◌, on_option}
use run_buoy.Server.Rows.{seconds, Bucket, Subject, workspace_subject, subject_eq}
use run_buoy.Server.Accounts.{LockKey, lock_eq, QuotaLock}
use run_buoy.Server.Payload.{timestamp}
use run_buoy.Server.Database.{Settings, notification_quota_exceeded, Handler}

-- The primary key of a bucket.
abbrev pub is_bucket : String → Subject → ℕ → Bucket → Bool
is_bucket name subject start b =
    str_eq b.bucket_name name && subject_eq b.subject_key subject && b.window_start == start

unfoldable pub new_bucket : String → Subject → ℕ → ℕ → ℕ → Bucket
new_bucket name subject start expires_at now = record {
  bucket_name = name;
  subject_key = subject;
  window_start = start;
  request_count = 1;
  expires_at = expires_at;
  updated_at = now;
}

unfoldable pub count_request : ℕ → ℕ → Bucket → Bucket
count_request expires_at now b = record b {
  request_count = b.request_count + 1;
  expires_at = expires_at;
  updated_at = now;
}

-- _increment_bucket: one INSERT … ON CONFLICT DO UPDATE … RETURNING statement.
unfoldable pub increment_bucket : String → Subject → ℕ → ℕ → ℕ → Handler ℕ
unfolding new_bucket count_request
increment_bucket name subject start expires_at now = do
  found ← gets (λ db. find_where (is_bucket name subject start) db.buckets)
  on_option found
      (do
        modify (λ db. record db {
          buckets = insert (new_bucket name subject start expires_at now) db.buckets;
        })
        pure 1)
      (λ b. do
        modify (λ db. record db {
          buckets =
              update_where (is_bucket name subject start)
                (λ c. record c {
                  request_count = c.request_count + 1;
                  expires_at = expires_at;
                  updated_at = now;
                })
                db.buckets;
        })
        pure (b.request_count + 1))

abbrev pub window_start : ℕ → ℕ → ℕ
window_start epoch window_seconds = epoch - epoch % window_seconds

abbrev pub day_seconds : ℕ
day_seconds = 24 * 60 * 60

-- enforce_notification_daily_quota, for a database that answers. The subject key is the workspace's
-- digest, which stands for the workspace.
unfoldable pub enforce_notification_daily_quota : Settings → ℕ → ℕ → Handler Unit
enforce_notification_daily_quota settings workspace_id now =
    let epoch = timestamp now in
    let start = window_start epoch day_seconds in
    let reset_epoch = start + day_seconds in
    do
      count ←
          increment_bucket "notification_daily_quota" (workspace_subject workspace_id) start
            (seconds (reset_epoch + settings.rate_limit_bucket_retention_seconds)) now
      if ltb settings.max_notifications_per_workspace_day count
          then raise (
              notification_quota_exceeded settings.max_notifications_per_workspace_day
                (max 1 (reset_epoch - epoch)))
          else pure tt

unfoldable pub touch_lock : LockKey → ℕ → List QuotaLock → List QuotaLock
touch_lock key now locks =
    update_where (λ l. lock_eq l.lock_key key) (λ l. record l { last_used_at = now })
      (if exists_where (λ l. lock_eq l.lock_key key) locks
        then locks
        else insert (record { lock_key = key; last_used_at = now }) locks)

-- acquire_quota_lock: INSERT … ON CONFLICT DO NOTHING, then the time of the row.
unfoldable pub acquire_quota_lock : LockKey → ℕ → Handler Unit
acquire_quota_lock key now =
    modify (λ db. record db { quota_locks = touch_lock key now db.quota_locks })
