-- ===== src/Server/RateLimit.antt =====
-- The rate limit of requests: `enforce_rate_limit` and `cleanup_abuse_state` of server/app/abuse.py.
-- The increment is committed before the decision, so a refused request counts too: the decision is a
-- value, and the handler does not raise. `available` says whether the database answers.
pub mod Window
use run_buoy.Prelude.{
  ℕ, ◌+◌, ◌-◌, max, Bool, true, false, Option, none, some, String, List, [], ◌∷◌, leb, ltb,
  if◌then◌else◌,
}
use run_buoy.Prelude.Table.{count_where, delete_where}
use run_buoy.Prelude.Exec.{pure, gets, modify, ◌>>=◌, ◌>>◌}
use run_buoy.Server.Rows.{seconds, Bucket, Subject}
use run_buoy.Server.Payload.{timestamp}
use run_buoy.Server.Database.{Database, Settings, Handler}
use run_buoy.Server.Quota.{increment_bucket, window_start}

pub record RateLimitResult : Type 0 where
  pub bucket : String
  pub limit : ℕ
  pub remaining : ℕ
  pub reset_epoch : ℕ
  pub retry_after : ℕ

-- The request goes on with its headers, goes on uncounted, or gets a 429 or a 503.
pub data RateDecision : Type 0 where
  allowed : RateLimitResult → RateDecision
  fail_open : RateDecision
  rate_limit_exceeded : RateLimitResult → RateDecision
  rate_limiter_unavailable : RateDecision

unfoldable pub decide : String → ℕ → ℕ → ℕ → ℕ → RateDecision
decide bucket_name limit reset_epoch epoch count =
    let result : RateLimitResult = record {
      bucket = bucket_name;
      limit = limit;
      remaining = limit - count;
      reset_epoch = reset_epoch;
      retry_after = max 1 (reset_epoch - epoch);
    } in
    if ltb limit count then rate_limit_exceeded result else allowed result

unfoldable pub enforce_rate_limit :
    Settings → Bool → String → Subject → ℕ → ℕ → ℕ → Handler RateDecision
enforce_rate_limit settings available bucket_name subject_key limit window_seconds now =
    let epoch = timestamp now in
    let start = window_start epoch window_seconds in
    let reset_epoch = start + window_seconds in
    if available
    then (do
      count ←
          increment_bucket bucket_name subject_key start
            (seconds (reset_epoch + settings.rate_limit_bucket_retention_seconds)) now
      pure (decide bucket_name limit reset_epoch epoch count))
    else pure (if settings.rate_limit_fail_open then fail_open else rate_limiter_unavailable)

-- The part of cleanup_abuse_state on the counters: how many went.
unfoldable pub cleanup_buckets : ℕ → Handler ℕ
cleanup_buckets now = do
  n ← gets (λ db. count_where (λ (b : Bucket). leb b.expires_at now) db.buckets)
  modify
      (λ db. record db { buckets = delete_where (λ (b : Bucket). leb b.expires_at now) db.buckets })
  pure n
