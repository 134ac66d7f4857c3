-- ===== src/Server/Retention.antt =====
-- server/app/retention.py: one bounded batch of each retention class is deleted, in the order of
-- `cleanup_retention`.
pub mod Batch
pub mod Swept
pub mod References
pub mod Kept
pub mod Shown
pub mod Bounds
use run_buoy.Prelude.{
  ℕ, ◌+◌, ◌-◌, ◌*◌, Bool, true, false, not, ◌&&◌, ◌||◌, Option, none, some, List, [], ◌∷◌, ◌++◌,
  map, ◌==◌, ltb, leb, if◌then◌else◌, is_none, is_some, or_else, max,
}
use run_buoy.Prelude.Table.{
  select_where, exists_where, count_where, update_where, delete_where, is_one_of,
}
use run_buoy.Prelude.Sort.{sort_by, select_page}
use run_buoy.Prelude.Exec.{pure, gets, modify, ◌>>=◌, ◌>>◌, for_each}
use run_buoy.Server.Enums.{
  OutboxStatus, BindingState, is_terminal, is_pending, is_deliverable, is_active,
}
use run_buoy.Server.Rows.{
  seconds, DeletionChallenge, Run, RunEvent, Notification, ActivityId, pending_activity,
  named_activity, Binding, PushOutbox, PushAttempt,
}
use run_buoy.Server.Accounts.{PairingSession, AuditLog}
use run_buoy.Server.Notify.{bump_workspace_revision}
use run_buoy.Server.Database.{Database, Settings, Handler}

-- timedelta(hours=n) and timedelta(days=n)
abbrev pub hours : ℕ → ℕ
hours n = seconds (n * 3600)

abbrev pub days : ℕ → ℕ
days n = seconds (n * 86400)

-- ORDER BY time, id
abbrev pub is_earlier : ℕ → ℕ → ℕ → ℕ → Bool
is_earlier time id time' id' = ltb time time' || time == time' && leb id id'

-- The statuses of TERMINAL_OUTBOX_STATUSES: all but pending.
abbrev pub is_settled : OutboxStatus → Bool
is_settled status = not (is_pending status)

-- activity_id LIKE 'pending:%'
abbrev pub is_pending_activity : ActivityId → Bool
is_pending_activity (pending_activity i) = true
is_pending_activity (named_activity i) = false

-- id IN (SELECT runs.id WHERE NOT terminal)
unfoldable pub is_active_run : Database → ℕ → Bool
is_active_run db id =
    exists_where (λ (r : Run). r.id == id && not (is_terminal r.execution_status)) db.runs

-- The join of an event with its terminal run.
unfoldable pub is_terminal_run : Database → ℕ → Bool
is_terminal_run db id =
    exists_where (λ (r : Run). r.id == id && is_terminal r.execution_status) db.runs

unfoldable pub is_old_notification : Settings → ℕ → Database → Notification → Bool
is_old_notification settings now db n =
    (elim n.expires_at [ none ↦ false | some t ↦ leb t now ]
      || ltb n.created_at (now - days settings.notification_retention_days))
    && elim n.run_id [ none ↦ true | some r ↦ not (is_active_run db r) ]

unfoldable pub is_old_event : Settings → ℕ → Database → RunEvent → Bool
is_old_event settings now db e =
    is_terminal_run db e.run_id && ltb e.received_at (now - hours settings.event_retention_hours)

unfoldable pub is_old_tail : Settings → ℕ → Run → Bool
is_old_tail settings now r =
    ltb r.updated_at (now - hours settings.safe_log_tail_retention_hours) && is_some r.safe_log_tail

unfoldable pub is_old_pending_binding : Settings → ℕ → Binding → Bool
is_old_pending_binding settings now b =
    is_pending_activity b.activity_id
    && is_active b.state
    && ltb b.started_at (now - seconds settings.live_activity_pending_ttl_seconds)

unfoldable pub is_old_attempt : Settings → ℕ → PushAttempt → Bool
is_old_attempt settings now a = ltb a.attempted_at (now - days settings.push_attempt_retention_days)

unfoldable pub is_old_outbox : Settings → ℕ → PushOutbox → Bool
is_old_outbox settings now o =
    is_settled o.status && ltb o.updated_at (now - days settings.outbox_terminal_retention_days)

unfoldable pub is_old_pairing : Settings → ℕ → PairingSession → Bool
is_old_pairing settings now p = ltb p.expires_at (now - hours settings.pairing_retention_hours)

unfoldable pub is_old_audit_log : Settings → ℕ → AuditLog → Bool
is_old_audit_log settings now a = ltb a.created_at (now - days settings.audit_retention_days)

unfoldable pub is_old_challenge : ℕ → DeletionChallenge → Bool
is_old_challenge now c = leb c.expires_at now

-- active_binding_run_ids
unfoldable pub has_active_binding : Database → ℕ → Bool
has_active_binding db id =
    exists_where (λ b. b.run_id == id && is_deliverable b.state && is_none b.invalidated_at)
      db.bindings

unfoldable pub is_old_run : Settings → ℕ → Database → Run → Bool
is_old_run settings now db r =
    is_terminal r.execution_status
    && elim r.ended_at [ none ↦ false | some t ↦ ltb t (now - days settings.run_retention_days) ]
    && not (has_active_binding db r.id)

-- The rows that changed for the phones: their workspaces, and how many were deleted or updated.
pub record Cleaned : Type 0 where
  pub changed : List ℕ
  pub count : ℕ

-- `_limited_ids` of the first rows by time and identifier, at most a batch.
unfoldable pub limited_ids :
    {A : Type 0} → (A → Bool) → (A → ℕ) → (A → ℕ) → Settings → List A → List ℕ
limited_ids due time id settings rows = map id (
    select_page due (λ a b. is_earlier (time a) (id a) (time b) (id b))
      settings.retention_cleanup_batch_size rows)

unfoldable pub old_notifications : Settings → ℕ → Database → List ℕ
old_notifications settings now db =
    limited_ids (is_old_notification settings now db) (λ n. n.created_at) (λ n. n.id) settings
      db.notifications

unfoldable pub clean_notifications : Settings → ℕ → Handler Cleaned
clean_notifications settings now = do
  ids ← gets (old_notifications settings now)
  gone ← gets (λ db. select_where (λ (n : Notification). is_one_of ids n.id) db.notifications)
  modify
      (λ db. record db { notifications = delete_where (λ n. is_one_of ids n.id) db.notifications })
  pure (record {
    changed = map (λ (n : Notification). n.workspace_id) gone;
    count = count_where (λ (n : Notification). true) gone;
  })

unfoldable pub old_events : Settings → ℕ → Database → List ℕ
old_events settings now db =
    limited_ids (is_old_event settings now db) (λ e. e.received_at) (λ e. e.id) settings db.events

-- The runs that an event of the batch belongs to.
unfoldable pub owns_event : List ℕ → Database → Run → Bool
owns_event ids db r =
    exists_where (λ (e : RunEvent). e.run_id == r.id && is_one_of ids e.id) db.events

unfoldable pub clean_events : Settings → ℕ → Handler Cleaned
clean_events settings now = do
  ids ← gets (old_events settings now)
  owners ← gets (λ db. select_where (owns_event ids db) db.runs)
  count ← gets (λ db. count_where (λ (e : RunEvent). is_one_of ids e.id) db.events)
  modify (λ db. record db { events = delete_where (λ e. is_one_of ids e.id) db.events })
  pure (record { changed = map (λ (r : Run). r.workspace_id) owners; count = count })

unfoldable pub old_tails : Settings → ℕ → Database → List ℕ
old_tails settings now db =
    limited_ids (is_old_tail settings now) (λ r. r.updated_at) (λ r. r.id) settings db.runs

unfoldable pub clear_tail : Run → Run
clear_tail r = record r { safe_log_tail = none }

unfoldable pub clean_tails : Settings → ℕ → Handler Cleaned
clean_tails settings now = do
  ids ← gets (old_tails settings now)
  owners ← gets (λ db. select_where (λ (r : Run). is_one_of ids r.id) db.runs)
  modify (λ db. record db { runs = update_where (λ r. is_one_of ids r.id) clear_tail db.runs })
  pure (record {
    changed = map (λ (r : Run). r.workspace_id) owners;
    count = count_where (λ (r : Run). true) owners;
  })

unfoldable pub old_pending_bindings : Settings → ℕ → Database → List ℕ
old_pending_bindings settings now db =
    limited_ids (is_old_pending_binding settings now) (λ b. b.started_at) (λ b. b.id) settings
      db.bindings

unfoldable pub expire_binding : ℕ → Binding → Binding
expire_binding now b = record b {
  state = BindingState.expired;
  ended_at = some now;
  invalidated_at = some now;
}

unfoldable pub clean_pending_bindings : Settings → ℕ → Handler Cleaned
clean_pending_bindings settings now = do
  ids ← gets (old_pending_bindings settings now)
  count ← gets (λ db. count_where (λ (b : Binding). is_one_of ids b.id) db.bindings)
  modify (λ db. record db {
    bindings = update_where (λ b. is_one_of ids b.id) (expire_binding now) db.bindings;
  })
  pure (record { changed = []; count = count })
