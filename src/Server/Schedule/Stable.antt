-- ===== src/Server/Schedule/Stable.antt =====
-- Scheduling is built from a few writes: what those keep, all of it keeps.
use run_buoy.Prelude.{ℕ, Option, some, String}
use run_buoy.Prelude.Exec.Keeps.{
  Keeps, Keeps-catch, Keeps-bind, Keeps-pure, Keeps-raise, keeps_rules,
}
use run_buoy.Server.Enums.{EventType}
use run_buoy.Server.Rows.{Subject, Progress, Run, Notification, DedupeKey, Binding}
use run_buoy.Server.Quota.{increment_bucket, enforce_notification_daily_quota}
use run_buoy.Server.Outbox.{PushRequest, coalesce_outbox}
use run_buoy.Server.Notify.{
  NotificationCreate, quota_only, add_notification, publish_notification, insert_notification,
  bump_workspace_revision, schedule_notification_push, create_notification,
  create_fallback_notification,
}
use run_buoy.Server.Schedule.{
  schedule_starts, refresh_starts, cancel_starts, terminal_fallback_push, schedule_binding,
  schedule_bindings, schedule_run_pushes,
}
use run_buoy.Server.Database.{Database, Settings, Error, notification_quota_exceeded, new_id}

pub record IsStable (P : Database → Type 0) : Type 0 where
  pub at_new_id : Keeps P new_id
  pub at_bucket :
      (name : String) (subject : Subject) (start expires now : ℕ)
      → Keeps P (increment_bucket name subject start expires now)
  pub at_bump : (w : ℕ) → Keeps P (bump_workspace_revision w)
  pub at_notification : (n : Notification) → Keeps P (add_notification n)
  pub at_coalesce : (r : PushRequest) (now : ℕ) → Keeps P (coalesce_outbox r now)
  pub at_refresh :
      (run : Run) (now : ℕ) (machine_name : String) → Keeps P (refresh_starts run now machine_name)
  pub at_cancel : (run : Run) (now : ℕ) → Keeps P (cancel_starts run now)

module _ {P : Database → Type 0} (stable : IsStable P) where
  quota-Stable :
      (settings : Settings) (w now : ℕ) → Keeps P (enforce_notification_daily_quota settings w now)
  unfolding enforce_notification_daily_quota
  quota-Stable settings w now = search (keeps_rules, stable.at_bucket)

  push-Stable :
      (n : Notification) (priority now : ℕ) → Keeps P (schedule_notification_push n priority now)
  unfolding schedule_notification_push
  push-Stable n priority now = search (keeps_rules, stable.at_coalesce)

  publish-Stable : (n : Notification) (now : ℕ) → Keeps P (publish_notification n now)
  unfolding publish_notification
  publish-Stable n now = search (keeps_rules, push-Stable, stable.at_bump, stable.at_notification)

  insert-Stable :
      (settings : Settings) (w : ℕ) (m : Option ℕ) (body : NotificationCreate)
      (key : Option DedupeKey) (now : ℕ)
      → Keeps P (insert_notification settings w m body key now)
  unfolding insert_notification
  insert-Stable settings w m body key now =
      Keeps-bind _ _ (quota-Stable settings w now)
        λ _. Keeps-bind _ _ stable.at_new_id λ id. publish-Stable _ now

  create-Stable :
      (settings : Settings) (w : ℕ) (m : Option ℕ) (body : NotificationCreate)
      (key : Option DedupeKey) (now : ℕ)
      → Keeps P (create_notification settings w m body key now)
  unfolding create_notification
  create-Stable settings w m body key now = search (keeps_rules, insert-Stable)

  fallback-Stable :
      (settings : Settings) (w m : ℕ) (body : NotificationCreate) (key : DedupeKey) (now : ℕ)
      → Keeps P (create_fallback_notification settings w m body key now)
  unfolding create_fallback_notification
  fallback-Stable settings w m body key now =
      Keeps-catch _ _
        (Keeps-bind _ _ (create-Stable settings w (some m) body (some key) now)
          (λ _. Keeps-pure tt))
        caught
    where
      caught : (e : Error) → Keeps P (quota_only e)
      caught (notification_quota_exceeded limit retry_after) = Keeps-pure tt
      caught e = Keeps-raise e

  terminal-Stable :
      (settings : Settings) (run : Run) (now : ℕ)
      → Keeps P (terminal_fallback_push settings run now)
  unfolding terminal_fallback_push
  terminal-Stable settings run now = search (keeps_rules, fallback-Stable)

  starts-Stable :
      (settings : Settings) (run : Run) (now : ℕ) (name : String)
      → Keeps P (schedule_starts settings run now name)
  unfolding schedule_starts
  starts-Stable settings run now name = search (keeps_rules, stable.at_coalesce)

  binding-Stable :
      (settings : Settings) (run : Run) (t : EventType) (previous : Option Progress) (now : ℕ)
      (name : String) (b : Binding)
      → Keeps P (schedule_binding settings run t previous now name b)
  unfolding schedule_binding
  binding-Stable settings run t previous now name b = search (keeps_rules, stable.at_coalesce)

  bindings-Stable :
      (settings : Settings) (run : Run) (t : EventType) (previous : Option Progress) (now : ℕ)
      (name : String)
      → Keeps P (schedule_bindings settings run t previous now name)
  unfolding schedule_bindings
  bindings-Stable settings run t previous now name = search (keeps_rules, binding-Stable)

  pub schedule_run_pushes-Stable :
      (settings : Settings) (id_text : ℕ → String) (run : Run) (t : EventType)
      (previous : Option Progress) (now : ℕ)
      → Keeps P (schedule_run_pushes settings id_text run t previous now)
  unfolding schedule_run_pushes
  schedule_run_pushes-Stable settings id_text run t previous now =
      search
        (
          keeps_rules, starts-Stable, bindings-Stable, terminal-Stable, stable.at_refresh,
          stable.at_cancel,
        )
        depth 8
