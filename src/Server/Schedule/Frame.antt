-- ===== src/Server/Schedule/Frame.antt =====
-- Scheduling pushes touches neither the runs nor their events.
use run_buoy.Prelude.{ℕ, ◌≡◌, Option, String, arith}
use run_buoy.Prelude.Exec.{◌>>=◌}
use run_buoy.Prelude.Exec.Keeps.{Keeps, keeps_rules}
use run_buoy.Server.Enums.{EventType}
use run_buoy.Server.Rows.{Subject, Progress, Run}
use run_buoy.Server.Quota.{increment_bucket}
use run_buoy.Server.Outbox.{PushRequest, coalesce_outbox, signal_outbox_worker, signalled}
use run_buoy.Server.Notify.{bump_workspace_revision, add_notification}
use run_buoy.Server.Schedule.{refresh_starts, cancel_starts, schedule_run_pushes}
use run_buoy.Server.Schedule.Stable.{IsStable, schedule_run_pushes-Stable}
use run_buoy.Server.Database.{Database, Settings, new_id}

-- The part of the database that holds the projection.
abbrev pub SameRuns : Database → Database → Type 0
SameRuns a b = (b.events ≡ a.events) × (b.runs ≡ a.runs) × (b.bindings ≡ a.bindings)

module _ (a : Database) where
  new_id-SameRuns : Keeps (SameRuns a) new_id
  unfolding new_id
  new_id-SameRuns = record { at = λ s h. h }

  signal-SameRuns : Keeps (SameRuns a) signal_outbox_worker
  unfolding signal_outbox_worker signalled ◌>>=◌
  signal-SameRuns = record { at = λ s h. ground arith }

  coalesce-SameRuns : (r : PushRequest) (now : ℕ) → Keeps (SameRuns a) (coalesce_outbox r now)
  unfolding coalesce_outbox
  coalesce-SameRuns r now = search (keeps_rules, new_id-SameRuns, signal-SameRuns) depth 8

  bucket-SameRuns :
      (name : String) (subject : Subject) (start expires now : ℕ)
      → Keeps (SameRuns a) (increment_bucket name subject start expires now)
  unfolding increment_bucket
  bucket-SameRuns name subject start expires now = search keeps_rules

  bump-SameRuns : (w : ℕ) → Keeps (SameRuns a) (bump_workspace_revision w)
  unfolding bump_workspace_revision
  bump-SameRuns w = search keeps_rules

  SameRuns-Stable : IsStable (SameRuns a)
  unfolding add_notification refresh_starts cancel_starts ◌>>=◌
  SameRuns-Stable = record {
    at_new_id = new_id-SameRuns;
    at_bucket = bucket-SameRuns;
    at_bump = bump-SameRuns;
    at_notification = λ n. record { at = λ s h. h };
    at_coalesce = coalesce-SameRuns;
    at_refresh = λ run now name. record { at = λ s h. h };
    at_cancel = λ run now. record { at = λ s h. h };
  }

pub schedule_run_pushes-SameRuns :
    (settings : Settings) (id_text : ℕ → String) (run : Run) (t : EventType)
    (previous : Option Progress) (now : ℕ) (a : Database)
    → Keeps (SameRuns a) (schedule_run_pushes settings id_text run t previous now)
schedule_run_pushes-SameRuns settings id_text run t previous now a =
    schedule_run_pushes-Stable (SameRuns-Stable a) settings id_text run t previous now
