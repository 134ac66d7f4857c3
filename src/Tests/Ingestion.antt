-- ===== src/Tests/Ingestion.antt =====
-- Ingestion at concrete batches.
use mathlib.Core.List.{foldl}
use run_buoy.Prelude.{ℕ, ◌+◌, ◌≤◌, ◌≡◌, refl, true, List, [], ◌∷◌, arith, length, map}
use run_buoy.Prelude.Exec.{ok, ◌>>=◌, on_option, catch, for_each}
use run_buoy.Server.Enums.{is_terminal}
use run_buoy.Server.Database.{Database, new_id}
use run_buoy.Server.Payload.{
  live_content_state, live_payload, priority_of, text_or, nonempty, normal_payload,
}
use run_buoy.Server.Quota.{increment_bucket, enforce_notification_daily_quota}
use run_buoy.Server.Outbox.{
  coalesce_outbox, merge_request, new_outbox, signal_outbox_worker, signalled,
}
use run_buoy.Server.Outbox.Pending.{OnePending}
use run_buoy.Server.Notify.{
  bump_workspace_revision, is_subscribed, wants_notification, is_muted, notification_request,
  schedule_notification_push, has_dedupe_key, new_notification, add_notification,
  publish_notification, insert_notification, create_notification, quota_only,
  create_fallback_notification,
}
use run_buoy.Server.Schedule.{
  machine_name_of, subscribed_devices, wants_live_start, start_request, schedule_starts,
  refresh_start, cancel_start, refresh_starts, cancel_starts, fallback_body, terminal_fallback_push,
  is_delivering, latest_sent, update_interval, binding_available_at, binding_request,
  schedule_binding, schedule_bindings, schedule_run_pushes,
}
use run_buoy.Server.Ingest.{
  Progressed, insert_by_seq, sort_by_seq, validate_transition, rejection, new_event, project_event,
  save_run, is_replay, accept_event, ingest_event, ingest_loop, ingest_events,
}
use run_buoy.Server.Ingest.Terminal.{terminal_frozen, ingest_events-advances, rank}
use run_buoy.Server.Ingest.Log.{IsLogged, IsOrdered, ingest_events-IsLogged}
use run_buoy.Server.Ingest.Replay.{ingest_events-idempotent}
use run_buoy.Server.Ingest.Projection.{fresh_events, ingest_events-eq-projection}
use run_buoy.Server.Ingest.Pushes.{ingest_events-OnePending}
use run_buoy.Tests.Fixtures.{value_or, settings, id_text, new_run, paired, start_batch, end_batch}

-- Opens every function that ingestion calls.
abbrev ingesting : Unit {0}
unfolding ◌>>=◌ on_option catch for_each new_id live_content_state live_payload priority_of text_or
    nonempty normal_payload increment_bucket enforce_notification_daily_quota coalesce_outbox
    merge_request new_outbox signal_outbox_worker signalled bump_workspace_revision is_subscribed
    wants_notification is_muted notification_request schedule_notification_push has_dedupe_key
    new_notification add_notification publish_notification insert_notification create_notification
    quota_only create_fallback_notification machine_name_of subscribed_devices wants_live_start
    start_request schedule_starts refresh_start cancel_start refresh_starts cancel_starts
    fallback_body terminal_fallback_push is_delivering latest_sent update_interval
    binding_available_at binding_request schedule_binding schedule_bindings schedule_run_pushes
    insert_by_seq sort_by_seq validate_transition rejection new_event project_event save_run
    is_replay accept_event ingest_event ingest_loop ingest_events
ingesting = tt

abbrev none_yet : Progressed
none_yet = record { run = new_run; inserted = []; duplicates = [] }

started : Progressed × Database
started =
    value_or (ingest_events settings id_text 7000000 new_run start_batch paired) (none_yet, paired)

started_ok : ingest_events settings id_text 7000000 new_run start_batch paired ≡ ok started
unfolding ingesting started
started_ok = refl

failed : Progressed × Database
failed = value_or (ingest_events settings id_text 9000000 started.0.run end_batch started.1) started

failed_ok : ingest_events settings id_text 9000000 started.0.run end_batch started.1 ≡ ok failed
unfolding ingesting started failed
failed_ok = refl

-- The failure cancels the start that was still pending, and falls back to a notification.
failed_outbox : length failed.1.outbox ≡ 2
unfolding ingesting started failed
failed_outbox = refl

failed_is_terminal : is_terminal failed.0.run.execution_status ≡ true
unfolding ingesting started failed
failed_is_terminal = refl

failed_replay :
    ingest_events settings id_text 9000000 failed.0.run end_batch failed.1
    ≡ ok (record { run = failed.0.run; inserted = []; duplicates = 3 ∷ [] }, failed.1)
unfolding ingesting started failed
failed_replay = refl

terminal_frozen_example :
    (failed.0.run ≡ failed.0.run) × (◌≡◌ {A = List ℕ} [] []) × (failed.1 ≡ failed.1)
terminal_frozen_example =
    terminal_frozen settings id_text 9000000 failed.0.run end_batch failed.1
      {q = record { run = failed.0.run; inserted = []; duplicates = 3 ∷ [] }} {t = failed.1}
      failed_is_terminal failed_replay

ingest_events-advances_example :
    (started.0.run.id ≡ 10)
    × (0 ≤ rank started.0.run.execution_status)
    × (0 + length started.0.inserted ≤ started.0.run.last_seq)
ingest_events-advances_example =
    ingest_events-advances settings id_text 7000000 new_run start_batch paired {q = started.0}
      {t = started.1} started_ok

ingest_events-IsLogged_example : IsOrdered started.1.events started.0.run × IsLogged started.1
ingest_events-IsLogged_example =
    ingest_events-IsLogged settings id_text 7000000 new_run start_batch paired {q = started.0}
      {t = started.1} (omega arith) (omega arith) started_ok

ingest_events-idempotent_example :
    ingest_events settings id_text 7000000 started.0.run start_batch started.1
    ≡ ok (record { run = started.0.run; inserted = []; duplicates = 1 ∷ 2 ∷ [] }, started.1)
unfolding sort_by_seq insert_by_seq
ingest_events-idempotent_example =
    ingest_events-idempotent settings id_text 7000000 new_run start_batch paired {q = started.0}
      {t = started.1} started_ok

ingest_events-eq-projection_example :
    (started.0.run ≡ foldl project_event new_run (fresh_events [] (sort_by_seq start_batch)))
    × (started.0.inserted ≡ map (λ e. e.event_id) (fresh_events [] (sort_by_seq start_batch)))
ingest_events-eq-projection_example =
    ingest_events-eq-projection settings id_text 7000000 new_run start_batch paired {q = started.0}
      {t = started.1} ((refl, tt), (tt, tt)) started_ok

ingest_events-OnePending_example : OnePending failed.1.outbox
ingest_events-OnePending_example =
    ingest_events-OnePending settings id_text 9000000 started.0.run end_batch started.1
      {q = failed.0} {t = failed.1}
      (ingest_events-OnePending settings id_text 7000000 new_run start_batch paired {q = started.0}
        {t = started.1} (record { at_key = λ key. omega arith }) started_ok)
      failed_ok
