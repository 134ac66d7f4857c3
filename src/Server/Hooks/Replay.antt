-- ===== src/Server/Hooks/Replay.antt =====
-- A webhook event that is sent again with its key.
use run_buoy.Prelude.{ℕ, ◌≡◌, ◌≤◌, refl, arith, false, some, String, ◌==◌}
use run_buoy.Prelude.Table.{find_where}
use run_buoy.Prelude.Exec.{err, ◌>>=◌, on_option}
use run_buoy.Server.Rows.{Run, RunEvent}
use run_buoy.Server.Accounts.{Webhook}
use run_buoy.Server.Ingest.{ingest_events, ingest_loop, ingest_event, is_replay, sort_by_seq}
use run_buoy.Server.Runs.{is_run}
use run_buoy.Server.Hooks.{WebhookRunEvent, hook_event, webhook_run_event}
use run_buoy.Server.Database.{Database, Settings, event_replay_mismatch}

-- An event whose identifier is that of a stored event of the run is refused as a mismatch, since the
-- new one takes the next sequence number: a retry with an idempotency key is no duplicate.
pub webhook_run_event-replay :
    (run_id_of event_id_of : ℕ → ℕ → ℕ) (settings : Settings) (id_text : ℕ → String)
    (hook : Webhook) (external_run_id key random now : ℕ) (body : WebhookRunEvent) (db : Database)
    (run : Run) (stored : RunEvent)
    → find_where (is_run (run_id_of hook.id external_run_id)) db.runs ≡ some run
    → find_where (λ (r : RunEvent). r.event_id == event_id_of hook.id key) db.events ≡ some stored
    → stored.seq ≤ run.last_seq
    → webhook_run_event run_id_of event_id_of settings id_text hook external_run_id body
        (some key)
        random
        now
        db
      ≡ err event_replay_mismatch
unfolding webhook_run_event hook_event ingest_events ingest_loop ingest_event is_replay sort_by_seq
    ◌>>=◌ on_option
webhook_run_event-replay run_id_of event_id_of settings id_text hook external_run_id key random now
      body db run stored found existing behind =
    let event = hook_event hook run body (event_id_of hook.id key) now in
    let other : is_replay run event stored ≡ false = ground arith in
    rw found (rw existing (rw other refl))
