-- ===== src/Cli/Sync.antt =====
-- The upload of the queue: `RemoteClient`, `flush_pending` and `drain_pending` of
-- cli/src/runbuoy/networking/client.py. The network is a parameter: `respond` is what comes back for a
-- request. The check of the payload that the client repeats passed when the event was queued.
pub mod Kept
pub mod Bounds
pub mod Waiting
pub mod Progress
pub mod Unbounded
use run_buoy.Prelude.{
  ℕ, zero, suc, ◌+◌, ◌^◌, min, max, Bool, true, false, ◌||◌, Option, none, some, String, List, [],
  ◌∷◌, ◌++◌, map, ◌==◌, ltb, if◌then◌else◌, length,
}
use run_buoy.Prelude.Table.{find_where}
use run_buoy.Prelude.Exec.{pure, gets, ◌>>=◌, ◌>>◌, on_option}
use run_buoy.Server.Rows.{seconds}
use run_buoy.Cli.Queue.{mark_remote_initialized, mark_delivered, mark_failed, pending_events}
use run_buoy.Cli.Store.{
  MetadataRow, LocalRun, QueuedEvent, EventRow, RemoteError, http_status, transport,
  run_disappeared, Store, Queue, is_run, is_of,
}
use run_buoy.Cli.Metadata.{
  newest_due, mark_machine_metadata_delivered, mark_machine_metadata_failed,
}

pub data Request : Type 0 where
  patch_machine : ℕ → String → Request
  put_run : LocalRun → Request
  post_events : ℕ → List QueuedEvent → Request

-- An answer of the server, or the text of an HTTPError or OSError.
pub data Response : Type 0 where
  answered : ℕ → Response
  unreachable : String → Response

-- _request: the exception that it raises, if any
unfoldable pub request_error : Response → Option RemoteError
request_error (answered status) =
    if status == 200 || status == 201 || status == 202 || status == 204
    then none
    else some (http_status status)
request_error (unreachable message) = some (transport message)

-- min(2**attempts, 60) seconds
unfoldable pub retry_delay : ℕ → ℕ
retry_delay attempts = seconds (min (2 ^ attempts) 60)

-- max(…, default=0) over the rows of a run
abbrev pub most_attempts : ℕ → List EventRow → ℕ
most_attempts id [] = 0
most_attempts id (r ∷ rs) =
    let rest = most_attempts id rs in if is_of id r then max r.attempt_count rest else rest

-- grouped[event.run_id].append(event), in the order in which the runs first appear
abbrev pub add_to_group : QueuedEvent → List (ℕ × List QueuedEvent) → List (ℕ × List QueuedEvent)
add_to_group e [] = (e.run_id, e ∷ []) ∷ []
add_to_group e (g ∷ gs) =
    let rest = add_to_group e gs in if g.0 == e.run_id then (g.0, g.1 ++ e ∷ []) ∷ gs else g ∷ rest

abbrev pub add_all : List (ℕ × List QueuedEvent) → List QueuedEvent → List (ℕ × List QueuedEvent)
add_all groups [] = groups
add_all groups (e ∷ es) = add_all (add_to_group e groups) es

abbrev pub grouped : List QueuedEvent → List (ℕ × List QueuedEvent)
grouped es = add_all [] es

abbrev pub ids_of : List QueuedEvent → List ℕ
ids_of es = map (λ (e : QueuedEvent). e.event_id) es

module _ (respond : Request → Response) (now : ℕ) where
  unfoldable pub send_metadata : MetadataRow → Queue Unit
  send_metadata m =
      on_option (request_error (respond (patch_machine m.machine_id m.display_name)))
        (mark_machine_metadata_delivered m.machine_id m.display_name)
        (λ e.
          mark_machine_metadata_failed m.machine_id m.display_name e (retry_delay m.attempt_count)
            now)

  -- The first part of flush_pending.
  unfoldable pub flush_metadata : Queue Unit
  flush_metadata = do
    row ← gets (λ s. newest_due now s.metadata)
    on_option row (pure tt) send_metadata

  -- The run is put on the server before its first events: the exception of that, if any.
  unfoldable pub initialize_remote : LocalRun → Queue (Option RemoteError)
  initialize_remote r =
      if r.remote_initialized
      then pure none
      else on_option (request_error (respond (put_run r)))
          (do mark_remote_initialized r.run_id; pure none) (λ e. pure (some e))

  -- The body of the `try`: the exception that it ends with, if any.
  unfoldable pub upload_group : ℕ → List QueuedEvent → Queue (Option RemoteError)
  upload_group run_id batch = do
    row ← gets (λ s. find_where (is_run run_id) s.runs)
    on_option row (pure (some (run_disappeared run_id))) (λ r. do
      failed ← initialize_remote r
      on_option failed (pure (request_error (respond (post_events run_id batch))))
          (λ e. pure (some e)))

  -- One round of the loop over the groups: how many events it delivered.
  unfoldable pub flush_group : ℕ × List QueuedEvent → Queue ℕ
  flush_group (run_id, batch) = do
    failed ← upload_group run_id batch
    attempts ← gets (λ s. most_attempts run_id s.events)
    on_option failed (do mark_delivered (ids_of batch); pure (length batch))
        (λ e. do mark_failed (ids_of batch) e (retry_delay attempts) now; pure 0)

  unfoldable pub flush_groups : List (ℕ × List QueuedEvent) → Queue ℕ
  flush_groups [] = pure 0
  flush_groups (g ∷ gs) = do n ← flush_group g; m ← flush_groups gs; pure (n + m)

  unfoldable pub flush_pending : ℕ → Option ℕ → Queue ℕ
  flush_pending batch_size run_id = do
    flush_metadata
    events ← gets (pending_events batch_size run_id now)
    flush_groups (grouped events)

-- drain_pending with its bound on the batches; round `n` sees the network and the clock as they are
-- then.
unfoldable pub drain_pending :
    (ℕ → Request → Response) → (ℕ → ℕ) → ℕ → Option ℕ → ℕ → ℕ → ℕ → Queue ℕ
drain_pending respond now batch_size run_id zero round delivered = pure delivered
drain_pending respond now batch_size run_id (suc left) round delivered = do
  n ← flush_pending (respond round) (now round) batch_size run_id
  if ltb n batch_size
      then pure (delivered + n)
      else drain_pending respond now batch_size run_id left (round + 1) (delivered + n)
