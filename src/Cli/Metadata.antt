-- ===== src/Cli/Metadata.antt =====
-- The outbox of machine names: the methods of `EventQueue` in
-- cli/src/runbuoy/persistence/store.py on the table `machine_metadata_outbox`.
use text.Mathlib.Text.{◌==◌ as str_eq}
use run_buoy.Prelude.{
  ℕ, ◌+◌, Bool, ◌&&◌, Option, none, some, String, List, [], ◌∷◌, ◌==◌, leb, ltb, if◌then◌else◌,
}
use run_buoy.Prelude.Table.{exists_where, update_where, delete_where, insert}
use run_buoy.Prelude.Exec.{gets, modify, ◌>>=◌}
use run_buoy.Cli.Store.{MetadataRow, RemoteError, Queue}

abbrev pub is_machine : ℕ → MetadataRow → Bool
is_machine id m = m.machine_id == id

-- The row for this very name: a newer name that was queued meanwhile is another one.
abbrev pub is_named : ℕ → String → MetadataRow → Bool
is_named id name m = m.machine_id == id && str_eq m.display_name name

unfoldable pub new_metadata : ℕ → String → ℕ → MetadataRow
new_metadata id name now = record {
  machine_id = id;
  display_name = name;
  updated_at = now;
  attempt_count = 0;
  next_attempt_at = 0;
  last_error = none;
}

-- INSERT … ON CONFLICT(machine_id) DO UPDATE
unfoldable pub queue_machine_metadata : ℕ → String → ℕ → Queue Unit
queue_machine_metadata id name now = do
  queued ← gets (λ s. exists_where (is_machine id) s.metadata)
  if queued
      then modify (λ s. record s {
        metadata = update_where (is_machine id) (λ _. new_metadata id name now) s.metadata;
      })
      else modify (λ s. record s { metadata = insert (new_metadata id name now) s.metadata })

abbrev pub newer : MetadataRow → Option MetadataRow → MetadataRow
newer m none = m
newer m (some other) = if ltb m.updated_at other.updated_at then other else m

-- ORDER BY updated_at DESC LIMIT 1
unfoldable pub newest_due : ℕ → List MetadataRow → Option MetadataRow
newest_due now [] = none
newest_due now (m ∷ ms) =
    let rest = newest_due now ms in if leb m.next_attempt_at now then some (newer m rest) else rest

unfoldable pub mark_machine_metadata_delivered : ℕ → String → Queue Unit
mark_machine_metadata_delivered id name =
    modify (λ s. record s { metadata = delete_where (is_named id name) s.metadata })

unfoldable pub retry_metadata : RemoteError → ℕ → MetadataRow → MetadataRow
retry_metadata error next m = record m {
  attempt_count = m.attempt_count + 1;
  last_error = some error;
  next_attempt_at = next;
}

unfoldable pub mark_machine_metadata_failed : ℕ → String → RemoteError → ℕ → ℕ → Queue Unit
mark_machine_metadata_failed id name error delay now = modify (λ s. record s {
  metadata = update_where (is_named id name) (retry_metadata error (now + delay)) s.metadata;
})
