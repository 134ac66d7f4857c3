-- ===== src/Server/Outbox.antt =====
-- The transactional outbox of server/app/services.py: one pending row for each coalesce key.
pub mod Pending
use run_buoy.Prelude.{
  ℕ, ◌+◌, max, min, Bool, true, false, ◌&&◌, Option, none, some, ◌==◌, if◌then◌else◌,
}
use run_buoy.Prelude.Table.{find_where, update_where, insert}
use run_buoy.Prelude.Exec.{pure, gets, modify, ◌>>=◌, ◌>>◌, on_option}
use run_buoy.Server.Enums.{PushKind, TargetType, OutboxStatus, is_pending}
use run_buoy.Server.Rows.{CoalesceKey, PushPayload, PushOutbox, key_eq}
use run_buoy.Server.Database.{Database, Handler, new_id}

-- The keyword arguments of `_coalesce_outbox`.
pub record PushRequest : Type 0 where
  pub kind : PushKind
  pub target_type : TargetType
  pub target_id : ℕ
  pub run_id : Option ℕ
  pub payload : PushPayload
  pub priority : ℕ
  pub available_at : ℕ
  pub coalesce_key : CoalesceKey

-- Only PostgreSQL is told; the workers of other databases poll.
unfoldable pub signalled : Database → Database
signalled db = if db.is_postgresql then record db { signals = db.signals + 1 } else db

-- _signal_outbox_worker
unfoldable pub signal_outbox_worker : Handler Unit
signal_outbox_worker = modify signalled

abbrev pub is_pending_for : CoalesceKey → PushOutbox → Bool
is_pending_for key o = key_eq o.coalesce_key key && is_pending o.status

-- The pending row takes over what the new request asks for; its target stays.
unfoldable pub merge_request : PushRequest → ℕ → PushOutbox → PushOutbox
merge_request r now o = record o {
  kind = r.kind;
  desired_payload = r.payload;
  priority = max o.priority r.priority;
  available_at = min o.available_at r.available_at;
  updated_at = now;
}

unfoldable pub new_outbox : PushRequest → ℕ → ℕ → PushOutbox
new_outbox r now id = record {
  id = id;
  kind = r.kind;
  target_type = r.target_type;
  target_id = r.target_id;
  run_id = r.run_id;
  desired_payload = r.payload;
  priority = r.priority;
  available_at = r.available_at;
  attempt_count = 0;
  status = OutboxStatus.pending;
  last_error = none;
  coalesce_key = r.coalesce_key;
  created_at = now;
  updated_at = now;
}

-- _coalesce_outbox
unfoldable pub coalesce_outbox : PushRequest → ℕ → Handler PushOutbox
coalesce_outbox r now = do
  existing ← gets (λ db. find_where (is_pending_for r.coalesce_key) db.outbox)
  on_option existing
      (do
        id ← new_id
        modify (λ db. record db { outbox = insert (new_outbox r now id) db.outbox })
        signal_outbox_worker
        pure (new_outbox r now id))
      (λ o. do
        modify (λ db. record db {
          outbox = update_where (λ p. p.id == o.id) (merge_request r now) db.outbox;
        })
        signal_outbox_worker
        pure (merge_request r now o))
