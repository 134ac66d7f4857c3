-- ===== src/Server/Delivery.antt =====
-- The outbox worker's processor: `OutboxProcessor` of server/app/outbox.py. Its requests are in
-- Server.Apns. The cipher and the APNs connection are not in this code: `decrypt` is what the
-- cipher makes of a stored token, and `send` is the provider's answer to a request. One worker runs at
-- a time, so no row is locked by another.
pub mod Choice
pub mod Settle
pub mod Round
pub mod Drain
pub mod Liveness
pub mod Capacity
use text.Mathlib.Text.{◌==◌ as str_eq}
use run_buoy.Prelude.{
  ℕ, suc, zero, ◌+◌, ◌-◌, ◌*◌, ◌/◌, ◌%◌, ◌^◌, max, min, Bool, true, false, not, ◌&&◌, ◌||◌, Option,
  none, some, String, List, [], ◌∷◌, ◌==◌, leb, ltb, if◌then◌else◌, is_none, is_some,
}
use run_buoy.Prelude.Table.{find_where, count_where, update_where, insert}
use run_buoy.Prelude.Exec.{
  Exec, ok, err, attempt, pure, raise, gets, modify, ◌>>=◌, ◌>>◌, on_option,
}
use run_buoy.Server.Enums.{
  PushKind, OutboxStatus, BindingState, is_live, is_live_start, is_live_end, is_device, is_pending,
  is_deliverable,
}
use run_buoy.Server.Rows.{
  seconds, Device, Binding, pending_activity, PushPayload, PushError, payload_expired,
  activity_limit, token_unavailable, apns_reason, apns_status, PushOutbox, PushAttempt,
}
use run_buoy.Server.Payload.{timestamp, live_activity_expiration, ApnsResult, accepted, retryable}
use run_buoy.Server.Database.{Database, Settings, Error, token_undecryptable, Handler, new_id}
use run_buoy.Server.Apns.{ApnsRequest, invalid_token, error_of, request_with}
use run_buoy.Server.Outcome.{
  settle, started_binding, end_binding, invalidate_binding, backoff_seconds, counted, mark_sent,
  mark_failed, mark_retry, clear_token, new_attempt,
}

abbrev pub is_due : ℕ → PushOutbox → Bool
is_due now o = is_pending o.status && leb o.available_at now

-- ORDER BY priority DESC, available_at, created_at
unfoldable pub goes_before : PushOutbox → PushOutbox → Bool
goes_before a b =
    if a.priority == b.priority
    then (if a.available_at == b.available_at
        then ltb a.created_at b.created_at
        else ltb a.available_at b.available_at)
    else ltb b.priority a.priority

abbrev pub better : PushOutbox → Option PushOutbox → PushOutbox
better o none = o
better o (some b) = if goes_before b o then b else o

-- The row that the worker takes next.
unfoldable pub next_due : ℕ → List PushOutbox → Option PushOutbox
next_due now [] = none
next_due now (o ∷ os) =
    let rest = next_due now os in if is_due now o then some (better o rest) else rest

abbrev pub find_device : Database → ℕ → Option Device
find_device db id = find_where (λ d. d.id == id) db.devices

abbrev pub find_binding : Database → ℕ → Option Binding
find_binding db id = find_where (λ b. b.id == id) db.bindings

unfoldable pub update_device : ℕ → (Device → Device) → Handler Unit
update_device id f =
    modify (λ db. record db { devices = update_where (λ (d : Device). d.id == id) f db.devices })

unfoldable pub update_binding : ℕ → (Binding → Binding) → Handler Unit
update_binding id f =
    modify (λ db. record db { bindings = update_where (λ (b : Binding). b.id == id) f db.bindings })

unfoldable pub update_item : PushOutbox → (PushOutbox → PushOutbox) → Handler Unit
update_item item f =
    modify
      (λ db. record db { outbox = update_where (λ (o : PushOutbox). o.id == item.id) f db.outbox })

-- A binding that counts against its device's limit.
abbrev pub is_live_on : ℕ → Binding → Bool
is_live_on device_id b =
    b.device_id == device_id && is_deliverable b.state && is_none b.invalidated_at

-- _has_live_activity_capacity
unfoldable pub has_live_activity_capacity : Settings → Database → PushOutbox → Bool
has_live_activity_capacity settings db item =
    if is_live_start item.kind
    then ltb (count_where (is_live_on item.target_id) db.bindings)
        settings.live_activity_max_per_device
    else true

-- The encrypted token that an item goes to.
unfoldable pub token_for : Database → PushOutbox → Option ℕ
token_for db item =
    if is_device item.target_type
    then elim (find_device db item.target_id) [
      | none ↦ none
      | some d ↦
          if is_some d.revoked_at
          then none
          else if is_live_start item.kind
          then d.push_to_start_token_encrypted
          else d.notification_token_encrypted
    ]
    else elim (find_binding db item.target_id) [
      | none ↦ none
      | some b ↦ if is_some b.invalidated_at then none else b.update_push_token_encrypted
    ]

unfoldable pub start_binding : PushOutbox → ℕ → ℕ → Handler Unit
start_binding item now run_id = do
  id ← new_id
  modify (λ db. record db { bindings = insert (started_binding item run_id now id) db.bindings })

unfoldable pub after_accepted : PushOutbox → ℕ → Handler Unit
after_accepted item now = do
  update_item item (mark_sent now)
  if is_live_start item.kind
      then on_option item.run_id (pure tt) (start_binding item now)
      else pure tt
  if is_live_end item.kind
      then update_binding item.target_id (end_binding BindingState.ended now)
      else pure tt

unfoldable pub after_invalid_token : PushOutbox → ApnsResult → ℕ → Handler Unit
after_invalid_token item result now = do
  update_item item (mark_failed (error_of result) now)
  if is_device item.target_type
      then update_device item.target_id (clear_token item)
      else update_binding item.target_id (invalidate_binding now)

unfoldable pub after_refusal : Settings → PushOutbox → ApnsResult → ℕ → Handler Unit
after_refusal settings item result now =
    if retryable result && ltb (item.attempt_count + 1) settings.outbox_max_attempts
    then update_item item (mark_retry (error_of result) now)
    else update_item item (mark_failed (error_of result) now)

-- From the provider's answer to the commit.
unfoldable pub record_result : Settings → PushOutbox → ApnsResult → ℕ → ℕ → Handler Unit
record_result settings item result latency now = do
  id ← new_id
  modify
      (λ db. record db { attempts = insert (new_attempt item result latency now id) db.attempts })
  if accepted result
      then after_accepted item now
      else (if invalid_token result
          then after_invalid_token item result now
          else after_refusal settings item result now)

unfoldable pub is_overdue : PushOutbox → ℕ → Bool
is_overdue item now =
    is_live item.kind
    && leb (live_activity_expiration item.desired_payload (timestamp now)) (timestamp now)

unfoldable pub expire_item : PushOutbox → ℕ → Handler Unit
expire_item item now = do
  update_item item (settle OutboxStatus.expired payload_expired now)
  if is_live_end item.kind && not (is_device item.target_type)
      then update_binding item.target_id (end_binding BindingState.expired now)
      else pure tt

-- How many rows were processed, and the exception that ended the loop if there was one.
pub data DrainEnd : Type 0 where
  drained : ℕ → DrainEnd
  raised : ℕ → Error → DrainEnd

module _ (settings : Settings) (decrypt : ℕ → Option ℕ) where
  -- The provider: its answer, and how long it took in milliseconds.
  unfoldable pub deliver_item : (ApnsRequest → ApnsResult × ℕ) → PushOutbox → ℕ → ℕ → Handler Unit
  deliver_item send item now encrypted =
      on_option (decrypt encrypted) (raise token_undecryptable) (λ token.
        let (result, latency) = send (request_with item now token) in
        record_result settings item result latency now)

  -- A live item that is not overdue.
  unfoldable pub try_item :
      (ApnsRequest → ApnsResult × ℕ) → PushOutbox → ℕ → Bool → Option ℕ → Handler Unit
  try_item send item now has_capacity encrypted =
      if has_capacity
      then on_option encrypted
          (update_item item (settle OutboxStatus.cancelled token_unavailable now))
          (deliver_item send item now)
      else update_item item (settle OutboxStatus.suppressed activity_limit now)

  unfoldable pub process_item : (ApnsRequest → ApnsResult × ℕ) → PushOutbox → ℕ → Handler Unit
  process_item send item now = do
    has_capacity ← gets (λ db. has_live_activity_capacity settings db item)
    encrypted ← gets (λ db. token_for db item)
    if is_overdue item now
        then expire_item item now
        else try_item send item now has_capacity encrypted

  -- process_one
  unfoldable pub process_one : (ApnsRequest → ApnsResult × ℕ) → ℕ → Handler Bool
  process_one send now = do
    item ← gets (λ db. next_due now db.outbox)
    on_option item (pure false) (λ o. do process_item send o now; pure true)

  -- drain: `send` and `now` are what the provider answers and what the clock shows in each round.
  -- Each round is a transaction of its own, so that what was committed stays when one raises.
  unfoldable pub drain : (ℕ → ApnsRequest → ApnsResult × ℕ) → (ℕ → ℕ) → ℕ → ℕ → Handler DrainEnd
  drain send now zero processed = pure (drained processed)
  drain send now (suc limit) processed = do
    round ← attempt (process_one (send processed) (now processed))
    elim round [
      | ok more ↦ if more then drain send now limit (processed + 1) else pure (drained processed)
      | err e ↦ pure (raised processed e)
    ]
