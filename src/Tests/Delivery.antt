-- ===== src/Tests/Delivery.antt =====
-- The worker over a concrete outbox.
use run_buoy.Prelude.{
  ℕ, ◌+◌, ◌<◌, ◌≡◌, refl, Bool, true, false, none, some, [], ◌∷◌, arith, ◌⊎◌, not, ◌==◌,
}
use run_buoy.Prelude.Exec.{ok, err, ◌>>=◌, on_option}
use run_buoy.Server.Payload.{ApnsResult, accepted, retryable, live_activity_expiration}
use run_buoy.Server.Database.{Database, new_id, token_undecryptable}
use run_buoy.Server.Delivery.{
  goes_before, next_due, update_device, update_binding, update_item, has_live_activity_capacity,
  token_for, start_binding, after_accepted, after_invalid_token, after_refusal, record_result,
  is_overdue, expire_item, deliver_item, try_item, process_item, process_one, drained, drain,
}
use run_buoy.Server.Outcome.{
  settle, started_binding, end_binding, invalidate_binding, backoff_seconds, counted, mark_sent,
  mark_failed, mark_retry, clear_token, new_attempt,
}
use run_buoy.Server.Apns.{ApnsRequest, invalid_token, error_of, request_with}
use run_buoy.Server.Delivery.Choice.{NoneDue, IsFirst, IsIdle}
use run_buoy.Server.Delivery.Round.{IsBlocked}
use run_buoy.Server.Rows.{PushOutbox}
use run_buoy.Prelude.Table.{select_where}
use run_buoy.Server.Delivery.Drain.{IsSound, work, process_one_progress, process_one-IsFirst}
use run_buoy.Server.Delivery.Liveness.{drain_empties}
use run_buoy.Tests.Fixtures.{value_or, settings, paired, waiting}

abbrev two_waiting : Database
two_waiting = record paired { outbox = waiting 50 5 1000 ∷ waiting 51 10 2000 ∷ [] }

-- A provider that is unavailable.
abbrev unavailable : ℕ → ApnsRequest → ApnsResult × ℕ
unavailable _ _ = (record { status_code = 503; apns_id = none; reason = none }, 20)

two_waiting-IsSound : IsSound two_waiting.outbox
two_waiting-IsSound = record {
  distinct = ((refl, tt), (tt, tt));
  single = record { at_key = λ key. ground arith };
}

drain_empties_example :
    (m : ℕ) × (t : Database) × (drain settings
        (λ e. some e)
        unavailable
        (λ n. 3000 + n)
        20
        0
        two_waiting
      ≡ ok (drained m, t))
    × (m < 20)
    × NoneDue (3000 + m) t.outbox
    × IsSound t.outbox
drain_empties_example =
    drain_empties (λ e. some e) settings unavailable (λ n. 3000 + n) 20 two_waiting
      ((((λ h. cc), (λ h. cc)), tt), tt) two_waiting-IsSound (omega arith)

one_round : Bool × Database
one_round =
    value_or (process_one settings (λ e. some e) (unavailable 0) 3000 two_waiting)
      (true, two_waiting)

-- Opens every function that a round of the worker calls.
unfoldable pub delivering : Unit {0}
unfolding ◌>>=◌ on_option new_id invalid_token error_of goes_before next_due update_device
    update_binding update_item settle has_live_activity_capacity token_for request_with
    started_binding end_binding invalidate_binding backoff_seconds counted mark_sent mark_failed
    mark_retry start_binding after_accepted clear_token after_invalid_token after_refusal
    new_attempt record_result is_overdue expire_item deliver_item try_item process_item process_one
    accepted retryable live_activity_expiration
delivering = tt

process_one_progress_example :
    ((process_one settings (λ e. some e) (unavailable 0) 3000 two_waiting ≡ ok (false, two_waiting))
      × IsIdle 3000 two_waiting.outbox)
    ⊎ ((o : PushOutbox) × IsFirst 3000 o two_waiting.outbox
        × (((t : Database) × (process_one settings (λ e. some e) (unavailable 0) 3000 two_waiting
                ≡ ok (true, t))
              × IsSound t.outbox
              × (work 6 t.outbox < work 6 two_waiting.outbox))
            ⊎ ((process_one settings (λ e. some e) (unavailable 0) 3000 two_waiting
                  ≡ err token_undecryptable)
                × IsBlocked settings (λ e. some e) (unavailable 0) two_waiting o)))
process_one_progress_example =
    process_one_progress settings (λ e. some e) (unavailable 0) 3000 two_waiting two_waiting-IsSound

one_round_true :
    process_one settings (λ e. some e) (unavailable 0) 3000 two_waiting ≡ ok (true, one_round.1)
unfolding delivering one_round
one_round_true = refl

process_one-IsFirst_example :
    (o : PushOutbox) × IsFirst 3000 o two_waiting.outbox
    × (select_where (λ x. not (x.id == o.id)) one_round.1.outbox
        ≡ select_where (λ x. not (x.id == o.id)) two_waiting.outbox)
process_one-IsFirst_example =
    process_one-IsFirst settings (λ e. some e) (unavailable 0) 3000 two_waiting one_round.1
      one_round_true
