-- ===== src/Tests/Limits.antt =====
-- The limits over concrete databases: requests in a window, and live activities on a device.
use run_buoy.Prelude.{arith, ℕ, ◌-◌, ◌≡◌, refl, min, Bool, false, none, some, List, [], ◌∷◌, length}
use run_buoy.Prelude.Exec.{ok}
use run_buoy.Server.Enums.{PushKind}
use run_buoy.Server.Rows.{PushOutbox, machine_subject}
use run_buoy.Server.Payload.{live_content_state, live_payload, ApnsResult}
use run_buoy.Server.Database.{Database}
use run_buoy.Server.RateLimit.Window.{Spares, counted_requests, passing, enforce_rate_limit_lem}
use run_buoy.Server.Delivery.{process_one}
use run_buoy.Server.Apns.{ApnsRequest}
use run_buoy.Server.Delivery.Capacity.{IsWithin, process_one-IsWithin}
use run_buoy.Tests.Fixtures.{value_or, settings, new_run, paired, waiting}
use run_buoy.Tests.Delivery.{delivering}

abbrev times : List ℕ
times = 61000000 ∷ 62000000 ∷ 119000000 ∷ []

-- The third request of a minute whose limit is two is refused.
enforce_rate_limit_example :
    (n : ℕ) × (t : Database) × (passing settings "notification"
        (machine_subject 5)
        2
        60
        times
        paired
      ≡ ok (n, t))
    × (n ≡ min (2 - counted_requests "notification" (machine_subject 5) 60 paired) (length times))
    × Spares "notification" (machine_subject 5) paired t
enforce_rate_limit_example =
    enforce_rate_limit_lem settings "notification" (machine_subject 5) 2 60 60 times paired
      (refl, (refl, (refl, tt)))

abbrev start_item : PushOutbox
start_item = record (waiting 50 10 1000) {
  kind = PushKind.live_start;
  run_id = some 10;
  desired_payload = live_payload new_run PushKind.live_start 1000 "Build Mac";
}

abbrev start_waiting : Database
start_waiting = record paired { outbox = start_item ∷ [] }

abbrev reachable : ApnsRequest → ApnsResult × ℕ
reachable _ = (record { status_code = 200; apns_id = none; reason = none }, 20)

begun : Bool × Database
begun =
    value_or (process_one settings (λ e. some e) reachable 3000 start_waiting)
      (false, start_waiting)

begun_ok : process_one settings (λ e. some e) reachable 3000 start_waiting ≡ ok begun
unfolding delivering begun live_payload live_content_state
begun_ok = refl

begun_bindings : length begun.1.bindings ≡ 1
unfolding delivering begun live_payload live_content_state
begun_bindings = refl

process_one-IsWithin_example : IsWithin 2 begun.1.bindings
process_one-IsWithin_example =
    process_one-IsWithin settings (λ e. some e) reachable 3000 start_waiting {b = begun.0}
      {t = begun.1} (record { at_device = λ d. omega arith }) begun_ok
