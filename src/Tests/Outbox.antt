-- ===== src/Tests/Outbox.antt =====
-- Coalescing over a concrete outbox.
use run_buoy.Prelude.{◌≡◌, refl, arith, none, [], ◌∷◌}
use run_buoy.Prelude.Exec.{ok}
use run_buoy.Server.Enums.{PushKind, TargetType, Level}
use run_buoy.Server.Rows.{PushOutbox, alert, notification_key}
use run_buoy.Server.Database.{Database}
use run_buoy.Server.Outbox.{PushRequest, coalesce_outbox}
use run_buoy.Server.Outbox.Pending.{Coalesced, coalesce_outbox-Coalesced}
use run_buoy.Tests.Fixtures.{paired, waiting}

-- A request for the key of the row that waits.
abbrev again : PushRequest
again = record {
  kind = PushKind.notification;
  target_type = TargetType.device;
  target_id = 3;
  run_id = none;
  payload = alert "Done" "Build again" none 50 Level.info none;
  priority = 10;
  available_at = 1500;
  coalesce_key = notification_key 50 3;
}

abbrev one_waiting : Database
one_waiting = record paired { outbox = waiting 50 5 1000 ∷ [] }

coalesce_outbox-Coalesced_example :
    (o : PushOutbox) × (t : Database) × (coalesce_outbox again 1200 one_waiting ≡ ok (o, t))
    × Coalesced again one_waiting o t
coalesce_outbox-Coalesced_example =
    coalesce_outbox-Coalesced again 1200 one_waiting (record { at_key = λ key. ground arith })
      (refl, tt)
