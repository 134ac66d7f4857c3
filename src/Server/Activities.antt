-- ===== src/Server/Activities.antt =====
-- The Live Activities that a device reports: `sync_activities` and `register_activity_update_token`
-- of server/app/api.py, with the pushes of server/app/services.py that they schedule.
use run_buoy.Prelude.{
  ℕ, Bool, false, not, ◌&&◌, Option, none, some, List, ◌==◌, ltb, leb, if◌then◌else◌, is_some,
  or_else,
}
use run_buoy.Prelude.Table.{find_where, exists_where, update_where, insert}
use run_buoy.Prelude.Exec.{pure, raise, gets, modify, ◌>>=◌, ◌>>◌, on_option, for_each}
use run_buoy.Server.Enums.{
  BindingState, TargetType, PushKind, live_end, live_update, is_terminal, is_deliverable, is_active,
}
use run_buoy.Server.Rows.{Run, ActivityId, pending_activity, named_activity, Binding, live_key}
use run_buoy.Server.Payload.{live_payload, priority_of}
use run_buoy.Server.Outbox.{PushRequest, coalesce_outbox}
use run_buoy.Server.Schedule.{machine_name_of}
use run_buoy.Server.Retention.{is_pending_activity}
use run_buoy.Server.Auth.{Principal}
use run_buoy.Server.Devices.{device_owned, change_device}
use run_buoy.Server.Runs.{is_run}
use run_buoy.Server.Database.{Database, run_not_found, Handler, new_id}

unfoldable pub binding_push : Run → PushKind → ℕ → ℕ → Binding → Database → PushRequest
binding_push run kind priority now b db = record {
  kind = kind;
  target_type = TargetType.activity;
  target_id = b.id;
  run_id = some run.id;
  payload = live_payload run kind now (machine_name_of db run "");
  priority = priority;
  available_at = now;
  coalesce_key = live_key run.id b.device_id;
}

-- schedule_binding_end; the machine of a run is there by its foreign key.
unfoldable pub schedule_binding_end : Run → Binding → ℕ → Handler Unit
schedule_binding_end run b now = do
  request ← gets (binding_push run live_end 10 now b)
  coalesce_outbox request now >> pure tt

-- schedule_binding_update
unfoldable pub schedule_binding_update : Run → Binding → ℕ → Handler Unit
schedule_binding_update run b now = do
  request ← gets (binding_push run live_update (priority_of run live_update none none) now b)
  coalesce_outbox request now >> pure tt

abbrev pub activity_eq : ActivityId → ActivityId → Bool
activity_eq (pending_activity a) (pending_activity b) = a == b
activity_eq (named_activity a) (named_activity b) = a == b
activity_eq _ _ = false

-- schemas.ActivitySyncItem
pub record ActivitySyncItem : Type 0 where
  pub activity_id : ActivityId
  pub run_id : ℕ
  pub update_token : Option ℕ
  pub token_generation : ℕ
  pub state : BindingState
  pub last_sequence : ℕ

unfoldable pub is_binding_of : ℕ → ActivityId → Binding → Bool
is_binding_of device_id activity_id b =
    b.device_id == device_id && activity_eq b.activity_id activity_id

unfoldable pub is_placeholder : ℕ → ℕ → Binding → Bool
is_placeholder device_id run_id b =
    b.device_id == device_id
    && b.run_id == run_id
    && is_pending_activity b.activity_id
    && is_active b.state

unfoldable pub new_binding : ℕ → ℕ → ActivityId → ℕ → ℕ → Binding
new_binding run_id device_id activity_id now id = record {
  id = id;
  run_id = run_id;
  device_id = device_id;
  activity_id = activity_id;
  update_push_token_encrypted = none;
  token_generation = 0;
  schema_version = 1;
  state = BindingState.active;
  last_sequence = 0;
  started_at = now;
  ended_at = none;
  invalidated_at = none;
}

-- The binding of an activity, which takes the place of the placeholder of its run if it is new.
unfoldable pub binding_for : ℕ → ℕ → ActivityId → ℕ → Handler Binding
binding_for device_id run_id activity_id now = do
  found ← gets (λ db. find_where (is_binding_of device_id activity_id) db.bindings)
  on_option found
      (do
        placeholder ← gets (λ db. find_where (is_placeholder device_id run_id) db.bindings)
        on_option placeholder (pure tt) (λ p. modify (λ db. record db {
          bindings =
              update_where (λ b. b.id == p.id)
                (λ b. record b { state = BindingState.replaced; ended_at = some now }) db.bindings;
        }))
        id ← new_id
        let b = new_binding run_id device_id activity_id now id
        modify (λ db. record db { bindings = insert b db.bindings })
        pure b)
      pure

unfoldable pub save_binding : Binding → Handler Unit
save_binding b =
    modify (λ db. record db { bindings = update_where (λ c. c.id == b.id) (λ _. b) db.bindings })

-- The pushes that an activity that is behind gets.
unfoldable pub catch_up : Run → Binding → ℕ → ℕ → Handler Unit
catch_up run b last_sequence now =
    if is_terminal run.execution_status
    then schedule_binding_end run b now
    else if ltb last_sequence run.last_seq
    then schedule_binding_update run b now
    else pure tt

-- The bindings that the device did not report: those of the second loop.
unfoldable pub is_unreported : ℕ → List ActivitySyncItem → Binding → Bool
is_unreported device_id items b =
    b.device_id == device_id
    && is_deliverable b.state
    && not (is_pending_activity b.activity_id)
    && not (exists_where (λ (i : ActivitySyncItem). activity_eq b.activity_id i.activity_id) items)

-- `encrypt` is the cipher of the stored tokens.
module _ (encrypt : ℕ → ℕ) where
  -- The token of a report that is not older than the one stored.
  unfoldable pub take_token : Option ℕ → ℕ → Binding → Binding
  take_token token generation b = elim token [
    | none ↦ b
    | some t ↦
        if leb b.token_generation generation
        then record b {
          update_push_token_encrypted = some (encrypt t);
          token_generation = generation;
        }
        else b
  ]

  unfoldable pub report_binding : ActivitySyncItem → ℕ → Binding → Binding
  report_binding item now b =
      let reported =
        take_token item.update_token item.token_generation
          (record b { state = item.state; last_sequence = item.last_sequence }) in
      record reported { ended_at = if is_deliverable item.state then none else some now }

  -- One round of the first loop of `sync_activities`.
  unfoldable pub sync_activity : Principal → ℕ → ℕ → ActivitySyncItem → Handler Unit
  sync_activity principal device_id now item = do
    found ← gets (λ db. find_where (is_run item.run_id) db.runs)
    on_option found (raise run_not_found) (λ run.
        if not (run.workspace_id == principal.workspace_id) then raise run_not_found else do
          b ← binding_for device_id item.run_id item.activity_id now
          let reported = report_binding item now b
          save_binding reported
          if is_deliverable item.state && is_some reported.update_push_token_encrypted
              then catch_up run reported item.last_sequence now
              else pure tt)

  -- sync_activities
  unfoldable pub sync_activities :
      Principal → ℕ → List ActivitySyncItem → Option Bool → ℕ → Handler Unit
  sync_activities principal device_id items frequent_pushes_enabled now = do
    device_owned principal device_id
    on_option frequent_pushes_enabled (pure tt) (λ enabled.
        change_device device_id
          (λ d. record d { frequent_live_activity_updates_enabled = enabled }))
    for_each items (sync_activity principal device_id now)
    modify (λ db. record db {
      bindings =
          update_where (is_unreported device_id items)
            (λ b. record b { state = BindingState.ended; ended_at = some now }) db.bindings;
    })

  -- The binding with the token of `register_activity_update_token`.
  unfoldable pub revive_binding : ℕ → ℕ → Binding → Binding
  revive_binding token generation b = record b {
    update_push_token_encrypted = some (encrypt token);
    token_generation = generation;
    invalidated_at = none;
    state = BindingState.active;
  }

  -- register_activity_update_token
  unfoldable pub register_activity_update_token :
      Principal → ActivityId → ℕ → ℕ → ℕ → Option ℕ → ℕ → Handler Unit
  register_activity_update_token principal activity_id device_id run_id token generation now = do
    device_owned principal device_id
    found ← gets (λ db. find_where (is_run run_id) db.runs)
    on_option found (raise run_not_found) (λ run.
        if not (run.workspace_id == principal.workspace_id) then raise run_not_found else do
          b ← binding_for device_id run_id activity_id now
          if ltb (or_else generation 1) b.token_generation then pure tt else do
            let revived = revive_binding token (or_else generation 1) b
            save_binding revived
            catch_up run revived b.last_sequence now)
