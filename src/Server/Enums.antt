-- ===== src/Server/Enums.antt =====
-- The literals of server/app/schemas.py and server/app/models.py as data types, and the tables of
-- server/app/services.py over them.
use run_buoy.Prelude.{◌==◌, ℕ, Bool, true, false, Option, none, some}

pub data ExecutionStatus : Type 0 where
  created starting running succeeded failed cancelled lost : ExecutionStatus

pub data HealthStatus : Type 0 where
  healthy stale offline : HealthStatus

pub data AttentionStatus : Type 0 where
  nothing information warning action_required : AttentionStatus

pub data EventType : Type 0 where
  run_created run_starting run_started run_progress run_phase_changed run_message : EventType
  run_attention_required run_heartbeat run_succeeded run_failed run_cancelled run_lost : EventType

pub data Policy : Type 0 where
  automatic immediate disabled : Policy

pub data Level : Type 0 where
  info success warning error : Level

pub data PushKind : Type 0 where
  live_start live_update live_end notification : PushKind

pub data TargetType : Type 0 where
  device activity : TargetType

pub data OutboxStatus : Type 0 where
  pending sent cancelled failed expired suppressed : OutboxStatus

pub data BindingState : Type 0 where
  active stale ended dismissed expired invalidated replaced : BindingState

-- RunUpsert.notification_policy
pub data NotificationPolicy : Type 0 where
  failures all none_at_all : NotificationPolicy

-- The members of DEVICE_SCOPES and MACHINE_SCOPES in server/app/auth.py.
pub data Scope : Type 0 where
  runs_read machines_read notifications_read devices_register_token : Scope
  live_activities_register_token pairing_claim preferences_write subscriptions_delete : Scope
  runs_create runs_update events_write notifications_send hooks_manage machines_update : Scope
  pairing_poll : Scope

-- The place of a scope in the list, by which scopes are compared.
abbrev pub scope_code : Scope → ℕ
scope_code runs_read = 0
scope_code machines_read = 1
scope_code notifications_read = 2
scope_code devices_register_token = 3
scope_code live_activities_register_token = 4
scope_code pairing_claim = 5
scope_code preferences_write = 6
scope_code subscriptions_delete = 7
scope_code runs_create = 8
scope_code runs_update = 9
scope_code events_write = 10
scope_code notifications_send = 11
scope_code hooks_manage = 12
scope_code machines_update = 13
scope_code pairing_poll = 14

-- Principal.kind, and the actor_type of an audit row
pub data PrincipalKind : Type 0 where
  device_principal machine_principal : PrincipalKind

-- TERMINAL_STATUSES
abbrev pub is_terminal : ExecutionStatus → Bool
is_terminal ExecutionStatus.succeeded = true
is_terminal ExecutionStatus.failed = true
is_terminal ExecutionStatus.cancelled = true
is_terminal ExecutionStatus.lost = true
is_terminal _ = false

-- equality of two statuses, by their place
abbrev pub status_code : ExecutionStatus → ℕ
status_code ExecutionStatus.created = 0
status_code ExecutionStatus.starting = 1
status_code ExecutionStatus.running = 2
status_code ExecutionStatus.succeeded = 3
status_code ExecutionStatus.failed = 4
status_code ExecutionStatus.cancelled = 5
status_code ExecutionStatus.lost = 6

abbrev pub status_eq : ExecutionStatus → ExecutionStatus → Bool
status_eq a b = status_code a == status_code b

-- EVENT_STATUS.get(event_type)
abbrev pub event_status : EventType → Option ExecutionStatus
event_status run_created = some ExecutionStatus.created
event_status run_starting = some ExecutionStatus.starting
event_status run_started = some ExecutionStatus.running
event_status run_succeeded = some ExecutionStatus.succeeded
event_status run_failed = some ExecutionStatus.failed
event_status run_cancelled = some ExecutionStatus.cancelled
event_status run_lost = some ExecutionStatus.lost
event_status _ = none

-- next_status in ALLOWED_TRANSITIONS[execution_status]; a terminal status has no entry.
abbrev pub is_allowed_transition : ExecutionStatus → ExecutionStatus → Bool
is_allowed_transition ExecutionStatus.created _ = true
is_allowed_transition ExecutionStatus.starting ExecutionStatus.created = false
is_allowed_transition ExecutionStatus.starting _ = true
is_allowed_transition ExecutionStatus.running ExecutionStatus.created = false
is_allowed_transition ExecutionStatus.running ExecutionStatus.starting = false
is_allowed_transition ExecutionStatus.running _ = true
is_allowed_transition _ _ = false

-- execution_status in {"FAILED", "LOST"}
abbrev pub is_failure : ExecutionStatus → Bool
is_failure ExecutionStatus.failed = true
is_failure ExecutionStatus.lost = true
is_failure _ = false

-- attention_status in {"WARNING", "ACTION_REQUIRED"}
abbrev pub wants_attention : AttentionStatus → Bool
wants_attention AttentionStatus.warning = true
wants_attention AttentionStatus.action_required = true
wants_attention _ = false

-- event_type in {"run.started", "run.starting"}
abbrev pub is_start_event : EventType → Bool
is_start_event run_started = true
is_start_event run_starting = true
is_start_event _ = false

abbrev pub is_progress_event : EventType → Bool
is_progress_event run_progress = true
is_progress_event _ = false

abbrev pub is_phase_event : EventType → Bool
is_phase_event run_phase_changed = true
is_phase_event _ = false

abbrev pub is_created_event : EventType → Bool
is_created_event run_created = true
is_created_event _ = false

abbrev pub is_pending : OutboxStatus → Bool
is_pending OutboxStatus.pending = true
is_pending _ = false

abbrev pub is_sent : OutboxStatus → Bool
is_sent OutboxStatus.sent = true
is_sent _ = false

-- state in {"active", "stale"}
abbrev pub is_deliverable : BindingState → Bool
is_deliverable BindingState.active = true
is_deliverable BindingState.stale = true
is_deliverable _ = false

abbrev pub is_active : BindingState → Bool
is_active BindingState.active = true
is_active _ = false

abbrev pub is_live_start : PushKind → Bool
is_live_start live_start = true
is_live_start _ = false

abbrev pub is_live_update : PushKind → Bool
is_live_update live_update = true
is_live_update _ = false

abbrev pub is_live_end : PushKind → Bool
is_live_end live_end = true
is_live_end _ = false

-- kind.startswith("LIVE_")
abbrev pub is_live : PushKind → Bool
is_live notification = false
is_live _ = true

abbrev pub is_device : TargetType → Bool
is_device device = true
is_device activity = false

abbrev pub is_automatic : Policy → Bool
is_automatic automatic = true
is_automatic _ = false

abbrev pub is_immediate : Policy → Bool
is_immediate immediate = true
is_immediate _ = false

abbrev pub is_disabled : Policy → Bool
is_disabled disabled = true
is_disabled _ = false

abbrev pub is_success_level : Level → Bool
is_success_level success = true
is_success_level _ = false

abbrev pub is_error_level : Level → Bool
is_error_level error = true
is_error_level _ = false

abbrev pub is_succeeded : ExecutionStatus → Bool
is_succeeded ExecutionStatus.succeeded = true
is_succeeded _ = false
