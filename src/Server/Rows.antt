-- ===== src/Server/Rows.antt =====
-- The rows of server/app/models.py, one record for each table. An identifier, a digest and an
-- encrypted token are numbers, since the code only compares them; an instant is the number of
-- microseconds since the epoch in UTC.
use run_buoy.Prelude.{ℕ, ◌≡◌, true, arith, ◌*◌, Bool, false, Option, String, List, ◌==◌, ◌&&◌}
use run_buoy.Server.Enums.{
  ExecutionStatus, HealthStatus, AttentionStatus, EventType, Policy, Level, PushKind, TargetType,
  OutboxStatus, BindingState, NotificationPolicy, Scope,
}

-- timedelta(seconds=n)
abbrev pub seconds : ℕ → ℕ
seconds n = n * 1000000

-- `negsuc n` is -(n + 1); an exit code may be negative, and nothing computes with it.
pub data ℤ : Type 0 where
  pos : ℕ → ℤ
  negsuc : ℕ → ℤ

-- The keys of the JSON object that the code reads. A fraction is counted in millionths, and none
-- stands for a value that is missing or no number.
pub record Progress : Type 0 where
  pub kind : Option String
  pub fraction : Option ℕ
  pub current : Option ℕ
  pub total : Option ℕ
  pub estimated_end_at : Option String

pub record Workspace : Type 0 where
  pub id : ℕ
  pub created_at : ℕ
  pub revision : ℕ

pub record DeletionChallenge : Type 0 where
  pub id : ℕ
  pub workspace_id : ℕ
  pub device_id : ℕ
  pub token_hash : ℕ
  pub created_at : ℕ
  pub expires_at : ℕ
  pub consumed_at : Option ℕ

pub record Device : Type 0 where
  pub id : ℕ
  pub workspace_id : ℕ
  pub installation_id : ℕ
  pub app_version : Option String
  pub os_version : Option String
  pub notification_token_encrypted : Option ℕ
  pub notification_token_generation : ℕ
  pub push_to_start_token_encrypted : Option ℕ
  pub push_to_start_token_generation : ℕ
  pub live_activities_enabled : Bool
  pub frequent_live_activity_updates_enabled : Bool
  pub failure_notifications_enabled : Bool
  pub success_notifications_enabled : Bool
  pub last_seen_at : ℕ
  pub revoked_at : Option ℕ

-- DeviceCredential and MachineCredential, `subject_id` being device_id or machine_id
pub record Credential : Type 0 where
  pub id : ℕ
  pub subject_id : ℕ
  pub token_hash : ℕ
  pub scopes : List Scope
  pub created_at : ℕ
  pub revoked_at : Option ℕ

pub record Machine : Type 0 where
  pub id : ℕ
  pub workspace_id : ℕ
  pub display_name : String
  pub hostname : Option String
  pub platform : Option String
  pub architecture : Option String
  pub cli_version : Option String
  pub last_seen_at : ℕ
  pub paired_at : ℕ
  pub revoked_at : Option ℕ

pub record Subscription : Type 0 where
  pub id : ℕ
  pub machine_id : ℕ
  pub device_id : ℕ
  pub created_at : ℕ

-- What `anonymized_key` digests: a namespace and a value. The digest stands for the pair, which it
-- determines up to collisions of HMAC-SHA256.
pub data Subject : Type 0 where
  ip_subject workspace_subject machine_subject webhook_subject pairing_subject : ℕ → Subject

abbrev pub subject_eq : Subject → Subject → Bool
subject_eq (ip_subject a) (ip_subject b) = a == b
subject_eq (workspace_subject a) (workspace_subject b) = a == b
subject_eq (machine_subject a) (machine_subject b) = a == b
subject_eq (webhook_subject a) (webhook_subject b) = a == b
subject_eq (pairing_subject a) (pairing_subject b) = a == b
subject_eq _ _ = false

pub subject_eq_refl : (a : Subject) → subject_eq a a ≡ true
subject_eq_refl a = ground arith

pub record Bucket : Type 0 where
  pub bucket_name : String
  pub subject_key : Subject
  pub window_start : ℕ
  pub request_count : ℕ
  pub expires_at : ℕ
  pub updated_at : ℕ

pub record Run : Type 0 where
  pub id : ℕ
  pub workspace_id : ℕ
  pub machine_id : ℕ
  pub title : String
  pub source : Option String
  pub execution_status : ExecutionStatus
  pub health_status : HealthStatus
  pub attention_status : AttentionStatus
  pub progress : Option Progress
  pub phase : Option String
  pub safe_message : Option String
  pub safe_log_tail : Option (List String)
  pub created_at : ℕ
  pub started_at : Option ℕ
  pub updated_at : ℕ
  pub ended_at : Option ℕ
  pub exit_code : Option ℤ
  pub termination_reason : Option String
  pub live_activity_policy : Policy
  pub notification_policy : NotificationPolicy
  pub last_seq : ℕ
  pub external_key : Option (ℕ × ℕ)

-- An event's payload: the outer option says whether the key is there, the inner one whether its
-- value is null.
pub record EventPayload : Type 0 where
  pub progress : Option (Option Progress)
  pub phase : Option (Option String)
  pub message : Option (Option String)
  pub attention_status : Option (Option AttentionStatus)
  pub exit_code : Option (Option ℤ)
  pub termination_reason : Option (Option String)
  pub safe_log_tail : Option (Option (List String))

pub record RunEvent : Type 0 where
  pub id : ℕ
  pub schema_version : ℕ
  pub event_id : ℕ
  pub run_id : ℕ
  pub machine_id : ℕ
  pub seq : ℕ
  pub type : EventType
  pub occurred_at : ℕ
  pub received_at : ℕ
  pub payload : EventPayload

-- `terminal-fallback:{run}`, `api:{machine}:{key}` and `hook:{hook}:{key}`; the key of a caller may
-- be any text and is a number here.
pub data DedupeKey : Type 0 where
  terminal_fallback : ℕ → DedupeKey
  api_key hook_key : ℕ → ℕ → DedupeKey

pub record Notification : Type 0 where
  pub id : ℕ
  pub workspace_id : ℕ
  pub machine_id : Option ℕ
  pub run_id : Option ℕ
  pub title : String
  pub subtitle : Option String
  pub body : String
  pub level : Level
  pub dedupe_key : Option DedupeKey
  pub created_at : ℕ
  pub expires_at : Option ℕ

-- `pending:{outbox id}` stands for an activity that its device has not yet named.
pub data ActivityId : Type 0 where
  pending_activity : ℕ → ActivityId
  named_activity : ℕ → ActivityId

pub record Binding : Type 0 where
  pub id : ℕ
  pub run_id : ℕ
  pub device_id : ℕ
  pub activity_id : ActivityId
  pub update_push_token_encrypted : Option ℕ
  pub token_generation : ℕ
  pub schema_version : ℕ
  pub state : BindingState
  pub last_sequence : ℕ
  pub started_at : ℕ
  pub ended_at : Option ℕ
  pub invalidated_at : Option ℕ

-- `live:{run}:{device}`, `live-start:{run}:{device}` and `notification:{notification}:{device}`;
-- no identifier holds a colon, so two keys are equal only if their parts are.
pub data CoalesceKey : Type 0 where
  live_key live_start_key notification_key : ℕ → ℕ → CoalesceKey

-- live_content_state
pub record LiveContent : Type 0 where
  pub sequence : ℕ
  pub execution_status : ExecutionStatus
  pub health_status : HealthStatus
  pub attention_status : AttentionStatus
  pub progress_kind : String
  pub progress : Option ℕ
  pub current : Option ℕ
  pub total : Option ℕ
  pub phase : Option String
  pub message : Option String
  pub created_at : ℕ
  pub started_at : ℕ
  pub updated_at : ℕ
  pub machine_name : String
  pub estimated_end_at : Option String
  pub exit_code : Option ℤ
  pub ended_at : Option ℕ

-- The part of a start payload that the other kinds do not have.
pub record StartAttributes : Type 0 where
  pub run_id : ℕ
  pub title : String
  pub machine_name : String
  pub alert_title : String
  pub alert_body : String

-- The payloads that are put into the outbox. `timestamp` and `stale_date` are in seconds.
pub data PushPayload : Type 0 where
  live : ℕ → PushKind → LiveContent → Option ℕ → Option StartAttributes → PushPayload
  alert : String → String → Option String → ℕ → Level → Option ℕ → PushPayload

pub data PushError : Type 0 where
  payload_expired activity_limit token_unavailable device_reset machine_revoked : PushError
  stopped_receiving : PushError
  apns_reason : String → PushError
  apns_status : ℕ → PushError

pub record PushOutbox : Type 0 where
  pub id : ℕ
  pub kind : PushKind
  pub target_type : TargetType
  pub target_id : ℕ
  pub run_id : Option ℕ
  pub desired_payload : PushPayload
  pub priority : ℕ
  pub available_at : ℕ
  pub attempt_count : ℕ
  pub status : OutboxStatus
  pub last_error : Option PushError
  pub coalesce_key : CoalesceKey
  pub created_at : ℕ
  pub updated_at : ℕ

pub record PushAttempt : Type 0 where
  pub id : ℕ
  pub outbox_id : ℕ
  pub attempted_at : ℕ
  pub queue_latency_ms : ℕ
  pub provider_latency_ms : ℕ
  pub status_code : ℕ
  pub apns_id : Option String
  pub reason : Option String

abbrev pub key_eq : CoalesceKey → CoalesceKey → Bool
key_eq (live_key a b) (live_key c d) = a == c && b == d
key_eq (live_start_key a b) (live_start_key c d) = a == c && b == d
key_eq (notification_key a b) (notification_key c d) = a == c && b == d
key_eq _ _ = false

abbrev pub dedupe_eq : DedupeKey → DedupeKey → Bool
dedupe_eq (terminal_fallback a) (terminal_fallback b) = a == b
dedupe_eq (api_key a b) (api_key c d) = a == c && b == d
dedupe_eq (hook_key a b) (hook_key c d) = a == c && b == d
dedupe_eq _ _ = false
