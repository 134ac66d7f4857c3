-- ===== src/Cli/Store.antt =====
-- The tables of the local queue in cli/src/runbuoy/persistence/store.py, its event of
-- cli/src/runbuoy/models.py and its errors.
use run_buoy.Prelude.{ℕ, Bool, Option, String, List, ◌==◌}
use run_buoy.Prelude.Exec.{Exec}
use run_buoy.Server.Enums.{ExecutionStatus, EventType}
use run_buoy.Cli.Redaction.{Json, Fields}

pub record LocalRun : Type 0 where
  pub run_id : ℕ
  pub machine_id : ℕ
  pub title : String
  pub source : String
  pub status : ExecutionStatus
  pub progress_json : Option Json
  pub phase : Option Json
  pub safe_message : Option Json
  pub exit_code : Option Json
  pub started_at : Option ℕ
  pub updated_at : ℕ
  pub ended_at : Option ℕ
  pub manifest_path : String
  pub log_path : String
  pub result_path : String
  pub socket_path : String
  pub tmux_session : Option String
  pub worker_pid : Option ℕ
  pub process_group : Option ℕ
  pub remote_initialized : Bool
  pub live_activity_policy : String

-- RunEvent of cli/src/runbuoy/models.py
pub record QueuedEvent : Type 0 where
  pub event_id : ℕ
  pub run_id : ℕ
  pub machine_id : ℕ
  pub seq : ℕ
  pub type : EventType
  pub occurred_at : ℕ
  pub payload : Fields

-- What the last upload failed with.
pub data RemoteError : Type 0 where
  http_status : ℕ → RemoteError
  transport : String → RemoteError
  run_disappeared : ℕ → RemoteError

pub record EventRow : Type 0 where
  pub event : QueuedEvent
  pub delivered : Bool
  pub attempt_count : ℕ
  pub next_attempt_at : ℕ
  pub last_error : Option RemoteError
  pub created_at : ℕ

pub record MetadataRow : Type 0 where
  pub machine_id : ℕ
  pub display_name : String
  pub updated_at : ℕ
  pub attempt_count : ℕ
  pub next_attempt_at : ℕ
  pub last_error : Option RemoteError

-- `next_id` is the next identifier that `uuid7` gives out.
pub record Store : Type 0 where
  pub runs : List LocalRun
  pub events : List EventRow
  pub metadata : List MetadataRow
  pub next_id : ℕ

pub data QueueError : Type 0 where
  forbidden_field : String → QueueError
  unknown_run : ℕ → QueueError
  already_terminal : ℕ → QueueError
  run_exists : ℕ → QueueError

abbrev pub Queue : Type 0 → Type 0
Queue A = Exec QueueError Store A

abbrev pub is_run : ℕ → LocalRun → Bool
is_run id r = r.run_id == id

abbrev pub is_of : ℕ → EventRow → Bool
is_of id r = r.event.run_id == id
