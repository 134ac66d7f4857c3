-- ===== src/Server/Apns.antt =====
-- The requests to the provider and what its answers mean: server/app/apns.py, and `_request_for` of
-- server/app/outbox.py.
use text.Mathlib.Text.{◌==◌ as str_eq}
use run_buoy.Prelude.{ℕ, Bool, false, ◌||◌, Option, none, some, ◌==◌, if◌then◌else◌}
use run_buoy.Server.Enums.{is_live}
use run_buoy.Server.Rows.{PushPayload, PushError, apns_reason, apns_status, PushOutbox}
use run_buoy.Server.Payload.{timestamp, live_activity_expiration, ApnsResult}

-- APNsRequest with its headers. The collapse identifier is the pair that the code joins by a colon
-- and cuts to 64 characters.
pub record ApnsRequest : Type 0 where
  pub token : ℕ
  pub payload : PushPayload
  pub is_live_activity : Bool
  pub priority : ℕ
  pub expiration : ℕ
  pub collapse_id : Option (ℕ × ℕ)

-- APNsResult.invalid_token
unfoldable pub invalid_token : ApnsResult → Bool
invalid_token r = r.status_code == 410 || elim r.reason [
  | none ↦ false
  | some reason ↦
      str_eq reason "BadDeviceToken"
      || str_eq reason "DeviceTokenNotForTopic"
      || str_eq reason "ExpiredToken"
      || str_eq reason "Unregistered"
]

-- `result.reason or f"APNs {result.status_code}"`
unfoldable pub error_of : ApnsResult → PushError
error_of r = elim r.reason [
  | none ↦ apns_status r.status_code
  | some reason ↦ if str_eq reason "" then apns_status r.status_code else apns_reason reason
]

unfoldable pub request_with : PushOutbox → ℕ → ℕ → ApnsRequest
request_with item now token = record {
  token = token;
  payload = item.desired_payload;
  is_live_activity = is_live item.kind;
  priority = item.priority;
  expiration =
      if is_live item.kind
      then live_activity_expiration item.desired_payload (timestamp now)
      else 0;
  collapse_id =
      if is_live item.kind
      then elim item.run_id [ none ↦ none | some r ↦ some (r, item.target_id) ]
      else none;
}
