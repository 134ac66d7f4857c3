-- ===== src/Server/Payload.antt =====
-- The payloads of server/app/services.py, the priority of a push, and the delivery deadline and the
-- results of server/app/apns.py. `aware` only attaches UTC to an instant, and does not change it.
use run_buoy.Prelude.{
  ℕ, ◌+◌, ◌-◌, ◌*◌, ◌/◌, max, Bool, false, ◌&&◌, ◌||◌, Option, none, some, String, leb, ltb, ◌==◌,
  if◌then◌else◌, or_else,
}
use run_buoy.Server.Enums.{
  EventType, PushKind, live_start, live_end, is_failure, wants_attention, is_phase_event,
  is_progress_event, is_live_start, is_live_end,
}
use run_buoy.Server.Rows.{
  seconds, Progress, Run, Notification, LiveContent, StartAttributes, PushPayload, live, alert,
}

-- `x or d` on texts, where the empty text counts as missing
unfoldable pub text_or : Option String → String → String
text_or none d = d
text_or (some String.[]) d = d
text_or (some (String.◌∷◌ c s)) d = String.◌∷◌ c s

abbrev pub progress_field {ℓ} : {A : Type ℓ} → Option Progress → (Progress → Option A) → Option A
progress_field none f = none
progress_field (some p) f = f p

unfoldable pub live_content_state : Run → String → LiveContent
live_content_state run machine_name = record {
  sequence = max run.last_seq 1;
  execution_status = run.execution_status;
  health_status = run.health_status;
  attention_status = run.attention_status;
  progress_kind = or_else (progress_field run.progress (λ p. p.kind)) "indeterminate";
  progress = progress_field run.progress (λ p. p.fraction);
  current = progress_field run.progress (λ p. p.current);
  total = progress_field run.progress (λ p. p.total);
  phase = run.phase;
  message = run.safe_message;
  created_at = run.created_at;
  started_at = or_else run.started_at run.updated_at;
  updated_at = run.updated_at;
  machine_name = machine_name;
  estimated_end_at = progress_field run.progress (λ p. p.estimated_end_at);
  exit_code = run.exit_code;
  ended_at = run.ended_at;
}

-- int(value.timestamp())
abbrev pub timestamp : ℕ → ℕ
timestamp t = t / 1000000

start_attributes : Run → String → StartAttributes
start_attributes run machine_name = record {
  run_id = run.id;
  title = run.title;
  machine_name = machine_name;
  alert_title = run.title;
  alert_body = text_or run.safe_message "Run is still in progress";
}

unfoldable pub live_payload : Run → PushKind → ℕ → String → PushPayload
unfolding start_attributes
live_payload run kind now machine_name =
    live (timestamp now) kind (live_content_state run machine_name)
      (if is_live_end kind then none else some (timestamp (run.updated_at + seconds 60)))
      (if is_live_start kind then some (start_attributes run machine_name) else none)

-- A text under `if x:`, where the empty text is dropped
unfoldable pub nonempty : Option String → Option String
nonempty none = none
nonempty (some String.[]) = none
nonempty (some (String.◌∷◌ c s)) = some (String.◌∷◌ c s)

unfoldable pub normal_payload : Notification → PushPayload
normal_payload n = alert n.title n.body (nonempty n.subtitle) n.id n.level n.run_id

abbrev pub gap : ℕ → ℕ → ℕ
gap a b = (a - b) + (b - a)

-- The fractions differ by at least `step` millionths.
abbrev pub moved_by : ℕ → Option ℕ → Option ℕ → Bool
moved_by step (some a) (some b) = leb step (gap a b)
moved_by step _ _ = false

-- The fractions are both numbers and differ by less than `step` millionths.
abbrev pub within : ℕ → Option ℕ → Option ℕ → Bool
within step (some a) (some b) = ltb (gap a b) step
within step _ _ = false

abbrev pub fraction_of : Option Progress → Option ℕ
fraction_of p = progress_field p (λ q. q.fraction)

is_urgent : Run → PushKind → Option EventType → Bool
is_urgent run kind event_type =
    is_live_start kind
    || is_live_end kind
    || wants_attention run.attention_status
    || is_failure run.execution_status
    || elim event_type [ none ↦ false | some t ↦ is_phase_event t ]

progress_priority : Option ℕ → Option ℕ → ℕ
progress_priority none current = 10
progress_priority (some p) current = if moved_by 100000 current (some p) then 10 else 5

-- _priority
unfoldable pub priority_of : Run → PushKind → Option EventType → Option Progress → ℕ
unfolding is_urgent progress_priority
priority_of run kind event_type previous_progress =
    if is_urgent run kind event_type
    then 10
    else if elim event_type [ none ↦ false | some t ↦ is_progress_event t ]
    then progress_priority (fraction_of previous_progress) (fraction_of run.progress)
    else 5

-- The last second at which the payload is still worth delivering.
unfoldable pub live_activity_expiration : PushPayload → ℕ → ℕ
live_activity_expiration (alert _ _ _ _ _ _) now = now + 60
live_activity_expiration (live sent_at live_start _ _ _) now = sent_at + 300
live_activity_expiration (live sent_at live_end _ _ _) now = sent_at + 4 * 60 * 60
live_activity_expiration (live sent_at _ _ none _) now = sent_at + 60
live_activity_expiration (live sent_at _ _ (some stale_date) _) now = stale_date

pub record ApnsResult : Type 0 where
  pub status_code : ℕ
  pub apns_id : Option String
  pub reason : Option String

unfoldable pub accepted : ApnsResult → Bool
accepted r = leb 200 r.status_code && ltb r.status_code 300

unfoldable pub retryable : ApnsResult → Bool
retryable r = r.status_code == 429 || r.status_code == 500 || r.status_code == 503
