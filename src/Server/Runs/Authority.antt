-- ===== src/Server/Runs/Authority.antt =====
-- What a registration leaves of a run.
use run_buoy.Prelude.{none, ℕ, ◌≡◌, refl, Bool, List, [], ◌∷◌, leb, Bool-cases, inl, inr, All}
use run_buoy.Prelude.Table.{count_where, update_where, insert}
use run_buoy.Prelude.Exec.{ok, ◌>>=◌}
use run_buoy.Prelude.Exec.Keeps.{Keeps, Leaves, at_ok}
use run_buoy.Server.Enums.{
  ExecutionStatus, HealthStatus, AttentionStatus, Policy, NotificationPolicy,
}
use run_buoy.Server.Rows.{Run}
use run_buoy.Server.Auth.{Principal}
use run_buoy.Server.Quota.{acquire_quota_lock}
use run_buoy.Server.Runs.{
  RunUpsert, new_run, describe_run, is_active_of, is_run, register_run, upsert_run,
}
use run_buoy.Server.Runs.Quota.{RunsAre, upsert-Keeps, refresh-Keeps}
use run_buoy.Server.Database.{Database, Settings}

-- A run without what registrations write of it: its description, its health and its attention status.
unfoldable pub projection : Run → Run
projection r = record r {
  title = "";
  source = none;
  health_status = HealthStatus.healthy;
  attention_status = AttentionStatus.nothing;
  live_activity_policy = Policy.automatic;
  notification_policy = NotificationPolicy.failures;
}

-- A run of which no event was accepted.
abbrev pub IsBlank : Run → Type 0
IsBlank r = (r.execution_status ≡ ExecutionStatus.created) × (r.last_seq ≡ 0)

-- The same runs in the same order, but for what registrations write, and then blank ones.
abbrev pub IsContinued : List Run → List Run → Type 0
IsContinued [] after = All IsBlank after
IsContinued (r ∷ rs) [] = ⊥
IsContinued (r ∷ rs) (x ∷ xs) = (projection x ≡ projection r) × IsContinued rs xs

IsContinued-refl : (runs : List Run) → IsContinued runs runs
IsContinued-refl [] = tt
IsContinued-refl (r ∷ rs) = (refl, IsContinued-refl rs)

insert-IsContinued :
    (before after : List Run) (r : Run)
    → IsBlank r
    → IsContinued before after
    → IsContinued before (insert r after)
insert-IsContinued [] [] r b h = (b, tt)
insert-IsContinued [] (x ∷ xs) r b h = (h.0, insert-IsContinued [] xs r b h.1)
insert-IsContinued (y ∷ ys) [] r b h = absurd h
insert-IsContinued (y ∷ ys) (x ∷ xs) r b h = (h.0, insert-IsContinued ys xs r b h.1)

describe-IsContinued :
    (q : Run → Bool) (body : RunUpsert) (before after : List Run)
    → IsContinued before after
    → IsContinued before (update_where q (describe_run body) after)
unfolding describe_run projection
describe-IsContinued q body [] [] h = tt
describe-IsContinued q body [] (x ∷ xs) h = elim (Bool-cases (q x)) [
  | inl e ↦ rw e (h.0, describe-IsContinued q body [] xs h.1)
  | inr e ↦ rw e (h.0, describe-IsContinued q body [] xs h.1)
]
describe-IsContinued q body (y ∷ ys) [] h = absurd h
describe-IsContinued q body (y ∷ ys) (x ∷ xs) h = elim (Bool-cases (q x)) [
  | inl e ↦ rw e (h.0, describe-IsContinued q body ys xs h.1)
  | inr e ↦ rw e (h.0, describe-IsContinued q body ys xs h.1)
]

register-IsContinued :
    (settings : Settings) (principal : Principal) (id : ℕ) (body : RunUpsert) (now : ℕ)
    (before : List Run)
    → Keeps (RunsAre (IsContinued before)) (register_run settings principal id body now)
unfolding register_run acquire_quota_lock new_run ◌>>=◌
register-IsContinued settings principal id body now before = record { at = kept }
  where
    kept :
        (db : Database)
        → IsContinued before db.runs
        → Leaves (RunsAre (IsContinued before)) (register_run settings principal id body now db)
    kept db h =
        elim (Bool-cases (
          leb settings.max_active_runs_per_machine
            (count_where (is_active_of body.machine_id) db.runs))) [
              | inl e ↦ rw e tt
              | inr e ↦
                  rw e (
                    insert-IsContinued before db.runs (new_run principal id body now) (refl, refl)
                      h)
            ]

-- A registration, whatever its body says, keeps every run in place with its execution status, last
-- sequence number, progress, phase, message, log tail, times, exit code and owner; of a run that is
-- there it may write the title, the source, the two policies, the health and the attention status,
-- although an event may have said the last one; and it adds only runs in the first status that no
-- event belongs to.
pub upsert_run-IsContinued :
    (settings : Settings) (principal : Principal) (id : ℕ) (body : RunUpsert) (now : ℕ)
    (db db' : Database) (run : Run)
    → upsert_run settings principal id body now db ≡ ok (run, db')
    → IsContinued db.runs db'.runs
upsert_run-IsContinued settings principal id body now db db' run e =
    at_ok (upsert_run settings principal id body now)
      (upsert-Keeps (IsContinued db.runs) settings principal id body now
        (register-IsContinued settings principal id body now db.runs)
        (λ r.
          refresh-Keeps (IsContinued db.runs) principal body r
            (describe-IsContinued (is_run r.id) body db.runs)))
      db (IsContinued-refl db.runs) e
