-- ===== src/Server/Runs/Quota.antt =====
-- What a registration of a run may change: within the quota of its machine, never what events say.
use run_buoy.Prelude.{
  ℕ, ◌≤◌, ◌≡◌, refl, sym, subst, ap, arith, not, ◌&&◌, List, [], ◌∷◌, ◌==◌, leb, Bool-cases, inl,
  inr, eq_of_==,
}
use run_buoy.Prelude.Table.{count_where, update_where, count-append, count-update-eq}
use run_buoy.Prelude.Exec.{ok, ◌>>=◌}
use run_buoy.Prelude.Exec.Keeps.{
  Keeps, Leaves, Keeps-gets, Keeps-on_option, Keeps-raise, Keeps-modify, Keeps-pure, Keeps-bind,
  Keeps-if, at_ok, keeps_rules,
}
use run_buoy.Server.Enums.{is_terminal, status_eq}
use run_buoy.Server.Rows.{Run}
use run_buoy.Server.Auth.{Principal}
use run_buoy.Server.Quota.{acquire_quota_lock}
use run_buoy.Server.Notify.{bump_workspace_revision}
use run_buoy.Server.Runs.{
  RunUpsert, machine_owned, new_run, describe_run, is_active_of, is_run, register_run, refresh_run,
  upsert_run,
}
use run_buoy.Server.Database.{Database, Settings}

-- No handler on the way writes the runs.
abbrev pub RunsAre : (List Run → Type 0) → Database → Type 0
RunsAre P db = P db.runs

module _ (P : List Run → Type 0) where
  bump-Keeps_runs : (w : ℕ) → Keeps (RunsAre P) (bump_workspace_revision w)
  unfolding bump_workspace_revision
  bump-Keeps_runs w = Keeps-bind _ _ (Keeps-gets _) λ row.
      Keeps-on_option row _ _ (λ _. Keeps-raise _)
        λ v _. Keeps-bind _ _ (Keeps-modify _ (λ s h. h)) λ _. Keeps-pure _

  owned-Keeps_runs :
      (principal : Principal) (id : ℕ) → Keeps (RunsAre P) (machine_owned principal id)
  unfolding machine_owned
  owned-Keeps_runs principal id = search keeps_rules

  -- A registration keeps what its two branches keep.
  pub upsert-Keeps :
      (settings : Settings) (principal : Principal) (id : ℕ) (body : RunUpsert) (now : ℕ)
      → Keeps (RunsAre P) (register_run settings principal id body now)
      → ((r : Run) → Keeps (RunsAre P) (refresh_run principal body r))
      → Keeps (RunsAre P) (upsert_run settings principal id body now)
  unfolding upsert_run
  upsert-Keeps settings principal id body now register refresh =
      Keeps-bind _ _ (owned-Keeps_runs principal body.machine_id) λ _.
        Keeps-bind _ _ (Keeps-modify _ (λ s h. h)) λ _. Keeps-bind _ _ (Keeps-gets _) λ found.
          Keeps-bind _ _ (Keeps-on_option found _ _ (λ _. register) (λ r _. refresh r))
            λ run. Keeps-bind _ _ (bump-Keeps_runs principal.workspace_id) λ _. Keeps-pure run

abbrev pub IsWithinQuota : Settings → ℕ → List Run → Type 0
IsWithinQuota settings machine_id runs =
    count_where (is_active_of machine_id) runs ≤ settings.max_active_runs_per_machine

register-IsWithinQuota :
    (settings : Settings) (principal : Principal) (id : ℕ) (body : RunUpsert) (now machine_id : ℕ)
    → Keeps
        (RunsAre (IsWithinQuota settings machine_id))
        (register_run settings principal id body now)
unfolding register_run acquire_quota_lock new_run ◌>>=◌
register-IsWithinQuota settings principal id body now machine_id = record { at = kept }
  where
    kept :
        (db : Database)
        → IsWithinQuota settings machine_id db.runs
        → Leaves
            (RunsAre (IsWithinQuota settings machine_id))
            (register_run settings principal id body now db)
    kept db h =
        elim (Bool-cases (
          leb settings.max_active_runs_per_machine
            (count_where (is_active_of body.machine_id) db.runs))) [
              | inl e ↦ rw e tt
              | inr e ↦ rw e (elim (Bool-cases (body.machine_id == machine_id)) [
                | inl same ↦ ground (
                  arith,
                  h,
                  e,
                  ap (λ i. count_where (is_active_of i) db.runs)
                      (eq_of_== body.machine_id machine_id same),
                  count-append (is_active_of machine_id) db.runs
                      (new_run principal id body now ∷ []),
                )
                | inr other ↦ ground (
                  arith,
                  h,
                  count-append (is_active_of machine_id) db.runs
                      (new_run principal id body now ∷ []),
                )
              ])
            ]

pub refresh-Keeps :
    (P : List Run → Type 0) (principal : Principal) (body : RunUpsert) (r : Run)
    → ((runs : List Run) → P runs → P (update_where (is_run r.id) (describe_run body) runs))
    → Keeps (RunsAre P) (refresh_run principal body r)
unfolding refresh_run
refresh-Keeps P principal body r h =
    Keeps-if (not (r.machine_id == principal.subject_id)) _ _ (λ _. Keeps-raise _)
      λ _.
        Keeps-if
          (is_terminal r.execution_status
            && not (status_eq body.execution_status r.execution_status))
          _ _ (λ _. Keeps-raise _)
          λ _. Keeps-bind _ _ (Keeps-modify _ (λ db k. h db.runs k)) λ _. Keeps-pure _

-- A registration never leaves a machine with more active runs than its quota, if it had no more.
pub upsert_run-IsWithinQuota :
    (settings : Settings) (principal : Principal) (id : ℕ) (body : RunUpsert) (now machine_id : ℕ)
    (db db' : Database) (run : Run)
    → upsert_run settings principal id body now db ≡ ok (run, db')
    → IsWithinQuota settings machine_id db.runs
    → IsWithinQuota settings machine_id db'.runs
unfolding describe_run
upsert_run-IsWithinQuota settings principal id body now machine_id db db' run e h =
    at_ok (upsert_run settings principal id body now)
      (upsert-Keeps (IsWithinQuota settings machine_id) settings principal id body now
        (register-IsWithinQuota settings principal id body now machine_id)
        (λ r. refresh-Keeps (IsWithinQuota settings machine_id) principal body r (λ runs k.
          subst (λ n. n ≤ settings.max_active_runs_per_machine)
            (sym (
              count-update-eq (is_active_of machine_id) (is_run r.id) (describe_run body) runs
                (λ x x_is. refl)))
            k)))
      db h e
